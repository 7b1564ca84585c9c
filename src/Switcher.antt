-- ===== src/Switcher.antt =====
-- server/db/db_func.c and the servers of server/proxy/server/proxy_server.c that the database names:
-- their data, and what the database offers for their statistics.
use mathlib.Core.Logic.{◌⊎◌}
use net_port.Base.{
  ℕ, ◌<◌, ◌≤◌, ◌≡◌, ◌≢◌, ◌^◌, Bool, true, false, Option, none, some, Str, ltb, if◌then◌else◌,
  print_decimal,
}
use net_port.Proxy.Dynamic.State.{Server}
pub mod Totals
pub mod Rows
pub mod Start
mod Tests

abbrev pub u64 : ℕ
u64 = 2 ^ 64

-- `proxy_server_statistics_t`.
pub record Statistics : Type 0 where
  pub bytes_received : ℕ
  pub bytes_sent : ℕ
  pub connections_count : ℕ
  pub last_update : ℕ

-- `proxy_server_t` with the fields that the servers of devices do not use.
pub record SwitcherServer : Type 0 where
  pub id : ℕ
  pub server : Server
  pub statistics : Statistics

unfoldable pub max_u64 : ℕ → ℕ → ℕ
max_u64 a b = if ltb b a then a else b

-- What PostgreSQL answers to the statements of db_func.c: the two columns of the first row of a query,
-- or none where it fails or finds no row; and the database after a statement, with whether it was
-- carried out. `row` is the contents of `servers` for an id: the bytes received and sent.
pub record StatisticDb : Type 1 where
  pub Store : Type 0
  pub row : Store → ℕ → Option (ℕ × ℕ)
  pub select_totals : Store → ℕ → Option (Str × Str)
  pub select_peak : Store → ℕ → Option (Str × Str)
  pub update_totals : Store → ℕ → ℕ → ℕ → Store × Bool
  pub insert_statistic : Store → ℕ → ℕ → ℕ → ℕ → Store × Bool
  pub sync_totals : Store → Store × Bool
  pub delete_before : Store → ℕ → Store × Bool

-- The totals of no server are lost or become smaller.
abbrev pub Rises : (db : StatisticDb) → db.Store → db.Store → Type 0
Rises db d e =
    (id received sent : ℕ)
    → db.row d id ≡ some (received, sent)
    → (r : ℕ × ℕ) × (db.row e id ≡ some r) × (received ≤ r.0) × (sent ≤ r.1)

-- What is documented of the statements: a query of the totals shows the row, the update sets each total
-- to the greater one of its old and its new value, the two statements on `statistic` leave `servers`
-- alone, the synchronisation takes greater values only, and a bigint is below 2^64.
pub record Documented (db : StatisticDb) : Type 0 where
  pub row_small :
      (d : db.Store) (id received sent : ℕ)
      → db.row d id ≡ some (received, sent)
      → (received < u64) × (sent < u64)
  pub select_shows :
      (d : db.Store) (id received sent : ℕ)
      → db.row d id ≡ some (received, sent)
      → (db.select_totals d id ≡ none)
        ⊎ (db.select_totals d id ≡ some (print_decimal received, print_decimal sent))
  pub update_greatest :
      (d : db.Store) (id received sent old_received old_sent : ℕ)
      → db.row d id ≡ some (old_received, old_sent)
      → (db.update_totals d id received sent).1 ≡ true
      → db.row (db.update_totals d id received sent).0 id
        ≡ some (max_u64 old_received received, max_u64 old_sent sent)
  pub update_refused :
      (d : db.Store) (id received sent other : ℕ)
      → (db.update_totals d id received sent).1 ≡ false
      → db.row (db.update_totals d id received sent).0 other ≡ db.row d other
  pub update_other :
      (d : db.Store) (id received sent other : ℕ)
      → other ≢ id
      → db.row (db.update_totals d id received sent).0 other ≡ db.row d other
  pub insert_row :
      (d : db.Store) (id received sent count other : ℕ)
      → db.row (db.insert_statistic d id received sent count).0 other ≡ db.row d other
  pub delete_row :
      (d : db.Store) (cutoff other : ℕ)
      → db.row (db.delete_before d cutoff).0 other ≡ db.row d other
  pub sync_rises : (d : db.Store) → Rises db d (db.sync_totals d).0
