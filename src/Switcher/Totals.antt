-- ===== src/Switcher/Totals.antt =====
-- The functions of server/db/db_func.c on the statistics of a server.
use net_port.Base.{
  ℕ, zero, suc, ◌+◌, ◌-◌, ◌%◌, Bool, true, false, ◌&&◌, ◌||◌, List, [], ◌∷◌, Option, none, some,
  Str, atoi, ltb, ◌==◌, if◌then◌else◌, get_elem?, set,
}
use net_port.Switcher.{Statistics, SwitcherServer, StatisticDb, max_u64, u64}
pub mod Rises
pub mod Laws

-- `strtoull` of the two columns.
unfoldable pub read_pair : Option (Str × Str) → Option (ℕ × ℕ)
read_pair none = none
read_pair (some (received, sent)) = some (atoi u64 received, atoi u64 sent)

-- `fetch_peak_statistic_totals_unlocked` and `fetch_persisted_server_totals_unlocked`.
unfoldable pub fetch_peak_statistic_totals : (db : StatisticDb) → db.Store → ℕ → Option (ℕ × ℕ)
fetch_peak_statistic_totals db d id = read_pair (db.select_peak d id)

unfoldable pub fetch_persisted_server_totals : (db : StatisticDb) → db.Store → ℕ → Option (ℕ × ℕ)
fetch_persisted_server_totals db d id = read_pair (db.select_totals d id)

-- `persist_server_totals_unlocked`.
unfoldable pub persist_server_totals :
    (db : StatisticDb) → db.Store → SwitcherServer → db.Store × Bool
persist_server_totals db d s =
    db.update_totals d s.id s.statistics.bytes_received s.statistics.bytes_sent

-- 0 and 0 where nothing was fetched.
unfoldable pub or_zero : Option (ℕ × ℕ) → ℕ × ℕ
or_zero none = (0, 0)
or_zero (some p) = p

-- The server with the two totals raised to `p`.
unfoldable pub raise_to : Option (ℕ × ℕ) → SwitcherServer → SwitcherServer
raise_to p s = record s {
  statistics = record s.statistics {
    bytes_received = max_u64 s.statistics.bytes_received (or_zero p).0;
    bytes_sent = max_u64 s.statistics.bytes_sent (or_zero p).1;
  };
}

-- The statistics that `load_server_statistics` starts with.
unfoldable pub loaded : ℕ → Option (ℕ × ℕ) → Option (ℕ × ℕ) → Statistics
loaded now persisted peak = record {
  bytes_received = max_u64 (or_zero persisted).0 (or_zero peak).0;
  bytes_sent = max_u64 (or_zero persisted).1 (or_zero peak).1;
  connections_count = 0;
  last_update = now;
}

-- `load_server_statistics`.
unfoldable pub load_server_statistics :
    (db : StatisticDb) → ℕ → db.Store → SwitcherServer → db.Store × SwitcherServer
load_server_statistics db now d s =
    let found : SwitcherServer = record s {
      statistics =
          loaded now (fetch_persisted_server_totals db d s.id)
            (fetch_peak_statistic_totals db d s.id);
    } in
    let persisted = (persist_server_totals db d found).0 in
    (
      if ltb 0 found.statistics.bytes_received || ltb 0 found.statistics.bytes_sent
          then persisted
          else d,
      found,
    )

-- The server with the totals that the database has, or else with the peak of its samples.
unfoldable pub raised : (db : StatisticDb) → db.Store → SwitcherServer → SwitcherServer
raised db d s =
    raise_to
      (elim (fetch_persisted_server_totals db d s.id) [
        | none ↦ fetch_peak_statistic_totals db d s.id
        | some p ↦ some p
      ])
      s

-- The update and the new sample.
unfoldable pub store_statistics :
    (db : StatisticDb) → db.Store → SwitcherServer → db.Store × SwitcherServer × Bool
store_statistics db d s =
    let inserted =
      db.insert_statistic (persist_server_totals db d s).0 s.id s.statistics.bytes_received
        s.statistics.bytes_sent s.statistics.connections_count in
    (inserted.0, s, inserted.1)

abbrev pub is_empty : Statistics → Bool
is_empty t = (t.bytes_received == 0) && (t.bytes_sent == 0) && (t.connections_count == 0)

-- `save_server_statistics`: whether the code is 0.
unfoldable pub save_server_statistics :
    (db : StatisticDb) → db.Store → SwitcherServer → db.Store × SwitcherServer × Bool
save_server_statistics db d s =
    if s.server.is_dynamic_port
    then (d, s, true)
    else if is_empty s.statistics
    then (d, s, true)
    else store_statistics db d (raised db d s)

-- `find_server_index_by_id`.
unfoldable pub find_server_index_by_id : ℕ → List SwitcherServer → Option ℕ
find_server_index_by_id id [] = none
find_server_index_by_id id (s ∷ ss) =
    let rest = find_server_index_by_id id ss in
    if s.id == id then some 0 else elim rest [ none ↦ none | some i ↦ some (i + 1) ]

-- The server's statistics are copied to the server of `servers` that has its id.
unfoldable pub share_statistics : SwitcherServer → List SwitcherServer → List SwitcherServer
share_statistics s servers = elim (find_server_index_by_id s.id servers) [
  | none ↦ servers
  | some i ↦ set servers i (copied (get_elem? servers i) s)
]
  where
    copied : Option SwitcherServer → SwitcherServer → SwitcherServer
    copied none s1 = s1
    copied (some old) s1 = record old { statistics = s1.statistics }

-- `update_server_statistics` on the copy of a thread and on `servers`.
unfoldable pub update_server_statistics :
    ℕ → ℕ → ℕ → SwitcherServer → List SwitcherServer → SwitcherServer × List SwitcherServer
update_server_statistics now received sent s servers =
    let s1 : SwitcherServer = record s {
      statistics = record s.statistics {
        bytes_received = (s.statistics.bytes_received + received) % u64;
        bytes_sent = (s.statistics.bytes_sent + sent) % u64;
        last_update = now;
      };
    } in
    if s.server.is_dynamic_port then (s, servers) else (s1, share_statistics s1 servers)

-- `cleanup_old_statistics`, with `sync_all_server_totals_from_statistics`: whether the code is 0.
unfoldable pub cleanup_old_statistics : (db : StatisticDb) → ℕ → ℕ → db.Store → db.Store × Bool
cleanup_old_statistics db now retention_period d =
    db.delete_before (db.sync_totals d).0 (now - retention_period)
