-- ===== src/Switcher/Totals/Rises.antt =====
-- The calls of server/db/db_func.c never lower the totals of a server.
use net_port.Base.{
  ℕ, ◌≤◌, ◌≡◌, sym, ◌∙◌, inl, inr, Bool, true, false, ◌||◌, List, [], ◌∷◌, some, ltb, ◌==◌, ==_iff,
  ◌-◌, if◌then◌else◌, arith, Bool-cases,
}
use mathlib.Core.Path.{subst}
use net_port.Switcher.{SwitcherServer, StatisticDb, Documented, Rises, max_u64}
use net_port.Switcher.Totals.{
  loaded, persist_server_totals, load_server_statistics, save_server_statistics,
  cleanup_old_statistics, raised, store_statistics, is_empty, fetch_persisted_server_totals,
  fetch_peak_statistic_totals,
}

-- A call that reaches the database, by any thread: with the server that it is about.
pub data Event : Type 0 where
  loads : ℕ → SwitcherServer → Event
  saves : SwitcherServer → Event
  cleans : ℕ → ℕ → Event

unfoldable pub apply_event : (db : StatisticDb) → Event → db.Store → db.Store
apply_event db (loads now s) d = (load_server_statistics db now d s).0
apply_event db (saves s) d = (save_server_statistics db d s).0
apply_event db (cleans now retention_period) d =
    (cleanup_old_statistics db now retention_period d).0

-- The events one after the other.
unfoldable pub run_events : (db : StatisticDb) → List Event → db.Store → db.Store
run_events db [] d = d
run_events db (e ∷ es) d = run_events db es (apply_event db e d)

pub max_u64_left : (a b : ℕ) → a ≤ max_u64 a b
unfolding max_u64
max_u64_left a b = ground arith

pub max_u64_right : (a b : ℕ) → b ≤ max_u64 a b
unfolding max_u64
max_u64_right a b = ground arith

Rises-refl : (db : StatisticDb) (d : db.Store) → Rises db d d
Rises-refl db d id r s here = ((r, s), here, omega arith, omega arith)

Rises-trans : (db : StatisticDb) (d e f : db.Store) → Rises db d e → Rises db e f → Rises db d f
Rises-trans db d e f first then_ id r s here =
    let a = first id r s here in
    let b = then_ id a.0.0 a.0.1 a.1 in (b.0, b.1, omega (arith, a.2, b.2), omega (arith, a.3, b.3))

-- Where every row stays.
Rises-same :
    (db : StatisticDb) (d e : db.Store) → ((id : ℕ) → db.row e id ≡ db.row d id) → Rises db d e
Rises-same db d e same id r s here = ((r, s), same id ∙ here, omega arith, omega arith)

update_totals-Rises :
    (db : StatisticDb) (doc : Documented db) (d : db.Store) (id received sent : ℕ)
    → Rises db d (db.update_totals d id received sent).0
update_totals-Rises db doc d id received sent =
    elim (Bool-cases (db.update_totals d id received sent).1) [
      | inr refused ↦
          Rises-same db d (db.update_totals d id received sent).0
            (λ other. doc.update_refused d id received sent other refused)
      | inl carried ↦ λ other r t here. elim (Bool-cases (other == id)) [
        | inl same ↦
            let at_id : other ≡ id = (==_iff other id).0 same in
            (
              (max_u64 r received, max_u64 t sent),
              subst
                  (λ k.
                    db.row (db.update_totals d id received sent).0 k
                    ≡ some (max_u64 r received, max_u64 t sent))
                  (sym at_id)
                  (doc.update_greatest d id received sent r t
                    (subst (λ k. db.row d k ≡ some (r, t)) at_id here) carried),
              max_u64_left r received,
              max_u64_left t sent,
            )
        | inr apart ↦ (
          (r, t),
          doc.update_other d id received sent other (λ e. ground (arith, apart, e)) ∙ here,
          omega arith,
          omega arith,
        )
      ]
    ]

-- Where both branches of a test do.
Rises-if :
    (db : StatisticDb) (d : db.Store) (b : Bool) (e f : db.Store)
    → Rises db d e
    → Rises db d f
    → Rises db d (if b then e else f)
Rises-if db d true e f left right = left
Rises-if db d false e f left right = right

load_server_statistics-Rises :
    (db : StatisticDb) (doc : Documented db) (now : ℕ) (d : db.Store) (s : SwitcherServer)
    → Rises db d (load_server_statistics db now d s).0
unfolding load_server_statistics persist_server_totals
load_server_statistics-Rises db doc now d s =
    let found : SwitcherServer = record s {
      statistics =
          loaded now (fetch_persisted_server_totals db d s.id)
            (fetch_peak_statistic_totals db d s.id);
    } in
    Rises-if db d (ltb 0 found.statistics.bytes_received || ltb 0 found.statistics.bytes_sent)
      (persist_server_totals db d found).0 d
      (update_totals-Rises db doc d found.id found.statistics.bytes_received
        found.statistics.bytes_sent)
      (Rises-refl db d)

Rises-if_saved :
    (db : StatisticDb) (d : db.Store) (b : Bool) (e f : db.Store × SwitcherServer × Bool)
    → Rises db d e.0
    → Rises db d f.0
    → Rises db d (if b then e else f).0
Rises-if_saved db d true e f left right = left
Rises-if_saved db d false e f left right = right

store_statistics-Rises :
    (db : StatisticDb) (doc : Documented db) (d : db.Store) (s : SwitcherServer)
    → Rises db d (store_statistics db d s).0
unfolding store_statistics persist_server_totals
store_statistics-Rises db doc d s =
    let received = s.statistics.bytes_received in
    let sent = s.statistics.bytes_sent in
    let count = s.statistics.connections_count in
    let updated = (persist_server_totals db d s).0 in
    Rises-trans db d updated (db.insert_statistic updated s.id received sent count).0
      (update_totals-Rises db doc d s.id received sent)
      (Rises-same db updated (db.insert_statistic updated s.id received sent count).0
        (λ other. doc.insert_row updated s.id received sent count other))

save_server_statistics-Rises :
    (db : StatisticDb) (doc : Documented db) (d : db.Store) (s : SwitcherServer)
    → Rises db d (save_server_statistics db d s).0
unfolding save_server_statistics
save_server_statistics-Rises db doc d s =
    let stored = store_statistics db d (raised db d s) in
    Rises-if_saved db d s.server.is_dynamic_port (d, s, true)
      (if is_empty s.statistics then (d, s, true) else stored) (Rises-refl db d)
      (Rises-if_saved db d (is_empty s.statistics) (d, s, true) stored (Rises-refl db d)
        (store_statistics-Rises db doc d (raised db d s)))

cleanup_old_statistics-Rises :
    (db : StatisticDb) (doc : Documented db) (now retention_period : ℕ) (d : db.Store)
    → Rises db d (cleanup_old_statistics db now retention_period d).0
unfolding cleanup_old_statistics
cleanup_old_statistics-Rises db doc now retention_period d =
    Rises-trans db d (db.sync_totals d).0
      (db.delete_before (db.sync_totals d).0 (now - retention_period)).0 (doc.sync_rises d)
      (Rises-same db (db.sync_totals d).0
        (db.delete_before (db.sync_totals d).0 (now - retention_period)).0
        (λ other. doc.delete_row (db.sync_totals d).0 (now - retention_period) other))

apply_event-Rises :
    (db : StatisticDb) (doc : Documented db) (e : Event) (d : db.Store)
    → Rises db d (apply_event db e d)
unfolding apply_event
apply_event-Rises db doc (loads now s) d = load_server_statistics-Rises db doc now d s
apply_event-Rises db doc (saves s) d = save_server_statistics-Rises db doc d s
apply_event-Rises db doc (cleans now retention_period) d =
    cleanup_old_statistics-Rises db doc now retention_period d

-- Whatever calls are made, for whatever servers and with whatever answers, the totals in the row of a
-- server are never lost and never become smaller.
pub run_events-Rises :
    (db : StatisticDb) (doc : Documented db) (es : List Event) (d : db.Store)
    → Rises db d (run_events db es d)
unfolding run_events
run_events-Rises db doc [] d = Rises-refl db d
run_events-Rises db doc (e ∷ es) d =
    Rises-trans db d (apply_event db e d) (run_events db es (apply_event db e d))
      (apply_event-Rises db doc e d) (run_events-Rises db doc es (apply_event db e d))
