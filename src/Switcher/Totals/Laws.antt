-- ===== src/Switcher/Totals/Laws.antt =====
-- The totals of server/db/db_func.c survive a restart.
use net_port.Base.{
  if-false, ℕ, ◌≤◌, ◌≡◌, sym, ap, ◌∙◌, inl, inr, true, false, List, some, Str, atoi, print_decimal,
  atoi-print_decimal, if◌then◌else◌, arith,
}
use mathlib.Core.Path.{subst}
use net_port.Switcher.Totals.Rises.{
  Event, run_events, run_events-Rises, max_u64_left, max_u64_right,
}
use net_port.Switcher.{SwitcherServer, StatisticDb, Documented, max_u64, u64}
use net_port.Switcher.Totals.{
  read_pair, or_zero, raise_to, loaded, persist_server_totals, load_server_statistics,
  save_server_statistics, raised, store_statistics, is_empty, fetch_persisted_server_totals,
  fetch_peak_statistic_totals,
}

-- What `store_statistics` leaves in the row of the server, where the update was carried out.
store_statistics-row :
    (db : StatisticDb) (doc : Documented db) (d : db.Store) (s : SwitcherServer) (received sent : ℕ)
    → db.row d s.id ≡ some (received, sent)
    → (persist_server_totals db d s).1 ≡ true
    → db.row (store_statistics db d s).0 s.id
      ≡ some (max_u64 received s.statistics.bytes_received, max_u64 sent s.statistics.bytes_sent)
unfolding store_statistics persist_server_totals
store_statistics-row db doc d s received sent here carried =
    doc.insert_row (persist_server_totals db d s).0 s.id s.statistics.bytes_received
      s.statistics.bytes_sent s.statistics.connections_count s.id
    ∙ doc.update_greatest d s.id s.statistics.bytes_received s.statistics.bytes_sent received sent
        here carried

-- Where the query answers, it shows the row.
fetch_persisted_server_totals-row :
    (db : StatisticDb) (doc : Documented db) (d : db.Store) (id received sent : ℕ)
    (answer : Str × Str)
    → db.row d id ≡ some (received, sent)
    → db.select_totals d id ≡ some answer
    → fetch_persisted_server_totals db d id ≡ some (received, sent)
unfolding fetch_persisted_server_totals read_pair
fetch_persisted_server_totals-row db doc d id received sent answer here answers =
    let small = doc.row_small d id received sent here in
    elim (doc.select_shows d id received sent here) [
      | inl silent ↦ ground (arith, silent, answers)
      | inr shown ↦
          let r : atoi u64 (print_decimal received) ≡ received =
            atoi-print_decimal u64 received small.0 ∙ omega (arith, small) in
          let t : atoi u64 (print_decimal sent) ≡ sent =
            atoi-print_decimal u64 sent small.1 ∙ omega (arith, small) in
          rw shown (λ i. some (r i, t i))
    ]

load_server_statistics-row :
    (db : StatisticDb) (doc : Documented db) (now : ℕ) (d : db.Store) (s : SwitcherServer)
    (received sent : ℕ)
    → fetch_persisted_server_totals db d s.id ≡ some (received, sent)
    → (received ≤ (load_server_statistics db now d s).1.statistics.bytes_received)
      × (sent ≤ (load_server_statistics db now d s).1.statistics.bytes_sent)
unfolding load_server_statistics loaded or_zero
load_server_statistics-row db doc now d s received sent fetched = rw fetched (
  max_u64_left received (or_zero (fetch_peak_statistic_totals db d s.id)).0,
  max_u64_left sent (or_zero (fetch_peak_statistic_totals db d s.id)).1,
)

raised-grows :
    (db : StatisticDb) (d : db.Store) (s : SwitcherServer)
    → (s.statistics.bytes_received ≤ (raised db d s).statistics.bytes_received)
      × (s.statistics.bytes_sent ≤ (raised db d s).statistics.bytes_sent)
unfolding raised raise_to
raised-grows db d s =
    (max_u64_left s.statistics.bytes_received _, max_u64_left s.statistics.bytes_sent _)

save_server_statistics-stores :
    (db : StatisticDb) (d : db.Store) (s : SwitcherServer)
    → s.server.is_dynamic_port ≡ false
    → is_empty s.statistics ≡ false
    → save_server_statistics db d s ≡ store_statistics db d (raised db d s)
unfolding save_server_statistics
save_server_statistics-stores db d s static used =
    let stored = store_statistics db d (raised db d s) in
    if-false s.server.is_dynamic_port (d, s, true)
      (if is_empty s.statistics then (d, s, true) else stored) static
    ∙ if-false (is_empty s.statistics) (d, s, true) stored used

save_server_statistics-row :
    (db : StatisticDb) (doc : Documented db) (d : db.Store) (s : SwitcherServer) (received sent : ℕ)
    → db.row d s.id ≡ some (received, sent)
    → s.server.is_dynamic_port ≡ false
    → is_empty s.statistics ≡ false
    → (persist_server_totals db d (raised db d s)).1 ≡ true
    → db.row (save_server_statistics db d s).0 s.id
      ≡ some (
        max_u64 received (raised db d s).statistics.bytes_received,
        max_u64 sent (raised db d s).statistics.bytes_sent,
      )
unfolding raised raise_to
save_server_statistics-row db doc d s received sent here static used carried =
    ap (λ x. db.row x.0 s.id) (save_server_statistics-stores db d s static used)
    ∙ store_statistics-row db doc d (raised db d s) received sent here carried

-- Let the row of a server exist, and let `save_server_statistics` store the statistics of the server,
-- which is not one of a device and not empty, with an UPDATE that is carried out. After any calls for
-- any servers, `load_server_statistics` for this id, as a restart makes it, finds at least the bytes
-- that were saved, both ways, if its query of the totals answers.
pub saved_totals_survive :
    (db : StatisticDb) (doc : Documented db) (d : db.Store) (s : SwitcherServer)
    (received sent now : ℕ) (es : List Event) (new : SwitcherServer) (answer : Str × Str)
    → db.row d s.id ≡ some (received, sent)
    → s.server.is_dynamic_port ≡ false
    → is_empty s.statistics ≡ false
    → (persist_server_totals db d (raised db d s)).1 ≡ true
    → new.id ≡ s.id
    → db.select_totals (run_events db es (save_server_statistics db d s).0) new.id ≡ some answer
    → (s.statistics.bytes_received
        ≤ (load_server_statistics db now
            (run_events db es (save_server_statistics db d s).0)
            new).1.statistics.bytes_received)
      × (s.statistics.bytes_sent
          ≤ (load_server_statistics db now
              (run_events db es (save_server_statistics db d s).0)
              new).1.statistics.bytes_sent)
saved_totals_survive db doc d s received sent now es new answer here static used carried same
      answers =
    let s1 = raised db d s in
    let grown = raised-grows db d s in
    let d1 = (save_server_statistics db d s).0 in
    let stored : db.row d1 new.id
        ≡ some
            (max_u64 received s1.statistics.bytes_received, max_u64 sent s1.statistics.bytes_sent) =
      subst
        (λ k.
          db.row d1 k
          ≡ some (
            max_u64 received s1.statistics.bytes_received,
            max_u64 sent s1.statistics.bytes_sent,
          ))
        (sym same) (save_server_statistics-row db doc d s received sent here static used carried) in
    let later = run_events-Rises db doc es d1 new.id _ _ stored in
    let shown : fetch_persisted_server_totals db (run_events db es d1) new.id
        ≡ some (later.0.0, later.0.1) =
      fetch_persisted_server_totals-row db doc (run_events db es d1) new.id later.0.0 later.0.1
        answer later.1 answers in
    let found =
      load_server_statistics-row db doc now (run_events db es d1) new later.0.0 later.0.1 shown in
    (
      omega (arith, grown, max_u64_right received s1.statistics.bytes_received, later.2, found),
      omega (arith, grown, max_u64_right sent s1.statistics.bytes_sent, later.3, found),
    )
