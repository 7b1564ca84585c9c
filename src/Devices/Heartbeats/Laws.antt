-- ===== src/Devices/Heartbeats/Laws.antt =====
-- What a heartbeat does to the server of server/proxy/server/device_manager.c.
use net_port.Base.{ℕ, ◌≡◌, sym, inl, inr, some, Str, ltb, arith, Bool-cases, Option-cases}
use mathlib.Core.Path.{subst}
use net_port.Devices.Pending.{consume_tls_reload_pending}
use net_port.Devices.Pending.Laws.{IsValid}
use net_port.Devices.Pending.Set.{Left, consume_tls_reload_pending-Left}
use net_port.Devices.Json.{Json}
use net_port.Devices.Sql.{Log}
use net_port.Devices.Traffic.{read_traffic, store_traffic}
use net_port.Devices.Session.{Session, get_session_by_token, update_device_heartbeat}
use net_port.Devices.Response.{TlsSettings, alive}
use net_port.Devices.Register.{World, Manager}
use net_port.Devices.Heartbeats.{
  ensure_served, serve_session, report_tls, answer_heartbeat, keep_alive, admit_heartbeat,
}

-- The database's answer to a look at the session of a token is `session`. What the heartbeat's answer
-- says about a reload is what the queue said about the device of this session; the queue has lost this
-- device and no other.
pub record Told (w : World) (session_token : Str) (look : Log) (m t : Manager) (tls : TlsSettings)
    : Type 0 where
  pub session : Session
  pub found : (get_session_by_token w.db session_token look).1 ≡ some session
  pub left : Left session.device_id m.control.pending t.control.pending tls.reload_tls

-- The statements before the second look at the session in `process_heartbeat_request`.
abbrev pub second_look : World → Json → Str → Manager → Log
second_look w request session_token m =
    store_traffic w.db session_token (read_traffic request)
      (serve_session w session_token (record m {
        log = (update_device_heartbeat w.db w.session_timeout session_token m.log).0;
      })).log

serve_session-pending :
    (w : World) (session_token : Str) (m : Manager)
    → (serve_session w session_token m).control.pending ≡ m.control.pending
unfolding serve_session ensure_served
serve_session-pending w session_token m =
    elim (Option-cases (get_session_by_token w.db session_token m.log).1) [
      | inl missing ↦ ground (arith, missing)
      | inr (s, found) ↦ elim (Bool-cases (ltb 0 s.assigned_port)) [
        | inl assigned ↦ ground (arith, found, assigned)
        | inr unassigned ↦ ground (arith, found, unassigned)
      ]
    ]

answer_heartbeat-Told :
    (w : World) (session_token : Str) (m t : Manager) (tls : TlsSettings) (time : ℕ)
    → IsValid m.control.pending
    → answer_heartbeat w session_token m ≡ (t, alive (some tls) time)
    → Told w session_token m.log m t tls
unfolding answer_heartbeat report_tls
answer_heartbeat-Told w session_token m t tls time valid e =
    elim (Option-cases (get_session_by_token w.db session_token m.log).1) [
      | inl missing ↦ absurd (ground (arith, missing, e))
      | inr (s, found) ↦
          let run = consume_tls_reload_pending s.device_id m.control.pending in
          let same : run.0 ≡ t.control.pending = ground (arith, found, e) in
          let told : run.1 ≡ tls.reload_tls = ground (arith, found, e) in
          record {
            session = s;
            found = found;
            left =
                rw (sym same, sym told)
                  (consume_tls_reload_pending-Left s.device_id m.control.pending valid);
          }
    ]

keep_alive-Told :
    (w : World) (request : Json) (session_token : Str) (m t : Manager) (tls : TlsSettings)
    (time : ℕ)
    → IsValid m.control.pending
    → keep_alive w request session_token m ≡ (t, alive (some tls) time)
    → Told w session_token
        (store_traffic w.db session_token
          (read_traffic request)
          (serve_session w session_token m).log)
        m
        t
        tls
unfolding keep_alive
keep_alive-Told w request session_token m t tls time valid e =
    let same = serve_session-pending w session_token m in
    let f = answer_heartbeat-Told w session_token _ t tls time (subst IsValid (sym same) valid) e in
    record {
      session = f.session;
      found = f.found;
      left = subst (λ ps. Left f.session.device_id ps t.control.pending tls.reload_tls) same f.left;
    }

-- Where a heartbeat is answered with TLS settings, the answer asks for a reload exactly if the device
-- of the session waited for one, and that device, and only that one, waits no longer: it is told once.
-- The session is the one that the database names for the token at its second look. The queue is valid.
pub admit_heartbeat-Told :
    (w : World) (request : Json) (session_token : Str) (m t : Manager) (tls : TlsSettings)
    (time : ℕ)
    → IsValid m.control.pending
    → admit_heartbeat w request session_token m ≡ (t, alive (some tls) time)
    → Told w session_token (second_look w request session_token m) m t tls
unfolding admit_heartbeat
admit_heartbeat-Told w request session_token m t tls time valid e =
    let touched = update_device_heartbeat w.db w.session_timeout session_token m.log in
    elim (Bool-cases touched.1) [
      | inr ended ↦ absurd (ground (arith, ended, e))
      | inl going ↦
          let f =
            keep_alive-Told w request session_token (record m { log = touched.0 }) t tls time valid
              (ground (arith, going, e)) in
          record { session = f.session; found = f.found; left = f.left }
    ]
