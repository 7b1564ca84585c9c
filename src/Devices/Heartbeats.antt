-- ===== src/Devices/Heartbeats.antt =====
-- The heartbeats and the statistics that devices send to server/proxy/server/device_manager.c.
use net_port.Base.{
  ℕ, ◌%◌, Bool, true, false, not, ◌&&◌, List, [], ◌∷◌, Option, none, some, Str, codes, ltb,
  if◌then◌else◌,
}
use net_port.Base.Outcome.{Outcome, done, fault, ◌>>=◌}
use net_port.Security.State.{Security}
use net_port.Security.Gate.{validate_session_token_security}
use net_port.Proxy.Dynamic.State.{Registry}
use net_port.Proxy.Dynamic.Open.{certs_configured}
use net_port.Proxy.Dynamic.Start.{ensure_dynamic_server_for_device}
use net_port.Devices.Pending.{consume_tls_reload_pending}
use net_port.Devices.Control.{Control, tunnel_of}
use net_port.Devices.Json.{Json, string_at, integer_at}
use net_port.Devices.Sql.{Database, Log}
use net_port.Devices.Session.{
  DeviceInfo, unknown_device, u32, Session, device_manager_load_device_by_id, get_session_by_token,
  update_device_heartbeat,
}
use net_port.Devices.Traffic.{
  Traffic, both_counts, set_bytes, set_connections, no_traffic, update_device_statistics,
  read_traffic, store_traffic,
}
use net_port.Devices.Response.{
  rate_limited, missing_token, session_terminated, invalid_token, TlsSettings, Response, error,
  alive, accepted,
}
use net_port.Devices.Register.{World, Manager, with_registry, with_security, request_of}
pub mod Laws

-- The device record, or one of zeros.
unfoldable pub device_or_unknown : Str → Option DeviceInfo → DeviceInfo
device_or_unknown device_id none = unknown_device device_id
device_or_unknown device_id (some d) = d

-- The server of the session's device; a failure is only logged.
unfoldable pub ensure_served : World → Session → Manager → Manager
ensure_served w s m =
    let (log, found) = device_manager_load_device_by_id w.db s.device_id m.log in
    let q =
      request_of s.device_id s.assigned_port (tunnel_of s.assigned_port)
        (device_or_unknown s.device_id found) in
    let (r, index) = ensure_dynamic_server_for_device w.env q m.control.registry in
    with_registry m log r

-- The first look at the session.
unfoldable pub serve_session : World → Str → Manager → Manager
serve_session w session_token m =
    let (log, found) = get_session_by_token w.db session_token m.log in
    elim found [
      | none ↦ record m { log = log }
      | some s ↦
          let served = ensure_served w s (record m { log = log }) in
          if ltb 0 s.assigned_port then served else record m { log = log }
    ]

-- The TLS settings that the answer reports for the session's device.
unfoldable pub report_tls : World → Session → Manager → Manager × TlsSettings
report_tls w s m =
    let (log, found) = device_manager_load_device_by_id w.db s.device_id m.log in
    let d = device_or_unknown s.device_id found in
    let (pending', told) = consume_tls_reload_pending s.device_id m.control.pending in
    (
      record m { control = record m.control { pending = pending' }; log = log },
      record {
        input_tls = d.enable_input_ssl && certs_configured w.env;
        tunnel_tls = d.enable_tunnel_ssl && certs_configured w.env;
        reload_tls = told;
      },
    )

-- The second look at the session.
unfoldable pub answer_heartbeat : World → Str → Manager → Manager × Response
answer_heartbeat w session_token m =
    let (log, found) = get_session_by_token w.db session_token m.log in
    elim found [
      | none ↦ (record m { log = log }, alive none w.answer_time)
      | some s ↦
          let (m', tls) = report_tls w s (record m { log = log }) in
          (m', alive (some tls) w.answer_time)
    ]

-- What the heartbeat of a session that still runs does.
unfoldable pub keep_alive : World → Json → Str → Manager → Manager × Response
keep_alive w request session_token m =
    let served = serve_session w session_token m in
    let stored : Manager = record served {
      log = store_traffic w.db session_token (read_traffic request) served.log;
    } in
    answer_heartbeat w session_token stored

-- `process_heartbeat_request` once the gate has let the session in.
unfoldable pub admit_heartbeat : World → Json → Str → Manager → Manager × Response
admit_heartbeat w request session_token m =
    let (log, ok) = update_device_heartbeat w.db w.session_timeout session_token m.log in
    let kept = keep_alive w request session_token (record m { log = log }) in
    if ok then kept else (record m { log = log }, error session_terminated)

abbrev pub gate_session : World → Str → Option Str → Manager → Outcome (Security × Bool)
gate_session w session_token client_ip m =
    validate_session_token_security w.realloc w.now (some session_token) client_ip
      m.control.security

unfoldable pub gated_heartbeat : World → Json → Str → Manager → Bool → Manager × Response
gated_heartbeat w request session_token m ok =
    if ok then admit_heartbeat w request session_token m else (m, error rate_limited)

-- `process_heartbeat_request`.
unfoldable pub process_heartbeat_request :
    World → Json → Option Str → Manager → Outcome (Manager × Response)
process_heartbeat_request w request client_ip m = elim (string_at (codes "session_token") request) [
  | none ↦ done (m, error missing_token)
  | some session_token ↦ do
    (s, ok) ← gate_session w session_token client_ip m
    done (gated_heartbeat w request session_token (with_security m s) ok)
]

-- The update in `process_statistics_request`.
unfoldable pub store_statistics : World → Json → Str → Log → Log
store_statistics w request session_token log = elim (both_counts request) [
  | none ↦ log
  | some counts ↦
      let t =
        set_connections (integer_at (codes "connections") request) (set_bytes counts no_traffic) in
      (update_device_statistics w.db session_token t log).0
]

-- `process_statistics_request`.
unfoldable pub process_statistics_request : World → Json → Manager → Manager × Response
process_statistics_request w request m = elim (string_at (codes "session_token") request) [
  | none ↦ (m, error missing_token)
  | some session_token ↦
      let (log, found) = get_session_by_token w.db session_token m.log in
      elim found [
        | none ↦ (record m { log = log }, error invalid_token)
        | some s ↦ (
          record m { log = store_statistics w request session_token log },
          accepted w.answer_time,
        )
      ]
]
