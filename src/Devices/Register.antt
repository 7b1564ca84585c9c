-- ===== src/Devices/Register.antt =====
-- The registration of a device in server/proxy/server/device_manager.c.
use net_port.Base.{
  ℕ, ◌+◌, ◌%◌, Bool, true, false, not, ◌&&◌, List, [], ◌∷◌, Option, none, some, Str, codes,
  if◌then◌else◌, atoi, print_decimal,
}
use net_port.Base.Outcome.{Outcome, done, fault, ◌>>=◌}
use net_port.Security.State.{Security}
use net_port.Security.Gate.{validate_device_token}
use net_port.Proxy.Dynamic.State.{Registry}
use net_port.Proxy.Dynamic.Open.{Env, certs_configured}
use net_port.Proxy.Dynamic.Start.{Request, u16, ensure_dynamic_server_for_device}
use net_port.Devices.Control.{Control}
use net_port.Devices.Json.{Json, string_at}
use net_port.Devices.Sql.{
  cleanup_device_sessions, insert_session, assign_port, Result, command_ok, tuples, Database, Log,
  run, ask, first_row, column,
}
use net_port.Devices.Session.{DeviceInfo, device_authenticate, terminate_device_session}
use net_port.Devices.Token.{generate_session_token}
use net_port.Devices.Response.{
  missing_credentials, rate_limited, not_authenticated, no_session, no_proxy, Registration,
  Response, error, authenticated,
}
pub mod Laws
pub mod Access

-- What the rest of the world answers during one request: the database, the libraries, the clock at
-- each of its readings, and the settings `session_timeout` and `heartbeat_interval` of `g_config`.
pub record World : Type 0 where
  pub db : Database
  pub sha256 : Str → Option Str
  pub rand_r : ℕ → ℕ × ℕ
  pub seed : ℕ
  pub env : Env
  pub realloc : ℕ → Bool
  pub now : ℕ
  pub later : ℕ
  pub token_time : ℕ
  pub answer_time : ℕ
  pub session_timeout : ℕ
  pub heartbeat_interval : ℕ

-- The parts of the server that a request may change, and the statements that the database got.
pub record Manager : Type 0 where
  pub control : Control
  pub log : Log

-- `char session_token[SESSION_TOKEN_MAX_LEN + 1]`.
abbrev pub token_size : ℕ
token_size = 257

-- The row of the two ports that the new session has.
unfoldable pub read_ports : List Str → ℕ × ℕ
read_ports row = (atoi u16 (column 0 row), atoi u16 (column 1 row))

-- The ports, where the update of the device is PGRES_COMMAND_OK.
unfoldable pub unless_failed : Result → ℕ × ℕ → Option (ℕ × ℕ)
unless_failed (command_ok n) ports = some ports
unless_failed _ ports = none

-- The statements of `register_device_session` on the open connection.
unfoldable pub store_session : World → Str → Str → Log → Log × Option (ℕ × ℕ)
store_session w device_id session_token log =
    let (log1, inserted) =
      run w.db
        (insert_session device_id session_token (codes "0.0.0.0") (print_decimal w.session_timeout))
        log in
    elim (first_row (some inserted)) [
      | none ↦ (log1, none)
      | some row ↦
          let ports = read_ports row in
          let (log2, updated) = run w.db (assign_port (print_decimal ports.0) device_id) log1 in
          (log2, unless_failed updated ports)
    ]

-- `register_device_session(device_id, NULL, ...)`: the token and the two ports, or `none` for -1.
unfoldable pub register_device_session : World → Str → Log → Log × Option (Str × ℕ × ℕ)
register_device_session w device_id log =
    elim (generate_session_token w.rand_r w.token_time w.seed token_size) [
      | none ↦ (log, none)
      | some session_token ↦
          let (log1, cleaned) = ask w.db (cleanup_device_sessions device_id) log in
          elim cleaned [
            | none ↦ (log1, none)
            | some ignored ↦
                let (log2, ports) = store_session w device_id session_token log1 in
                (log2, elim ports [ none ↦ none | some (i, t) ↦ some (session_token, i, t) ])
          ]
    ]

unfoldable pub request_of : Str → ℕ → ℕ → DeviceInfo → Request
request_of device_id input_port tunnel_port d = record {
  device_id = device_id;
  input_port = input_port;
  tunnel_port = tunnel_port;
  input_ssl = d.enable_input_ssl;
  tunnel_ssl = d.enable_tunnel_ssl;
}

unfoldable pub registration : World → DeviceInfo → Str × ℕ × ℕ → Registration
registration w d (session_token, input_port, tunnel_port) = record {
  assigned_port = input_port;
  tunnel_port = tunnel_port;
  input_tls = d.enable_input_ssl && certs_configured w.env;
  tunnel_tls = d.enable_tunnel_ssl && certs_configured w.env;
  session_token = session_token;
  heartbeat_interval = w.heartbeat_interval;
  server_time = w.answer_time;
  internal_address = d.internal_address;
  internal_port = d.internal_port;
}

abbrev pub with_registry : Manager → Log → Registry → Manager
with_registry m log r = record m { control = record m.control { registry = r }; log = log }

-- The last part of `process_registration_request`: the server of the device, or the end of the
-- session that was made for it.
unfoldable pub start_proxy : World → Str → DeviceInfo → Str × ℕ × ℕ → Manager → Manager × Response
start_proxy w device_id d (session_token, input_port, tunnel_port) m =
    let (r, index) =
      ensure_dynamic_server_for_device w.env (request_of device_id input_port tunnel_port d)
        m.control.registry in
    elim index [
      | some i ↦ (
        with_registry m m.log r,
        authenticated (registration w d (session_token, input_port, tunnel_port)),
      )
      | none ↦
          let (log, r', ended) = terminate_device_session w.db w.env.ends session_token m.log r in
          (with_registry m log r', error no_proxy)
    ]

-- `process_registration_request` once the gate has let the device in.
unfoldable pub admit_device : World → Str → Str → Manager → Manager × Response
admit_device w device_id auth_token m =
    let (log1, found) = device_authenticate w.db w.sha256 device_id auth_token m.log in
    elim found [
      | none ↦ (record m { log = log1 }, error not_authenticated)
      | some d ↦
          let (log2, session) = register_device_session w device_id log1 in
          elim session [
            | none ↦ (record m { log = log2 }, error no_session)
            | some s ↦ start_proxy w device_id d s (record m { log = log2 })
          ]
    ]

abbrev pub with_security : Manager → Security → Manager
with_security m s = record m { control = record m.control { security = s } }

abbrev pub gate_device : World → Str → Str → Option Str → Manager → Outcome (Security × Bool)
gate_device w device_id auth_token client_ip m =
    validate_device_token w.realloc w.now w.later (some device_id) (some auth_token) client_ip
      m.control.security

unfoldable pub gated_device : World → Str → Str → Manager → Bool → Manager × Response
gated_device w device_id auth_token m ok =
    if ok then admit_device w device_id auth_token m else (m, error rate_limited)

unfoldable pub register_with :
    World → Option Str → Option Str → Option Str → Manager → Outcome (Manager × Response)
register_with w client_ip (some device_id) (some auth_token) m = do
  (s, ok) ← gate_device w device_id auth_token client_ip m
  done (gated_device w device_id auth_token (with_security m s) ok)
register_with w client_ip _ _ m = done (m, error missing_credentials)

-- `process_registration_request`.
unfoldable pub process_registration_request :
    World → Json → Option Str → Manager → Outcome (Manager × Response)
process_registration_request w request client_ip m =
    register_with w client_ip (string_at (codes "device_id") request)
      (string_at (codes "auth_token") request) m
