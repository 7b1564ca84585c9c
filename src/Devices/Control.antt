-- ===== src/Devices/Control.antt =====
-- The administrator's requests in `process_json_message` of server/proxy/server/device_manager.c, and
-- what they do. The database's answers are arguments.
use net_port.Base.{
  ℕ, ◌+◌, ◌-◌, ◌%◌, Bool, true, false, not, ◌&&◌, ◌||◌, List, [], ◌∷◌, ◌++◌, Option, none, some,
  Str, codes, str_eq, ltb, ◌==◌, if◌then◌else◌,
}
use net_port.Security.State.{Security, security_reset_rate_limits}
use net_port.Proxy.Dynamic.State.{Registry, named}
use net_port.Proxy.Dynamic.Stop.{Ends, stop_dynamic_runtimes_for_device}
use net_port.Proxy.Dynamic.Open.{Env}
use net_port.Proxy.Dynamic.Start.{Request, u16, ensure_dynamic_server_for_device}
use net_port.Devices.Pending.{set_tls_reload_pending}
pub mod Local
pub mod Reload
pub mod Terminate

-- `is_local_control_request`.
unfoldable pub is_local_control_request : Option Str → Bool
is_local_control_request none = false
is_local_control_request (some ip) =
    str_eq ip (codes "127.0.0.1") || str_eq ip (codes "::1") || str_eq ip (codes "0.0.0.0")

-- The parts of the server that a request may change.
pub record Control : Type 0 where
  pub registry : Registry
  pub pending : List Str
  pub security : Security

-- What the database and the connection answer: the assigned ports of the device's active sessions,
-- whether the updates after that succeed, the port of its latest session (0 for none), the TLS flags
-- of the device, and whether the acknowledgement could be sent. `none` is a failed query.
pub record Answers : Type 0 where
  pub env : Env
  pub sessions : Option (List ℕ)
  pub updates_ok : Bool
  pub latest_port : Option ℕ
  pub device : Option (Bool × Bool)
  pub send_ok : Bool

-- `ports_to_stop`, with room for `room` more ports.
unfoldable pub ports_to_stop : ℕ → List ℕ → List ℕ
ports_to_stop room [] = []
ports_to_stop room (port ∷ ports) =
    let kept = ports_to_stop (room - 1) ports in
    let skipped = ports_to_stop room ports in
    if ltb 0 port && ltb 0 room then port ∷ kept else skipped

-- The tunnel port of a pair.
abbrev pub tunnel_of : ℕ → ℕ
tunnel_of port = (port + 1) % u16

unfoldable pub stop_ports : Ends → Str → List ℕ → Registry → Registry
stop_ports ends device_id [] r = r
stop_ports ends device_id (port ∷ ports) r =
    stop_ports ends device_id ports
      (stop_dynamic_runtimes_for_device ends device_id port (tunnel_of port) r)

-- `terminate_device_by_device_id`: whether the code is 0. `MAX_PORTS_TO_STOP` is 8.
unfoldable pub terminate_device_by_device_id : Answers → Str → Registry → Registry × Bool
terminate_device_by_device_id ans device_id r = elim ans.sessions [
  | none ↦ (r, false)
  | some [] ↦ (stop_dynamic_runtimes_for_device ans.env.ends device_id 0 0 r, ans.updates_ok)
  | some (port ∷ ports) ↦
      (stop_ports ans.env.ends device_id (ports_to_stop 8 (port ∷ ports)) r, ans.updates_ok)
]

-- The restart in `reload_dynamic_server_tls_for_device`.
unfoldable pub restart_with : Answers → Str → ℕ → Bool × Bool → Control → Control × Bool
restart_with ans device_id port (input_ssl, tunnel_ssl) st =
    let stopped =
      stop_dynamic_runtimes_for_device ans.env.ends device_id port (tunnel_of port) st.registry in
    let q : Request = record {
      device_id = device_id;
      input_port = port;
      tunnel_port = tunnel_of port;
      input_ssl = input_ssl;
      tunnel_ssl = tunnel_ssl;
    } in
    let (r, answer) = ensure_dynamic_server_for_device ans.env q stopped in
    elim answer [
      | none ↦ (record st { registry = r }, false)
      | some i ↦
          (record st { registry = r; pending = set_tls_reload_pending device_id st.pending }, true)
    ]

-- `reload_dynamic_server_tls_for_device`: whether the code is 0.
unfoldable pub reload_dynamic_server_tls_for_device : Answers → Str → Control → Control × Bool
reload_dynamic_server_tls_for_device ans device_id st =
    if named device_id
    then elim ans.latest_port [
      | none ↦ (st, false)
      | some port ↦
          if ltb 0 port
          then elim ans.device [
            | none ↦ (st, false)
            | some flags ↦ restart_with ans device_id port flags st
          ]
          else (st, true)
    ]
    else (st, false)

pub data Reply : Type 0 where
  unauthorized missing_device reload_failed : Reply
  disconnected reloaded limits_reset : Reply
  -- the connection is closed with -1
  failed : Reply

pub data Action : Type 0 where
  disconnect reload_tls reset_rate_limits : Action

-- The action of a request whose caller is local.
unfoldable pub run_action : Answers → Action → Option Str → Control → Control × Reply
run_action ans reset_rate_limits device_id st =
    (record st { security = security_reset_rate_limits st.security }, limits_reset)
run_action ans disconnect none st = (st, missing_device)
run_action ans disconnect (some device_id) st =
    let (r, ok) = terminate_device_by_device_id ans device_id st.registry in
    if ans.send_ok
    then (record st { registry = r }, (if ok then disconnected else failed))
    else (st, failed)
run_action ans reload_tls none st = (st, missing_device)
run_action ans reload_tls (some device_id) st =
    let (st', ok) = reload_dynamic_server_tls_for_device ans device_id st in
    (st', (if ok then reloaded else reload_failed))

-- The three branches of `process_json_message` for the administrator, each with its own test of the
-- caller.
unfoldable pub control_request :
    Answers → Option Str → Action → Option Str → Control → Control × Reply
control_request ans client_ip disconnect device_id st =
    let done = run_action ans disconnect device_id st in
    if not (is_local_control_request client_ip) then (st, unauthorized) else done
control_request ans client_ip reload_tls device_id st =
    let done = run_action ans reload_tls device_id st in
    if not (is_local_control_request client_ip) then (st, unauthorized) else done
control_request ans client_ip reset_rate_limits device_id st =
    let done = run_action ans reset_rate_limits device_id st in
    if not (is_local_control_request client_ip) then (st, unauthorized) else done
