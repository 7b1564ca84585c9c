-- ===== src/Devices/Messages.antt =====
-- `process_json_message` of server/proxy/server/device_manager.c. jansson's parser is an argument.
use net_port.Base.{
  Bool, true, false, not, [], Option, none, some, Str, codes, str_eq, if◌then◌else◌,
}
use net_port.Base.Outcome.{Outcome, done, ◌>>=◌}
use net_port.Security.Json.{validate_json_input}
use net_port.Devices.Control.{
  Answers, Reply, unauthorized, missing_device, reload_failed, disconnected, reloaded, limits_reset,
  failed, Action, disconnect, reload_tls, reset_rate_limits, control_request,
}
use net_port.Devices.Json.{Json, string_at}
use net_port.Devices.Response
use net_port.Devices.Response.{
  invalid_payload, invalid_json, missing_action, unknown_action, Response, error, disconnecting,
}
use net_port.Devices.Register.{World, Manager, process_registration_request}
use net_port.Devices.Heartbeats.{process_heartbeat_request, process_statistics_request}

-- The answer that is sent, and whether the code is 0.
abbrev pub Answered : Type 0
Answered = Manager × Response × Bool

-- The name in the request, where the administrator's action got as far as reading it.
abbrev pub name_of : Option Str → Str
name_of none = []
name_of (some device_id) = device_id

-- The object that `process_json_message` sends for each outcome of an administrator's action.
unfoldable pub response_of : Option Str → Reply → Response × Bool
response_of device_id unauthorized = (error Response.unauthorized, true)
response_of device_id missing_device = (error Response.missing_device, true)
response_of device_id reload_failed = (error Response.reload_failed, true)
response_of device_id disconnected = (disconnecting (name_of device_id), true)
response_of device_id reloaded = (Response.reloaded (name_of device_id), true)
response_of device_id limits_reset = (Response.limits_reset, true)
response_of device_id failed = (disconnecting (name_of device_id), false)

unfoldable pub administer : Answers → Action → Json → Option Str → Manager → Answered
administer ans action request client_ip m =
    let device_id = string_at (codes "device_id") request in
    let (control', reply) = control_request ans client_ip action device_id m.control in
    let (response, ok) = response_of device_id reply in
    (record m { control = control' }, response, ok)

abbrev answered : Outcome (Manager × Response) → Outcome Answered
answered run = run >>= λ mr. done (mr.0, mr.1, true)

-- The branches on `action`.
unfoldable pub dispatch : World → Answers → Str → Json → Option Str → Manager → Outcome Answered
dispatch w ans action request client_ip m =
    if str_eq action (codes "register")
    then answered (process_registration_request w request client_ip m)
    else if str_eq action (codes "heartbeat")
    then answered (process_heartbeat_request w request client_ip m)
    else if str_eq action (codes "statistics")
    then answered (done (process_statistics_request w request m))
    else if str_eq action (codes "disconnect")
    then done (administer ans disconnect request client_ip m)
    else if str_eq action (codes "reload_tls")
    then done (administer ans reload_tls request client_ip m)
    else if str_eq action (codes "reset_rate_limits")
    then done (administer ans reset_rate_limits request client_ip m)
    else done (m, error unknown_action, true)

-- `process_json_message`; `json_loads` gives the value, or `none`.
unfoldable pub process_json_message :
    World → Answers → (Str → Option Json) → Str → Option Str → Manager → Outcome Answered
process_json_message w ans json_loads json_str client_ip m =
    if not (validate_json_input (some json_str) 4096)
    then done (m, error invalid_payload, false)
    else elim (json_loads json_str) [
      | none ↦ done (m, error invalid_json, false)
      | some request ↦ elim (string_at (codes "action") request) [
        | none ↦ done (m, error missing_action, false)
        | some action ↦ dispatch w ans action request client_ip m
      ]
    ]
