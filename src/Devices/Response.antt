-- ===== src/Devices/Response.antt =====
-- The answers of server/proxy/server/device_manager.c to a device, and the JSON objects they are.
use net_port.Base.{ℕ, Bool, true, Option, none, some, Str, codes, ◌==◌, if◌then◌else◌}
use net_port.Proxy.Dynamic.State.{named}
use net_port.Devices.Json.{Json, boolean, integer, string, object, Members, end_of, member}

-- The answers with the status `error`.
pub data Problem : Type 0 where
  invalid_payload invalid_json missing_action unknown_action : Problem
  missing_credentials rate_limited not_authenticated no_session no_proxy : Problem
  missing_token session_terminated invalid_token : Problem
  unauthorized missing_device reload_failed : Problem

-- The fields of an answer to a registration.
pub record Registration : Type 0 where
  pub assigned_port : ℕ
  pub tunnel_port : ℕ
  pub input_tls : Bool
  pub tunnel_tls : Bool
  pub session_token : Str
  pub heartbeat_interval : ℕ
  pub server_time : ℕ
  pub internal_address : Str
  pub internal_port : ℕ

-- The TLS flags in an answer to a heartbeat, and whether it asks for a reload.
pub record TlsSettings : Type 0 where
  pub input_tls : Bool
  pub tunnel_tls : Bool
  pub reload_tls : Bool

pub data Response : Type 0 where
  error : Problem → Response
  authenticated : Registration → Response
  -- the answer to a heartbeat, with the time
  alive : Option TlsSettings → ℕ → Response
  -- the answer to a statistics request, with the time
  accepted : ℕ → Response
  disconnecting : Str → Response
  reloaded : Str → Response
  limits_reset : Response

-- The `message` of an error.
unfoldable pub message : Problem → Str
message invalid_payload = codes "Invalid request payload"
message invalid_json = codes "Invalid JSON"
message missing_action = codes "Missing 'action' field"
message unknown_action = codes "Unknown action"
message missing_credentials = codes "Missing device_id or auth_token"
message rate_limited = codes "Rate limit exceeded"
message not_authenticated = codes "Authentication failed"
message no_session = codes "Failed to create session"
message no_proxy = codes "Failed to start device proxy"
message missing_token = codes "Missing session_token"
message session_terminated = codes "Session terminated"
message invalid_token = codes "Invalid session token"
message unauthorized = codes "Unauthorized control request"
message missing_device = codes "Missing device_id"
message reload_failed = codes "Failed to reload TLS settings"

abbrev text_member : Str → Str → Members → Members
text_member key value rest = member key (string value) rest

-- The fields that are set only under a condition.
unfoldable pub address_member : Str → Members → Members
address_member address rest =
    if named address then member (codes "internal_address") (string address) rest else rest

unfoldable pub port_member : ℕ → Members → Members
port_member port rest =
    if port == 0 then rest else member (codes "internal_port") (integer port) rest

unfoldable pub force_member : Problem → Members → Members
force_member session_terminated rest = member (codes "force_disconnect") (boolean true) rest
force_member _ rest = rest

unfoldable pub tls_members : Option TlsSettings → Members → Members
tls_members none rest = rest
tls_members (some t) rest = member (codes "input_tls") (boolean t.input_tls) (
    member (codes "tunnel_tls") (boolean t.tunnel_tls)
      (if t.reload_tls then member (codes "reload_tls") (boolean true) rest else rest))

abbrev ok_with : Str → Members → Members
ok_with note rest =
    text_member (codes "status") (codes "ok") (text_member (codes "message") note rest)

-- The objects that the handlers build, their fields in order.
unfoldable pub members : Response → Members
members (error p) =
    text_member (codes "status") (codes "error")
      (text_member (codes "message") (message p) (force_member p end_of))
members (authenticated a) = text_member (codes "status") (codes "authenticated") (
    member (codes "assigned_port") (integer a.assigned_port) (
      member (codes "tunnel_port") (integer a.tunnel_port) (
        member (codes "input_tls") (boolean a.input_tls) (
          member (codes "tunnel_tls") (boolean a.tunnel_tls) (
            text_member (codes "session_token") a.session_token (
              member (codes "heartbeat_interval") (integer a.heartbeat_interval) (
                member (codes "server_time") (integer a.server_time)
                  (address_member a.internal_address (port_member a.internal_port end_of)))))))))
members (alive tls time) =
    tls_members tls
      (text_member (codes "status") (codes "ok") (member (codes "timestamp") (integer time) end_of))
members (accepted time) =
    text_member (codes "status") (codes "ok") (member (codes "timestamp") (integer time) end_of)
members (disconnecting device_id) =
    ok_with (codes "Device disconnect initiated") (text_member (codes "device_id") device_id end_of)
members (reloaded device_id) =
    ok_with (codes "Dynamic server TLS reload initiated")
      (text_member (codes "device_id") device_id end_of)
members limits_reset = ok_with (codes "Rate limits reset") end_of

abbrev pub to_json : Response → Json
to_json r = object (members r)
