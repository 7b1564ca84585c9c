-- ===== src/Client/Device.antt =====
-- The registration of the client in client/proxy/client/proxy_client_device_integration.c: what it
-- reads of the server's answers, and the settings of the tunnel that it makes of them.
use net_port.Base.{
  ℕ, ◌+◌, ◌-◌, ◌%◌, ◌^◌, Bool, true, false, not, ◌&&◌, ◌||◌, List, [], ◌∷◌, Option, none, some, Str,
  codes, str_eq, take, ltb, ◌==◌, if◌then◌else◌,
}
use net_port.Proxy.Dynamic.State.{named}
use net_port.Devices.Json.{Json, json_object_get, string_at, integer_at, json_is_true}
pub mod Laws

-- `device_registration_status_t`.
pub data DeviceStatus : Type 0 where
  disconnected registered connected reconnecting : DeviceStatus

-- `device_registration_state_t`, and what `g_heartbeat_config` copies of it.
pub record Device : Type 0 where
  pub server_host : Str
  pub assigned_port : ℕ
  pub tunnel_port : ℕ
  pub input_tls : Bool
  pub tunnel_tls : Bool
  pub internal_address : Str
  pub internal_port : ℕ
  pub status : DeviceStatus
  pub session_token : Str
  pub registered_at : ℕ
  pub heartbeat_interval : ℕ
  pub config_token : Str
  pub config_port : ℕ
  pub config_interval : ℕ

-- What the command line says: `g_cli_output_host`, `g_cli_output_port`, `g_port_host_base`,
-- `g_port_range_start`, `g_tunnel_port_override` and `g_registration_ca_file`.
pub record Options : Type 0 where
  pub cli_output_host : Bool
  pub cli_output_port : Bool
  pub port_host_base : ℕ
  pub port_range_start : ℕ
  pub tunnel_port_override : ℕ
  pub ca_file : Str

-- The fields of `proxy_server_thread_data_t` that a registration sets.
pub record Settings : Type 0 where
  pub input_address : Str
  pub input_port : ℕ
  pub output_address : Str
  pub output_port : ℕ
  pub enable_ssl : Bool
  pub ca_file : Str

abbrev pub u16 : ℕ
u16 = 2 ^ 16

-- `char internal_address[32]`, `input_address` and `output_address`; `char ca_file[256]`;
-- `SESSION_TOKEN_MAX_LEN`.
abbrev pub address_max : ℕ
address_max = 31

abbrev pub ca_max : ℕ
ca_max = 255

abbrev pub token_max : ℕ
token_max = 256

abbrev pub text_or_empty : Option Str → Str
text_or_empty none = []
text_or_empty (some s) = s

abbrev pub cut_port : ℕ → Option ℕ → ℕ
cut_port other none = other
cut_port other (some n) = n % u16

abbrev pub cut_interval : ℕ → Option ℕ → ℕ
cut_interval other none = other
cut_interval other (some n) = n % 2 ^ 32

-- The branch of an `authenticated` answer with a port and a token. An integer is cut to its field.
unfoldable pub read_fields : ℕ → Json → ℕ → Str → Device → Device
read_fields now response port token d =
    let assigned = port % u16 in
    let interval =
      cut_interval d.heartbeat_interval (integer_at (codes "heartbeat_interval") response) in
    let session_token = take token_max token in
    record d {
      assigned_port = assigned;
      tunnel_port = cut_port ((assigned + 1) % u16) (integer_at (codes "tunnel_port") response);
      session_token = session_token;
      heartbeat_interval = interval;
      internal_address =
          take address_max (text_or_empty (string_at (codes "internal_address") response));
      internal_port = cut_port 0 (integer_at (codes "internal_port") response);
      input_tls = json_is_true (json_object_get (codes "input_tls") response);
      tunnel_tls = json_is_true (json_object_get (codes "tunnel_tls") response);
      status = registered;
      registered_at = now;
      config_token = session_token;
      config_port = assigned;
      config_interval = interval;
    }

unfoldable pub read_authenticated : ℕ → Json → Device → Device × Bool
read_authenticated now response d = elim (integer_at (codes "assigned_port") response) [
  | none ↦ (d, false)
  | some port ↦ elim (string_at (codes "session_token") response) [
    | none ↦ (d, false)
    | some token ↦ (read_fields now response port token d, true)
  ]
]

-- What `device_register_with_server` does with an answer; whether the code is 0.
unfoldable pub read_registration : ℕ → Json → Device → Device × Bool
read_registration now response d = elim (string_at (codes "status") response) [
  | none ↦ (d, false)
  | some status ↦
      let read = read_authenticated now response d in
      if str_eq status (codes "authenticated") then read else (d, false)
]

-- `device_register_until_allowed`: what each attempt receives, `none` for no answer or one that is not
-- JSON, until the shutdown flag is set. The number of attempts, and whether the code is 0.
unfoldable pub device_register_until_allowed : ℕ → List (Option Json) → Device → Device × ℕ × Bool
device_register_until_allowed now [] d = (d, 0, false)
device_register_until_allowed now (none ∷ attempts) d =
    let (d', n, ok) = device_register_until_allowed now attempts d in (d', n + 1, ok)
device_register_until_allowed now (some response ∷ attempts) d =
    let (d1, allowed) = read_registration now response d in
    let (d2, n, ok) = device_register_until_allowed now attempts d1 in
    if allowed then (d1, 1, true) else (d2, n + 1, ok)

-- `apply_tunnel_tls_client_settings`.
unfoldable pub apply_tunnel_tls : Options → Device → Settings → Settings
apply_tunnel_tls o d s =
    if not d.tunnel_tls
    then record s { enable_ssl = false; ca_file = [] }
    else if not (named o.ca_file)
    then s
    else record s { enable_ssl = true; ca_file = take ca_max o.ca_file }

-- The port that the tunnel connects to. The difference of the ports may be negative; the sum is cut to
-- 16 bits.
unfoldable pub tunnel_connect_port : Options → Device → ℕ
tunnel_connect_port o d =
    if ltb 0 o.tunnel_port_override
    then o.tunnel_port_override
    else if ltb 0 o.port_host_base
    then (o.port_host_base + d.tunnel_port + u16 - o.port_range_start) % u16
    else d.tunnel_port

-- `apply_tunnel_settings`.
unfoldable pub apply_tunnel_settings : Options → Device → Settings → Settings
apply_tunnel_settings o d s = apply_tunnel_tls o d (record s {
  input_address = take address_max d.server_host;
  input_port = tunnel_connect_port o d;
})

-- `apply_output_target_from_registration`.
unfoldable pub apply_output_target : Options → Device → Settings → Settings
apply_output_target o d s =
    let address =
      if o.cli_output_host
      then s.output_address
      else if named d.internal_address
      then d.internal_address
      else if ltb 0 d.internal_port
      then codes "127.0.0.1"
      else s.output_address in
    let port =
      if not o.cli_output_port && ltb 0 d.internal_port then d.internal_port else s.output_port in
    record s { output_address = address; output_port = port }

-- `validate_output_target`: whether the code is 0.
unfoldable pub validate_output_target : Settings → Bool
validate_output_target s = ltb 0 s.output_port && named s.output_address

-- Whether `threads_data.ssl_ctx` is set, and whether `create_client_ssl_context` makes a context.
pub record SslContext : Type 0 where
  pub is_set : Bool
  pub can_be_made : Bool

-- `refresh_client_ssl_context`, on the settings; the whole is `ensure_client_ssl_context` in
-- Client/Tunnel.
unfoldable pub refresh_client_ssl_context : SslContext → Settings → Settings
refresh_client_ssl_context c s =
    if s.enable_ssl && not c.is_set && not (named s.ca_file && c.can_be_made)
    then record s { enable_ssl = false }
    else s

-- `device_apply_reregistration`: the new settings, and whether the code is 0. Where it is, the tunnel
-- threads are restarted.
unfoldable pub device_apply_reregistration :
    Options → SslContext → Device → Settings → Device × Settings × Bool
device_apply_reregistration o c d s =
    let s' = apply_output_target o d (apply_tunnel_settings o d s) in
    let copied : Device = record d {
      config_token = d.session_token;
      config_port = d.assigned_port;
    } in
    if validate_output_target s'
    then (record copied { status = connected }, refresh_client_ssl_context c s', true)
    else (copied, s', false)

-- `device_apply_tls_settings_update`: the state, the settings, and whether the connections are dropped
-- and the tunnel threads restarted.
unfoldable pub device_apply_tls_settings_update :
    Options → SslContext → Bool → Bool → Bool → Device → Settings → Device × Settings × Bool
device_apply_tls_settings_update o c input_tls tunnel_tls force_reload d s =
    let same =
      (if d.input_tls then input_tls else not input_tls)
      && (if d.tunnel_tls then tunnel_tls else not tunnel_tls) in
    let d' : Device = record d { input_tls = input_tls; tunnel_tls = tunnel_tls } in
    if same && not force_reload
    then (d, s, false)
    else (d', refresh_client_ssl_context c (apply_tunnel_settings o d' s), true)
