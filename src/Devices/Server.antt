-- ===== src/Devices/Server.antt =====
-- The control server of server/proxy/server/device_manager.c: set-up, start and stop, and what is done
-- with a connection to the control port.
use net_port.Base.{
  ℕ, zero, suc, ◌+◌, ◌-◌, Bool, true, false, not, ◌&&◌, ◌||◌, List, [], ◌∷◌, ◌++◌, Option, none,
  some, Str, take, length, ltb, ◌==◌, if◌then◌else◌,
}
use net_port.Base.Outcome.{Outcome, done, fault, ◌>>=◌}
use net_port.Security.State.{Security, security_features_init, security_features_cleanup}
use net_port.Proxy.Dynamic.State.{named}
use net_port.Proxy.Dynamic.Stop.{descriptor}
use net_port.Devices.Control.{Control, Answers}
use net_port.Devices.Json.{Json}
use net_port.Devices.Response.{Response}
use net_port.Devices.Register.{World, Manager}
use net_port.Devices.Messages.{process_json_message}
pub mod Laws
pub mod Restart

-- The fields of `g_config` that are used, the other globals, and what has been closed and freed.
pub record ControlServer : Type 0 where
  pub enable_ssl : Bool
  pub ssl_cert_file : Str
  pub ssl_key_file : Str
  pub initialized : Bool
  pub running : Bool
  pub control_socket : Option ℕ
  pub ssl_ctx : Option ℕ
  pub manager : Manager
  pub closed : List ℕ
  pub freed : List ℕ

-- What OpenSSL answers to `create_ssl_context`: there is no context; the certificate, the key or their
-- match is refused; or the context is made.
pub data Context : Type 0 where
  no_memory : Context
  refused made : ℕ → Context

unfoldable pub create_ssl_context : Context → ControlServer → ControlServer × Bool
create_ssl_context c s =
    if not s.enable_ssl
    then (s, true)
    else if not (named s.ssl_cert_file) || not (named s.ssl_key_file)
    then (s, false)
    else elim c [
      | no_memory ↦ (record s { ssl_ctx = none }, false)
      | refused ctx ↦ (record s { ssl_ctx = none; freed = s.freed ++ ctx ∷ [] }, false)
      | made ctx ↦ (record s { ssl_ctx = some ctx }, true)
    ]

unfoldable pub on_security : (Security → Security) → Manager → Manager
on_security f m = record m { control = record m.control { security = f m.control.security } }

-- `device_manager_init` with the settings of `config`: whether the code is 0.
unfoldable pub device_manager_init :
    Context → Bool → Bool × Str × Str → ControlServer → ControlServer × Bool
device_manager_init c calloc_ok config s =
    let configured : ControlServer = record s {
      enable_ssl = config.0;
      ssl_cert_file = config.1;
      ssl_key_file = config.2;
    } in
    let ready = create_ssl_context c configured in
    let set_up : Manager =
      on_security (λ x. (security_features_init calloc_ok x).0) ready.0.manager in
    if s.initialized
    then (s, true)
    else if ready.1
    then (record ready.0 { manager = set_up; initialized = true }, true)
    else (ready.0, false)

-- How `device_manager_start` opens the control port: no socket, a later call fails, or it listens.
pub data Port : Type 0 where
  no_socket : Port
  unusable listening : ℕ → Port

-- `device_manager_start`, less the statement that frees expired sessions.
unfoldable pub device_manager_start : Port → Bool → ControlServer → ControlServer × Bool
device_manager_start port thread_ok s =
    if not s.initialized then (s, false) else if s.running then (s, true) else elim port [
      | no_socket ↦ (record s { control_socket = none }, false)
      | unusable fd ↦ (record s { control_socket = some fd; closed = s.closed ++ fd ∷ [] }, false)
      | listening fd ↦
          if thread_ok
          then (record s { control_socket = some fd; running = true }, true)
          else (record s { control_socket = some fd; closed = s.closed ++ fd ∷ [] }, false)
    ]

-- `device_manager_stop`, with `cleanup_device_manager_ssl_context`.
unfoldable pub device_manager_stop : ControlServer → ControlServer
device_manager_stop s =
    if s.running
    then record s {
      running = false;
      closed = s.closed ++ descriptor s.control_socket;
      control_socket = none;
      freed = s.freed ++ descriptor s.ssl_ctx;
      ssl_ctx = none;
      manager = on_security security_features_cleanup s.manager;
    }
    else s

-- How the TLS part of a connection goes: `SSL_new` fails, or the handshake of the object does or does not.
pub data Tls : Type 0 where
  no_object : Tls
  rejected accepted : ℕ → Tls

-- A connection that `accept` returns: what is read from it, none for an error or its end, and what the
-- environment answers while it is served.
pub record Conn : Type 0 where
  pub fd : ℕ
  pub client_ip : Str
  pub tls : Tls
  pub read : Option Str
  pub world : World
  pub answers : Answers

-- The buffer has 4096 bytes; a C string ends at its first NUL.
abbrev pub request_max : ℕ
request_max = 4095

unfoldable pub until_nul : Str → Str
until_nul [] = []
until_nul (c ∷ cs) = let rest = until_nul cs in if c == 0 then [] else c ∷ rest

-- `control_conn_close`.
unfoldable pub control_conn_close : ℕ → Option ℕ → ControlServer → ControlServer
control_conn_close fd ssl s = record s {
  freed = s.freed ++ descriptor ssl;
  closed = s.closed ++ fd ∷ [];
}

-- The part of `handle_device_connection` behind the handshake, on what is read: the answer, if there is
-- one, and whether the code is 0.
unfoldable pub serve_request :
    (Str → Option Json)
    → Conn
    → Option ℕ
    → Option Str
    → ControlServer
    → Outcome (ControlServer × Option Response × Bool)
serve_request json_loads c ssl none s = done (control_conn_close c.fd ssl s, none, false)
serve_request json_loads c ssl (some bytes) s =
    process_json_message c.world c.answers json_loads (until_nul (take request_max bytes))
      (some c.client_ip) s.manager
    >>= λ r. done (control_conn_close c.fd ssl (record s { manager = r.0 }), some r.1, r.2)

-- The handshake: `enable_ssl`, `g_ssl_ctx`, and how it goes.
unfoldable pub shake :
    (Str → Option Json)
    → Bool
    → Option ℕ
    → Tls
    → Conn
    → ControlServer
    → Outcome (ControlServer × Option Response × Bool)
shake json_loads false ctx tls c s = serve_request json_loads c none c.read s
shake json_loads true none tls c s = done (control_conn_close c.fd none s, none, false)
shake json_loads true (some ctx) no_object c s = done (control_conn_close c.fd none s, none, false)
shake json_loads true (some ctx) (rejected ssl) c s =
    done (control_conn_close c.fd (some ssl) s, none, false)
shake json_loads true (some ctx) (accepted ssl) c s = serve_request json_loads c (some ssl) c.read s

-- `handle_device_connection`.
unfoldable pub handle_device_connection :
    (Str → Option Json) → Conn → ControlServer → Outcome (ControlServer × Option Response × Bool)
handle_device_connection json_loads c s = shake json_loads s.enable_ssl s.ssl_ctx c.tls c s

-- `control_server_thread` over what `accept` returns, none for an error: one connection after the other,
-- until `g_running` falls, which the list ends with.
unfoldable pub control_server_thread :
    (Str → Option Json) → List (Option Conn) → ControlServer → Outcome ControlServer
control_server_thread json_loads [] s = done s
control_server_thread json_loads (none ∷ cs) s = control_server_thread json_loads cs s
control_server_thread json_loads (some c ∷ cs) s =
    handle_device_connection json_loads c s >>= λ r. control_server_thread json_loads cs r.0
