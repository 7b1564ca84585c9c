-- ===== src/Proxy/Dynamic/Open.antt =====
-- How server/proxy/server/proxy_server.c opens the sockets, the TLS context and the listener threads
-- of a server.
use net_port.Base.{
  ℕ, zero, suc, Bool, true, false, not, ◌&&◌, ◌||◌, List, [], ◌∷◌, Option, none, some, Str, take,
  if◌then◌else◌,
}
use net_port.Proxy.Dynamic.State.{Server, LocalSocket, Runtime, named}
use net_port.Proxy.Dynamic.Stop.{Ends}

-- How `init_input_socket` and `init_output_socket` end: `socket` fails, a later call fails, or the
-- descriptor listens.
pub data Opened : Type 0 where
  no_socket : Opened
  unusable listening : ℕ → Opened

-- What the environment answers during one start: the two sockets, the allocations, whether the
-- listener threads run once they have been started, which descriptors accept connections, the
-- certificate and key of the device manager, and the TLS context made of them.
pub record Env : Type 0 where
  pub ends : Ends
  pub input_opened : Opened
  pub output_opened : Opened
  pub malloc_ok : Bool
  pub realloc_ok : Bool
  pub input_runs : Bool
  pub output_runs : Bool
  pub accepts : ℕ → Bool
  pub certs : Option (Str × Str)
  pub new_ctx : Option ℕ
  pub count_socket_thread : ℕ

abbrev pub opened_fd : Opened → Option ℕ
opened_fd no_socket = none
opened_fd (unusable fd) = some fd
opened_fd (listening fd) = some fd

abbrev pub opened_ok : Opened → Bool
opened_ok (listening fd) = true
opened_ok _ = false

-- `server_input_init`: the return code is 0 or -2.
unfoldable pub server_input_init : Env → Server → Server × Bool
server_input_init env s = (
  record s {
    stop_input_running = false;
    is_input_running = false;
    input = opened_fd env.input_opened;
  },
  opened_ok env.input_opened,
)

-- `server_output_init`.
unfoldable pub server_output_init : Env → Server → Server × Bool
server_output_init env s = (
  record s {
    stop_output_running = false;
    is_output_running = false;
    output = opened_fd env.output_opened;
  },
  opened_ok env.output_opened,
)

-- `init_ssl_context`.
unfoldable pub init_ssl_context : Env → Server → Server
init_ssl_context env s =
    let wanted = s.enable_output_ssl || s.enable_input_ssl in
    let plain : Server = record s { enable_output_ssl = false; enable_input_ssl = false } in
    if wanted && (not (named s.cert_file) || not (named s.key_file))
    then plain
    else if wanted
    then elim env.new_ctx [
      | none ↦ record plain { ssl_ctx = none }
      | some ctx ↦ record s { ssl_ctx = some ctx }
    ]
    else s

-- The two paths are copied into arrays of 256 bytes.
abbrev pub path_max : ℕ
path_max = 255

-- `device_manager_ssl_certs_configured`.
unfoldable pub certs_configured : Env → Bool
certs_configured env = elim env.certs [ none ↦ false | some (c, k) ↦ named c && named k ]

-- `apply_dynamic_server_ssl_config`.
unfoldable pub apply_dynamic_server_ssl_config : Env → Bool → Bool → Server → Server
apply_dynamic_server_ssl_config env enable_input_ssl enable_tunnel_ssl s =
    if not enable_input_ssl && not enable_tunnel_ssl
    then s
    else if not (certs_configured env)
    then s
    else elim env.certs [
      | none ↦ s
      | some (c, k) ↦ init_ssl_context env (record s {
        cert_file = take path_max c;
        key_file = take path_max k;
        enable_input_ssl = enable_input_ssl || s.enable_input_ssl;
        enable_output_ssl = enable_tunnel_ssl || s.enable_output_ssl;
      })
    ]

-- `get_free_input_socket` and the like search `COUNT_SOCKET_THREAD` of these.
abbrev pub fresh_socket : LocalSocket
fresh_socket = record {
  input_local = some 0;
  output_local = some 0;
  is_input_connected = false;
  is_output_connected = false;
  close_output_socket = false;
}

unfoldable pub fresh_sockets : ℕ → List LocalSocket
fresh_sockets zero = []
fresh_sockets (suc n) = fresh_socket ∷ fresh_sockets n

-- `server_input_start` and `server_output_start` on the copy of the server.
abbrev pub start_input : Env → Server → Server
start_input env s =
    if s.is_input_running
    then s
    else record s { stop_input_running = false; is_input_running = env.input_runs }

abbrev pub start_output : Env → Server → Server
start_output env s =
    if s.is_output_running
    then s
    else record s { stop_output_running = false; is_output_running = env.output_runs }

-- `start_server_listening_threads` for a server with both sides enabled: the runtime on success.
unfoldable pub start_server_listening_threads : Env → Server → Option Runtime
start_server_listening_threads env s =
    let s1 = if s.is_input_enabled then start_input env s else s in
    let s2 = if s.is_output_enabled then start_output env s1 else s1 in
    if not env.malloc_ok
    then none
    else if s.is_input_enabled && not s1.is_input_running
    then none
    else if s.is_output_enabled && not s2.is_output_running
    then none
    else some (record { local_sockets = fresh_sockets env.count_socket_thread; server = s2 })
