-- ===== src/Proxy/Dynamic/State.antt =====
-- The state of server/proxy/server/proxy_server.c: the array `servers`, the registry
-- `g_dynamic_runtimes`, the runtimes that it points to, and what has been closed and freed.
use net_port.Base.{
  ℕ, Bool, true, false, List, [], ◌∷◌, Option, none, some, Str, get_elem?, ltb, if◌then◌else◌,
}

-- The fields of `proxy_server_t` that the functions use. A descriptor or pointer that is negative or
-- NULL is `none`.
pub record Server : Type 0 where
  pub enable : Bool
  pub input_port : ℕ
  pub input : Option ℕ
  pub is_input_enabled : Bool
  pub is_input_running : Bool
  pub stop_input_running : Bool
  pub output_port : ℕ
  pub output : Option ℕ
  pub is_output_enabled : Bool
  pub is_output_running : Bool
  pub stop_output_running : Bool
  pub enable_output_ssl : Bool
  pub enable_input_ssl : Bool
  pub ssl_ctx : Option ℕ
  pub cert_file : Str
  pub key_file : Str
  pub device_id : Str
  pub is_dynamic_port : Bool

-- What `memset(server, 0, sizeof(*server))` leaves: both descriptors are 0.
abbrev pub zero_server : Server
zero_server = record {
  enable = false;
  input_port = 0;
  input = some 0;
  is_input_enabled = false;
  is_input_running = false;
  stop_input_running = false;
  output_port = 0;
  output = some 0;
  is_output_enabled = false;
  is_output_running = false;
  stop_output_running = false;
  enable_output_ssl = false;
  enable_input_ssl = false;
  ssl_ctx = none;
  cert_file = [];
  key_file = [];
  device_id = [];
  is_dynamic_port = false;
}

-- `proxy_server_local_socket_data_t` without the buffers and the TLS objects.
pub record LocalSocket : Type 0 where
  pub input_local : Option ℕ
  pub output_local : Option ℕ
  pub is_input_connected : Bool
  pub is_output_connected : Bool
  pub close_output_socket : Bool

-- `proxy_server_thread_data_t`.
pub record Runtime : Type 0 where
  pub local_sockets : List LocalSocket
  pub server : Server

-- `dynamic_server_runtime_t`. The pointer is the runtime's number on the heap.
pub record Slot : Type 0 where
  pub device_id : Str
  pub input_port : ℕ
  pub tunnel_port : ℕ
  pub server_index : ℕ
  pub connections_data : Option ℕ
  pub active : Bool

-- The runtimes allocated so far, the descriptors passed to `close` and the contexts passed to
-- `SSL_CTX_free`, the last one last.
pub record Machine : Type 0 where
  pub heap : List Runtime
  pub closed : List ℕ
  pub freed : List ℕ

pub record Registry : Type 0 where
  pub servers : List Server
  pub servers_count : ℕ
  pub slots : List Slot
  pub machine : Machine

-- `device_id[0] != '\0'`.
unfoldable pub named : Str → Bool
named [] = false
named (c ∷ cs) = true

-- `servers[index]` with `index < servers_count`.
unfoldable pub server_at : ℕ → Registry → Option Server
server_at index r = if ltb index r.servers_count then get_elem? r.servers index else none

-- `strncpy` into a `device_id` of `DEVICE_ID_MAX_LEN + 1` bytes.
abbrev pub device_id_max : ℕ
device_id_max = 64
