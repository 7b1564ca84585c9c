-- ===== src/Client/Tunnel.antt =====
-- The connections of client/proxy/client/proxy_client.c: their flags, their descriptors, how their
-- threads are started and stopped, and the TLS context of the tunnel.
use net_port.Base.{
  ℕ, ◌+◌, ◌-◌, ◌*◌, Bool, true, false, not, ◌&&◌, ◌||◌, List, [], ◌∷◌, Option, none, some, Str, ltb,
  if◌then◌else◌, map,
}
use net_port.Proxy.Dynamic.State.{named}
use net_port.Client.Device.{Settings}
pub mod Laws

-- `proxy_server_connection_t` without the buffers and the TLS objects. `threads` are the input threads
-- that run for it, which the program does not count.
pub record Connection : Type 0 where
  pub input : Option ℕ
  pub is_starting_input : Bool
  pub is_running_input : Bool
  pub stop_running_input : Bool
  pub output : Option ℕ
  pub is_starting_output : Bool
  pub is_running_output : Bool
  pub stop_running_output : Bool
  pub threads : ℕ

-- `client_traffic_get_active_connections`.
unfoldable pub client_traffic_get_active_connections : List Connection → ℕ
client_traffic_get_active_connections [] = 0
client_traffic_get_active_connections (c ∷ cs) =
    let rest = client_traffic_get_active_connections cs in
    if c.is_running_input && c.is_running_output then 1 + rest else rest

-- `switcher_servers_drop_active_connections`: the descriptors are shut down and stay open.
unfoldable pub drop_connection : Connection → Connection
drop_connection c = record c { stop_running_input = true; stop_running_output = true }

-- How `server_input_start` ends: without memory or a thread, or with a thread that comes to run.
pub data InputStart : Type 0 where
  no_thread runs : InputStart

-- `server_input_start`, up to the time when the thread runs on the descriptor `fd`.
unfoldable pub server_input_start : InputStart → ℕ → Connection → Connection
server_input_start result fd c =
    let asked : Connection = record c { is_starting_input = false; stop_running_input = false } in
    if c.is_running_input then c else elim result [
      | no_thread ↦ asked
      | runs ↦ record asked { input = some fd; is_running_input = true; threads = c.threads + 1 }
    ]

-- One connection in `switcher_servers_restart_input_threads` until its thread is started again: the
-- flags are set and the descriptors closed; `in_time` says whether its threads have ended when the
-- wait does, after 10 seconds at most, and at once where no thread has come to run yet.
unfoldable pub stop_for_restart : Bool → Connection → Connection
stop_for_restart in_time c = record c {
  input = none;
  is_starting_input = false;
  is_running_input = false;
  stop_running_input = false;
  output = none;
  is_starting_output = false;
  is_running_output = false;
  stop_running_output = false;
  threads = if in_time then 0 else c.threads;
}

-- What one connection meets during a restart.
pub record Restart : Type 0 where
  pub in_time : Bool
  pub start : InputStart
  pub fd : ℕ

-- `switcher_servers_restart_input_threads`.
unfoldable pub restart_connection : Restart → Connection → Connection
restart_connection r c = server_input_start r.start r.fd (stop_for_restart r.in_time c)

-- How `server_output_thread` ends its start: the socket cannot be set up (which leaves a descriptor or
-- none) or connected, it is stopped
-- before the handshake, the TLS object or the handshake fails (and whether a stop is seen in the pause
-- after it), or it runs on a descriptor.
pub data OutputStart : Type 0 where
  no_output_thread no_connection stopped_early : OutputStart
  no_socket : Option ℕ → OutputStart
  tls_failed : Bool → OutputStart
  output_runs : ℕ → OutputStart

abbrev failed_output : Connection → Connection
failed_output c = record c { is_running_output = false }

-- The flags as `server_output_thread` leaves them.
unfoldable pub output_thread_starts : OutputStart → Connection → Connection
output_thread_starts no_output_thread c = record c { is_starting_output = false }
output_thread_starts (no_socket fd) c = record (failed_output c) { output = fd }
output_thread_starts no_connection c = record (failed_output c) { output = none }
output_thread_starts stopped_early c = record c {
  output = none;
  is_starting_output = false;
  is_running_output = false;
}
output_thread_starts (tls_failed stop_seen) c =
    if stop_seen
    then record c { output = none; is_starting_output = false; is_running_output = false }
    else record c { output = none }
output_thread_starts (output_runs fd) c = record c {
  output = some fd;
  is_starting_output = false;
  is_running_output = true;
}

-- `server_output_start`: the connection, and whether its wait runs into the limit of 5 seconds.
unfoldable pub server_output_start : OutputStart → Connection → Connection × Bool
server_output_start result c =
    let asked : Connection = record c { is_starting_output = true; stop_running_output = false } in
    let left = output_thread_starts result asked in
    if c.is_running_output || c.is_starting_output
    then (c, false)
    else (record left { is_starting_output = false }, left.is_starting_output)

-- `threads_data`: the settings, `enable_output_ssl`, the context, and the connections, if they are
-- allocated.
pub record Client : Type 0 where
  pub settings : Settings
  pub enable_output_ssl : Bool
  pub ssl_ctx : Option ℕ
  pub connections : Option (List Connection)

-- `ensure_client_ssl_context`; `made` is what `create_client_ssl_context` returns. Whether the code is
-- 0; with `fatal_on_error` the program ends where the context cannot be made.
unfoldable pub ensure_client_ssl_context : Option ℕ → Client → Client × Bool
ensure_client_ssl_context made t =
    let plain : Client = record t {
      settings = record t.settings { enable_ssl = false };
      enable_output_ssl = false;
    } in
    if not (t.settings.enable_ssl || t.enable_output_ssl)
    then (record t { ssl_ctx = none }, true)
    else elim t.ssl_ctx [
      | some ctx ↦ (t, true)
      | none ↦ if not (named t.settings.ca_file) then (plain, false) else elim made [
        | none ↦ (plain, false)
        | some ctx ↦ (record t { ssl_ctx = some ctx }, true)
      ]
    ]

-- `switcher_servers_stop`: `wait_for_proxy_connection_stop` ends whether or not the threads do.
unfoldable pub switcher_servers_stop : Client → Client
switcher_servers_stop t = elim t.connections [
  | none ↦ t
  | some [] ↦ t
  | some (c ∷ cs) ↦ record t { connections = none; ssl_ctx = none }
]

unfoldable pub restart_all : List Restart → List Connection → List Connection
restart_all rs [] = []
restart_all [] (c ∷ cs) = c ∷ cs
restart_all (r ∷ rs) (c ∷ cs) = restart_connection r c ∷ restart_all rs cs
