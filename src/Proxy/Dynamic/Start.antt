-- ===== src/Proxy/Dynamic/Start.antt =====
-- How server/proxy/server/proxy_server.c starts the servers of devices.
use net_port.Base.{
  ℕ, ◌+◌, ◌-◌, ◌%◌, ◌^◌, Bool, true, false, not, ◌&&◌, List, [], ◌∷◌, ◌++◌, Option, none, some, Str,
  str_eq, length, set, take, ltb, ◌==◌, if◌then◌else◌,
}
use net_port.Proxy.Dynamic.State.{Server, zero_server, Runtime, Machine, Registry, device_id_max}
use net_port.Proxy.Dynamic.Stop.{
  descriptor, stop_dynamic_server_runtime, stop_dynamic_runtimes_for_device,
  cleanup_dynamic_server_slot,
}
use net_port.Proxy.Dynamic.Open.{
  Env, server_input_init, server_output_init, certs_configured, apply_dynamic_server_ssl_config,
  start_server_listening_threads,
}
use net_port.Proxy.Dynamic.Registry.{
  register_dynamic_server_runtime, is_runtime_listener_active, find_healthy_dynamic_server,
}

-- What a device asks for: its name, its two ports, and TLS on each of them.
pub record Request : Type 0 where
  pub device_id : Str
  pub input_port : ℕ
  pub tunnel_port : ℕ
  pub input_ssl : Bool
  pub tunnel_ssl : Bool

-- The server of a request before its sockets are opened.
unfoldable pub new_server : Env → Request → Server
new_server env q =
    apply_dynamic_server_ssl_config env q.input_ssl q.tunnel_ssl (record zero_server {
      enable = true;
      input_port = q.input_port;
      output_port = q.tunnel_port;
      is_input_enabled = true;
      is_output_enabled = true;
      is_dynamic_port = true;
      device_id = take device_id_max q.device_id;
    })

-- `cleanup_ssl_context`.
abbrev pub cleanup_ssl_context : Server → Machine → Machine
cleanup_ssl_context s m = record m { freed = m.freed ++ descriptor s.ssl_ctx }

abbrev pub close_fd : Option ℕ → Machine → Machine
close_fd fd m = record m { closed = m.closed ++ descriptor fd }

-- `servers[index]` and the machine after a failure of each kind.
unfoldable pub input_failed : Server → Machine → Server × Machine
input_failed s m =
    (record s { is_input_enabled = false; enable = false; ssl_ctx = none }, cleanup_ssl_context s m)

unfoldable pub output_failed : Server → Machine → Server × Machine
output_failed s m = (
  record s { is_output_enabled = false; enable = false; input = none; ssl_ctx = none },
  cleanup_ssl_context s (close_fd s.input m),
)

unfoldable pub threads_failed : Server → Machine → Server × Machine
threads_failed s m = (
  record s { enable = false; input = none; output = none },
  close_fd s.output (close_fd s.input m),
)

-- The registration of a started runtime, and the last test.
unfoldable pub admit_runtime : Env → ℕ → Request → Runtime → Registry → Registry × Bool
admit_runtime env index q rt r =
    let p = length r.machine.heap in
    let m : Machine = record r.machine { heap = r.machine.heap ++ rt ∷ [] } in
    let slots' =
      register_dynamic_server_runtime q.device_id q.input_port q.tunnel_port index p r.slots in
    if is_runtime_listener_active env.accepts q.input_port false rt.server
      && is_runtime_listener_active env.accepts q.tunnel_port true rt.server
    then (record r { slots = slots'; machine = m }, true)
    else (
      record r {
        slots = slots';
        machine = stop_dynamic_server_runtime env.ends (some p) q.device_id m;
      },
      false,
    )

abbrev put_server : ℕ → Server × Machine → Registry → Registry
put_server index (s, m) r = record r { servers = set r.servers index s; machine = m }

-- The server once its first socket, and then its second one, was set up.
unfoldable pub with_input : Env → Request → Server
with_input env q = (server_input_init env (new_server env q)).0

unfoldable pub with_output : Env → Request → Server
with_output env q = (server_output_init env (with_input env q)).0

-- The server once the listener threads run.
abbrev pub running_server : Server → Runtime → Server
running_server s rt = record s {
  is_input_running = rt.server.is_input_running;
  is_output_running = rt.server.is_output_running;
}

-- The part of `start_dynamic_server_at_index` after `cleanup_dynamic_server_slot`.
unfoldable pub open_server : Env → ℕ → Request → Registry → Registry × Bool
open_server env index q r =
    if not (server_input_init env (new_server env q)).1
    then (put_server index (input_failed (with_input env q) r.machine) r, false)
    else if not (server_output_init env (with_input env q)).1
    then (put_server index (output_failed (with_output env q) r.machine) r, false)
    else elim (start_server_listening_threads env (with_output env q)) [
      | none ↦ (put_server index (threads_failed (with_output env q) r.machine) r, false)
      | some rt ↦
          admit_runtime env index q rt
            (record r { servers = set r.servers index (running_server (with_output env q) rt) })
    ]

-- `start_dynamic_server_at_index`: the answer is `index` or -1.
unfoldable pub start_dynamic_server_at_index : Env → ℕ → Request → Registry → Registry × Bool
start_dynamic_server_at_index env index q r =
    if ltb index r.servers_count
    then open_server env index q (cleanup_dynamic_server_slot env.ends index r)
    else (r, false)

-- The two loops of `find_stopped_dynamic_server`, each over the first `servers_count` servers.
unfoldable pub find_stopped : (Server → Bool) → List Server → Option ℕ
find_stopped chosen [] = none
find_stopped chosen (s ∷ servers) =
    let rest = find_stopped chosen servers in
    if s.is_dynamic_port && not s.enable && chosen s
    then some 0
    else elim rest [ none ↦ none | some i ↦ some (i + 1) ]

-- `find_stopped_dynamic_server`.
unfoldable pub find_stopped_dynamic_server : Str → ℕ → ℕ → Registry → Option ℕ
find_stopped_dynamic_server device_id ip tp r =
    let listed = take r.servers_count r.servers in
    let by_ports = find_stopped (λ s. (s.input_port == ip) && (s.output_port == tp)) listed in
    elim (find_stopped (λ s. str_eq s.device_id device_id) listed) [
      | none ↦ by_ports
      | some i ↦ some i
    ]

-- `uint16_t servers_count` wraps here.
abbrev pub u16 : ℕ
u16 = 2 ^ 16

-- `realloc` keeps the first `servers_count` servers and makes room for one more.
unfoldable pub grow : Registry → Registry
grow r = record r {
  servers = take r.servers_count r.servers ++ zero_server ∷ [];
  servers_count = (r.servers_count + 1) % u16;
}

-- `create_dynamic_server_for_device`, the ports being positive.
unfoldable pub create_server : Env → Request → Registry → Registry × Option ℕ
create_server env q r =
    let (r', ok) = start_dynamic_server_at_index env r.servers_count q (grow r) in
    if not env.realloc_ok
    then (r, none)
    else if ok
    then (r', some r.servers_count)
    else (record r' { servers_count = (r'.servers_count + (u16 - 1)) % u16 }, none)

-- The TLS flags of the device are granted only if there is a certificate.
unfoldable pub granted : Env → Request → Request
granted env q = record q {
  input_ssl = q.input_ssl && certs_configured env;
  tunnel_ssl = q.tunnel_ssl && certs_configured env;
}

unfoldable pub create_dynamic_server_for_device : Env → Request → Registry → Registry × Option ℕ
create_dynamic_server_for_device env q r =
    if ltb 0 q.input_port && ltb 0 q.tunnel_port
    then create_server env (granted env q) r
    else (r, none)

-- The restart of a stopped server, and the creation where there is none or it fails.
unfoldable pub restart_or_create : Env → Request → Registry → Registry × Option ℕ
restart_or_create env q r =
    elim (find_stopped_dynamic_server q.device_id q.input_port q.tunnel_port r) [
      | none ↦ create_dynamic_server_for_device env q r
      | some i ↦
          let (r', ok) = start_dynamic_server_at_index env i (granted env q) r in
          if ok then (r', some i) else create_dynamic_server_for_device env q r'
    ]

-- `ensure_dynamic_server_for_device`: the index of the server, or -1. `q` holds what the device
-- record says, or no TLS where there is none.
unfoldable pub ensure_dynamic_server_for_device : Env → Request → Registry → Registry × Option ℕ
ensure_dynamic_server_for_device env q r =
    let g = granted env q in
    let healthy =
      find_healthy_dynamic_server env.accepts q.input_port q.tunnel_port g.input_ssl g.tunnel_ssl
        r.machine.heap r.slots in
    if not (ltb 0 q.input_port && ltb 0 q.tunnel_port) then (r, none) else elim healthy [
      | some i ↦ (r, some i)
      | none ↦
          restart_or_create env q
            (stop_dynamic_runtimes_for_device env.ends q.device_id q.input_port q.tunnel_port r)
    ]
