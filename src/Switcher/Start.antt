-- ===== src/Switcher/Start.antt =====
-- How server/proxy/server/proxy_server.c sets up and starts the servers that the database names.
use net_port.Base.{
  ℕ, zero, suc, ◌+◌, ◌-◌, ◌%◌, ◌≤◌, ◌<◌, ◌≡◌, refl, sym, ap, ◌∙◌, Bool, true, false, not, ◌&&◌,
  ◌||◌, List, [], ◌∷◌, ◌++◌, Option, none, some, Str, codes, take, ltb, ◌==◌, if◌then◌else◌,
}
use net_port.Proxy.Dynamic.State.{Server, zero_server, Runtime, named}
use net_port.Proxy.Dynamic.Stop.{descriptor}
use net_port.Proxy.Dynamic.Open.{
  Env, server_input_init, server_output_init, init_ssl_context, fresh_sockets, path_max,
  start_input, start_output,
}
use net_port.Switcher.{Statistics, SwitcherServer, StatisticDb}
use net_port.Switcher.Totals.{save_server_statistics, cleanup_old_statistics}
pub mod Laws

-- `init_proxy_bind_address`: the value of NET_PORT_BIND_ADDRESS, or none where it is not set.
abbrev pub local_address_max : ℕ
local_address_max = 31

unfoldable pub init_proxy_bind_address : Option Str → Str
init_proxy_bind_address none = codes "127.0.0.1"
init_proxy_bind_address (some a) = if named a then take local_address_max a else codes "127.0.0.1"

-- A path of the command line, cut to its array. NULL is none.
unfoldable pub path : Option Str → Str
path none = []
path (some p) = take path_max p

-- The two calls that open the sockets, and the flags after them.
unfoldable pub open_sockets : Env → Server → Server
open_sockets env s =
    let s1 = server_input_init env s in
    let s2 = server_output_init env (record s1.0 { is_input_enabled = s1.1 }) in
    record s2.0 { is_output_enabled = s2.1 }

-- The body of the loop of `servers_init`.
unfoldable pub init_server : Env → Option Str → Option Str → Server → Server
init_server env cert_file key_file s =
    let ready =
      init_ssl_context env (record s { cert_file = path cert_file; key_file = path key_file }) in
    if s.enable then open_sockets env ready else s

-- The loop; the environment answers for each index anew.
unfoldable pub init_servers :
    (ℕ → Env) → Option Str → Option Str → ℕ → List SwitcherServer → List SwitcherServer
init_servers envs cert_file key_file i [] = []
init_servers envs cert_file key_file i (s ∷ ss) =
    record s { server = init_server (envs i) cert_file key_file s.server }
    ∷ init_servers envs cert_file key_file (i + 1) ss

-- The server of `servers_init_no_db`.
unfoldable pub no_db_server :
    Env → Option Str → Option Str → ℕ → ℕ → Bool → Bool → ℕ → SwitcherServer
no_db_server env cert_file key_file input_port output_port enable_output_ssl enable_input_ssl now =
    record {
      id = 0;
      server = open_sockets env (
          init_ssl_context env (record zero_server {
            enable = true;
            input_port = input_port;
            output_port = output_port;
            is_input_enabled = true;
            is_output_enabled = true;
            enable_output_ssl = enable_output_ssl;
            enable_input_ssl = enable_input_ssl;
            cert_file = path cert_file;
            key_file = path key_file;
          }));
      statistics = record {
        bytes_received = 0;
        bytes_sent = 0;
        connections_count = 0;
        last_update = now;
      };
    }

-- How an iteration of `switcher_servers_start` ends: without memory; with memory that nothing frees,
-- for a server that is not enabled; with the memory freed after the input or the output thread did not
-- come to run; or with a runtime.
pub data Started : Type 0 where
  no_memory : Started
  leaked : Started
  input_stopped : Started
  output_stopped : Server → Started
  running : Runtime → Started

-- The body of the loop of `switcher_servers_start`. `malloc_ok` stands for both allocations.
unfoldable pub start_server : Env → Server → Started
start_server env s =
    let s1 = if s.is_input_enabled then start_input env s else s in
    let s2 = if s.is_output_enabled then start_output env s1 else s1 in
    if not env.malloc_ok
    then no_memory
    else if not s.enable
    then leaked
    else if s.is_input_enabled && not s1.is_input_running
    then input_stopped
    else if s.is_output_enabled && not s2.is_output_running
    then output_stopped s1
    else running (record { local_sockets = fresh_sockets env.count_socket_thread; server = s2 })

unfoldable pub switcher_servers_start : (ℕ → Env) → ℕ → List SwitcherServer → List Started
switcher_servers_start envs i [] = []
switcher_servers_start envs i (s ∷ ss) =
    start_server (envs i) s.server ∷ switcher_servers_start envs (i + 1) ss

-- `switcher_servers_stop`: the contexts that are freed; the servers keep no context.
unfoldable pub switcher_servers_stop : List SwitcherServer → List SwitcherServer × List ℕ
switcher_servers_stop [] = ([], [])
switcher_servers_stop (s ∷ ss) =
    let rest = switcher_servers_stop ss in
    (
      record s { server = record s.server { ssl_ctx = none } } ∷ rest.0,
      descriptor s.server.ssl_ctx ++ rest.1,
    )

-- The loop of `statistics_saver_thread` over the servers.
unfoldable pub save_all :
    (db : StatisticDb) → List SwitcherServer → db.Store → db.Store × List SwitcherServer
save_all db [] d = (d, [])
save_all db (s ∷ ss) d =
    let saved = save_server_statistics db d s in
    let after = save_all db ss saved.0 in
    let skipped = save_all db ss d in
    if s.server.enable then (after.0, saved.1 ∷ after.1) else (skipped.0, s ∷ skipped.1)

-- An iteration of `statistics_saver_thread`, with its `cleanup_counter`: once in 60 iterations the old
-- samples are deleted.
unfoldable pub saver_round :
    (db : StatisticDb)
    → ℕ
    → ℕ
    → ℕ
    → List SwitcherServer
    → db.Store
    → db.Store × List SwitcherServer × ℕ
saver_round db now retention_period cleanup_counter ss d =
    let saved = save_all db ss d in
    if ltb (cleanup_counter + 1) 60
    then (saved.0, saved.1, cleanup_counter + 1)
    else ((cleanup_old_statistics db now retention_period saved.0).0, saved.1, 0)
