-- ===== src/Switcher/Tests.antt =====
-- Runs of server/db/db_func.c and of the servers that the database names.
use net_port.Base.{
  ℕ, ◌%◌, ◌≤◌, ◌≡◌, refl, ap, inr, Bool, true, false, ◌&&◌, List, [], ◌∷◌, Option, none, some, Str,
  codes, map, ltb, ◌==◌, if◌then◌else◌, print_decimal, atoi, digits, read_digits, arith,
}
use net_port.Proxy.Dynamic.State.{Server, zero_server, named, Runtime}
use net_port.Proxy.Dynamic.Open.{
  listening, unusable, Env, server_input_init, server_output_init, init_ssl_context, fresh_socket,
  fresh_sockets,
}
use net_port.Switcher.Start.{output_stopped, path, open_sockets, init_server, start_server}
use net_port.Switcher.Start.Laws.{Serves, start_server-Serves}
use net_port.Switcher.{SwitcherServer, StatisticDb, Documented, max_u64, u64}
use net_port.Switcher.Totals.{
  persist_server_totals, raised, raise_to, or_zero, fetch_persisted_server_totals, read_pair,
  store_statistics, cleanup_old_statistics, save_server_statistics, load_server_statistics,
}
use net_port.Switcher.Rows.{rows, Listed, get_user_server_ports}
use net_port.Switcher.Rows.Laws.{Config, config, print_row, get_user_server_ports-print_row}
use net_port.Switcher.Totals.Rises.{Event, saves, cleans, apply_event, run_events}
use net_port.Switcher.Totals.Laws.{saved_totals_survive}

-- A database with the row of server 1 only, which carries out every statement with numbers below 2^64.
unfoldable one_row : ℕ × ℕ → ℕ → Option (ℕ × ℕ)
one_row d id = if id == 1 then some (d.0 % u64, d.1 % u64) else none

unfoldable print_pair : Option (ℕ × ℕ) → Option (Str × Str)
print_pair none = none
print_pair (some p) = some (print_decimal p.0, print_decimal p.1)

unfoldable greatest : ℕ × ℕ → ℕ → ℕ → ℕ → (ℕ × ℕ) × Bool
greatest d id received sent =
    if (id == 1) && ltb received u64 && ltb sent u64
    then ((max_u64 (d.0 % u64) received, max_u64 (d.1 % u64) sent), true)
    else (d, false)

abbrev small_db : StatisticDb
small_db = record {
  Store = ℕ × ℕ;
  row = one_row;
  select_totals = λ d id. print_pair (one_row d id);
  select_peak = λ d id. none;
  update_totals = greatest;
  insert_statistic = λ d id received sent count. (d, true);
  sync_totals = λ d. (d, true);
  delete_before = λ d cutoff. (d, true);
}

small_db-Documented : Documented small_db
unfolding one_row greatest print_pair max_u64
small_db-Documented = record {
  row_small = λ d id received sent here. ground (arith, here);
  select_shows = λ d id received sent here. inr (ap print_pair here);
  update_greatest =
      λ d id received sent old_received old_sent here carried. ground (arith, here, carried);
  update_refused = λ d id received sent other refused. ground (arith, refused);
  update_other = λ d id received sent other apart. ground (arith, apart);
  insert_row = λ d id received sent count other. refl;
  delete_row = λ d cutoff other. refl;
  sync_rises = λ d id received sent here. ((received, sent), here, omega arith, omega arith);
}

abbrev server_one : SwitcherServer
server_one = record {
  id = 1;
  server = zero_server;
  statistics = record {
    bytes_received = 50;
    bytes_sent = 7;
    connections_count = 2;
    last_update = 0;
  };
}

abbrev some_events : List Event
some_events = saves server_one ∷ cleans 1000 100 ∷ []

abbrev restarted : SwitcherServer
restarted = record server_one {
  statistics = record {
    bytes_received = 0;
    bytes_sent = 0;
    connections_count = 0;
    last_update = 0;
  };
}

saved_totals_survive_example :
    (50
      ≤ (load_server_statistics small_db 9
          (run_events small_db some_events (save_server_statistics small_db (40, 9) server_one).0)
          restarted).1.statistics.bytes_received)
    × (7
        ≤ (load_server_statistics small_db 9
            (run_events small_db some_events (save_server_statistics small_db (40, 9) server_one).0)
            restarted).1.statistics.bytes_sent)
unfolding one_row greatest print_pair persist_server_totals raised raise_to max_u64 or_zero
    fetch_persisted_server_totals read_pair atoi digits read_digits run_events apply_event
    save_server_statistics store_statistics cleanup_old_statistics
saved_totals_survive_example =
    saved_totals_survive small_db small_db-Documented (40, 9) server_one 40 9 9 some_events
      restarted (print_decimal 50, print_decimal 9) refl refl refl refl refl refl

abbrev two_configs : List Config
two_configs =
    record {
      id = 3;
      input_port = 6000;
      output_port = 7000;
      enable = true;
      enable_ssl = true;
      enable_input_ssl = false;
    }
    ∷ record {
      id = 4;
      input_port = 6001;
      output_port = 7001;
      enable = false;
      enable_ssl = false;
      enable_input_ssl = true;
    }
    ∷ []

abbrev nothing_listed : Listed
nothing_listed = record { servers = none; servers_count = 0 }

get_user_server_ports-print_row_example :
    (r : List SwitcherServer) × ((get_user_server_ports small_db 5 true
        (rows 6 (map print_row two_configs))
        (0, 0)
        nothing_listed).1
      ≡ record { servers = some r; servers_count = 2 })
    × ((get_user_server_ports small_db 5 true
          (rows 6 (map print_row two_configs))
          (0, 0)
          nothing_listed).2
        ≡ true)
    × (map config r ≡ two_configs)
get_user_server_ports-print_row_example =
    get_user_server_ports-print_row small_db 5 (0, 0) nothing_listed two_configs
      (
        record { id = omega arith; input_port = omega arith; output_port = omega arith },
        (record { id = omega arith; input_port = omega arith; output_port = omega arith }, tt),
      )
      (omega arith) (omega arith)

-- The input socket of the server cannot be bound.
abbrev half_open : Env
half_open = record {
  ends = record { input_ends = true; output_ends = true };
  input_opened = unusable 5;
  output_opened = listening 6;
  malloc_ok = true;
  realloc_ok = true;
  input_runs = true;
  output_runs = true;
  accepts = λ fd. true;
  certs = none;
  new_ctx = some 77;
  count_socket_thread = 2;
}

abbrev tls_server : Server
tls_server = record zero_server {
  enable = true;
  input_port = 6000;
  output_port = 7000;
  enable_output_ssl = true;
}

abbrev paths : Option Str
paths = some (codes "server.pem")

abbrev served : Runtime
served = record {
  local_sockets = fresh_socket ∷ fresh_socket ∷ [];
  server = record tls_server {
    input = some 5;
    output = some 6;
    is_output_enabled = true;
    is_output_running = true;
    ssl_ctx = some 77;
    cert_file = codes "server.pem";
    key_file = codes "server.pem";
  };
}

start_server-Serves_example : Serves half_open served.server
unfolding start_server init_server open_sockets server_input_init server_output_init
    init_ssl_context path named fresh_sockets
start_server-Serves_example =
    start_server-Serves half_open half_open paths paths tls_server served refl

-- The thread of the input still has the memory that is freed when the output thread does not run.
output_thread_fails :
    start_server
      (record half_open { output_runs = false })
      (record tls_server { is_input_enabled = true; is_output_enabled = true })
    ≡ output_stopped (record tls_server {
      is_input_enabled = true;
      is_output_enabled = true;
      is_input_running = true;
    })
unfolding start_server
output_thread_fails = refl
