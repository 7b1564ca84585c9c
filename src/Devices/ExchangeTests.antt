-- ===== src/Devices/ExchangeTests.antt =====
-- Runs of the requests of devices for server/proxy/server/device_manager.c, and concrete cases of the
-- theorems.
use net_port.Base.{
  ◌+◌, ◌^◌, ◌≡◌, refl, true, false, List, [], ◌∷◌, some, Str, codes, str_eq, ltb, arith, digits,
  read_digits, atoi,
}
use net_port.Base.Outcome.{Outcome, done, fault}
use net_port.Security.State.{Security, default_config}
use net_port.Security.RateLimit.{
  find_entry, fresh_entry, reserve, append_entry, insert_key, check_rate_limit, judge_at, judge,
}
use net_port.Security.RateLimit.Valid.{Realloc, IsValid}
use net_port.Security.Access.{has, check_ip_access}
use net_port.Security.Gate.{check_source, check_caller, validate_device_token}
use net_port.Proxy.Dynamic.State.{named, server_at}
use net_port.Proxy.Dynamic.Stop.{
  same_ports, slot_matches, owned_elsewhere, stop_slot, stop_slots,
  stop_dynamic_runtimes_for_device, cleanup_dynamic_server_slot,
}
use net_port.Proxy.Dynamic.Open.{
  server_input_init, server_output_init, init_ssl_context, certs_configured,
  apply_dynamic_server_ssl_config, fresh_sockets, start_server_listening_threads,
}
use net_port.Proxy.Dynamic.Registry.{
  free_slot, clear_stale, register_dynamic_server_runtime, is_runtime_listener_active, is_healthy,
  slot_healthy, find_healthy_dynamic_server,
}
use net_port.Proxy.Dynamic.Start.{
  new_server, admit_runtime, with_input, with_output, open_server, start_dynamic_server_at_index,
  find_stopped, find_stopped_dynamic_server, grow, create_server, granted,
  create_dynamic_server_for_device, restart_or_create, ensure_dynamic_server_for_device,
}
use net_port.Proxy.DynamicTests.{all_well, empty}
use net_port.Devices.Pending.{find_pending, remove_at, consume_tls_reload_pending}
use net_port.Devices.Json.{Json, string, object, end_of, member, find_member, json_object_get}
use net_port.Devices.Sql.{
  Statement, authenticate, insert_session, select_device, select_session, cleanup_device_sessions,
  Result, command_ok, tuples, run, ask, first_row, column,
}
use net_port.Devices.Session.{
  parse_pg_bool, read_device, loaded_status, device_manager_load_device_by_id, device_authenticate,
  read_session, get_session_by_token, update_device_heartbeat,
}
use net_port.Devices.Token.{
  generate_session_token, random_len, random_part, charset_at, hex_digits, hex_digit,
}
use net_port.Devices.Response.{
  Problem, TlsSettings, Response, Registration, authenticated, error, alive,
}
use net_port.Devices.Register.{
  World, Manager, with_security, process_registration_request, register_with, gated_device,
  admit_device, start_proxy, registration, request_of, register_device_session, store_session,
  unless_failed, read_ports,
}
use net_port.Devices.Traffic.{
  update_device_statistics, record_device_traffic_sample, aggregate_device_hourly_statistics,
  both_counts, read_part, read_traffic, store_traffic,
}
use net_port.Devices.Heartbeats.{
  device_or_unknown, ensure_served, serve_session, report_tls, answer_heartbeat, keep_alive,
  admit_heartbeat,
}
use net_port.Devices.Heartbeats.Laws.{second_look, Told, admit_heartbeat-Told}
use net_port.Devices.Pending.Laws.{waits}
use net_port.Devices.Register.Access.{
  Accepted, process_registration-Accepted, refused_registration_harmless,
}

-- A database that knows one device, with the ports 9000 and 9001.
abbrev answer : List Statement → Statement → Result
answer log (authenticate d h) = tuples (
    (codes "7"
      ∷ codes "cam"
      ∷ codes "x"
      ∷ codes "3"
      ∷ []
      ∷ []
      ∷ codes "active"
      ∷ codes "t"
      ∷ codes "f"
      ∷ [])
    ∷ [])
answer log (select_device d) = tuples (
    (codes "cam"
      ∷ codes "cam"
      ∷ codes "x"
      ∷ codes "3"
      ∷ []
      ∷ []
      ∷ codes "active"
      ∷ codes "t"
      ∷ codes "f"
      ∷ [])
    ∷ [])
answer log (insert_session d t i e) = tuples ((codes "9000" ∷ codes "9001" ∷ []) ∷ [])
answer log (select_session t) = tuples (
    (codes "s"
      ∷ codes "cam"
      ∷ codes "9000"
      ∷ codes "99"
      ∷ codes "active"
      ∷ codes "0"
      ∷ codes "0"
      ∷ codes "0"
      ∷ [])
    ∷ [])
answer log (cleanup_device_sessions d) = tuples ((codes "0" ∷ []) ∷ [])
answer log _ = command_ok 1

abbrev pub world : World
world = record {
  db = record { connects = λ log. true; answer = answer };
  sha256 = λ s. some s;
  rand_r = λ seed. (seed, seed + 7);
  seed = 5;
  env = all_well;
  realloc = λ n. ltb n (2 ^ 63);
  now = 1000;
  later = 1000;
  token_time = 1000;
  answer_time = 1001;
  session_timeout = 3600;
  heartbeat_interval = 30;
}

abbrev pub address : Str
address = codes "10.0.0.7"

abbrev security : Security
security = record {
  config = default_config;
  allocated = true;
  entries = [];
  capacity = 10;
  whitelist = [];
  blacklist = [];
}

abbrev pub start : Manager
start = record {
  control = record { registry = empty; pending = codes "cam" ∷ []; security = security };
  log = [];
}

abbrev banned : Manager
banned = record start {
  control = record start.control { security = record security { blacklist = address ∷ [] } };
}

abbrev register_cam : Json
register_cam = object (
    member (codes "device_id") (string (codes "cam"))
      (member (codes "auth_token") (string (codes "k")) end_of))

security-IsValid : IsValid security
security-IsValid = record {
  has_table = refl;
  in_table = omega arith;
  has_room = omega arith;
  small = omega arith;
  fitting = omega arith;
}

grants-Realloc : Realloc world.realloc
grants-Realloc n h = ground arith

abbrev manager_of : Outcome (Manager × Response) → Manager
manager_of (done (m, r)) = m
manager_of fault = start

abbrev after : Manager
after = manager_of (process_registration_request world register_cam (some address) start)

abbrev answered : Registration
answered = record {
  assigned_port = 9000;
  tunnel_port = 9001;
  input_tls = true;
  tunnel_tls = false;
  session_token = codes "3e8-fmtAHOV29gnuBIPW3ahovCJQX4bipwDK";
  heartbeat_interval = 30;
  server_time = 1001;
  internal_address = [];
  internal_port = 0;
}

register-runs :
    process_registration_request world register_cam (some address) start
    ≡ done (after, authenticated answered)
unfolding process_registration_request register_with gated_device admit_device start_proxy
    registration request_of register_device_session store_session unless_failed read_ports
    device_authenticate read_device parse_pg_bool first_row column ask run generate_session_token
    random_len random_part charset_at hex_digits hex_digit digits read_digits atoi
    validate_device_token check_caller check_source check_ip_access has check_rate_limit find_entry
    fresh_entry reserve append_entry insert_key judge_at judge find_member json_object_get
    ensure_dynamic_server_for_device restart_or_create create_dynamic_server_for_device granted
    create_server grow find_stopped_dynamic_server find_stopped start_dynamic_server_at_index
    open_server with_output with_input admit_runtime new_server find_healthy_dynamic_server
    slot_healthy is_healthy is_runtime_listener_active register_dynamic_server_runtime clear_stale
    free_slot start_server_listening_threads fresh_sockets apply_dynamic_server_ssl_config
    certs_configured init_ssl_context server_output_init server_input_init
    cleanup_dynamic_server_slot stop_dynamic_runtimes_for_device stop_slots stop_slot
    owned_elsewhere slot_matches same_ports named server_at str_eq
register-runs = refl

process_registration-Accepted_example :
    Accepted world register_cam (some address) start after answered
process_registration-Accepted_example =
    process_registration-Accepted world register_cam (some address) start after answered
      grants-Realloc security-IsValid register-runs

banned-IsValid : IsValid banned.control.security
banned-IsValid = record {
  has_table = refl;
  in_table = omega arith;
  has_room = omega arith;
  small = omega arith;
  fitting = omega arith;
}

banned-refused : check_ip_access (some address) banned.control.security ≡ false
unfolding check_ip_access has str_eq
banned-refused = refl

refused_registration_harmless_example :
    (s : Security) × (p : Problem) × (process_registration_request world register_cam
        (some address)
        banned
      ≡ done (with_security banned s, error p))
refused_registration_harmless_example =
    refused_registration_harmless world register_cam (some address) banned grants-Realloc
      banned-IsValid banned-refused

-- A heartbeat of the session, whose device waits for a TLS reload.
abbrev beat : Json
beat = object (member (codes "session_token") (string (codes "s")) end_of)

abbrev told : TlsSettings
told = record { input_tls = true; tunnel_tls = false; reload_tls = true }

abbrev after_beat : Manager
after_beat = (admit_heartbeat world beat (codes "s") start).0

heartbeat-runs : admit_heartbeat world beat (codes "s") start ≡ (after_beat, alive (some told) 1001)
unfolding admit_heartbeat keep_alive answer_heartbeat report_tls serve_session ensure_served
    device_or_unknown device_manager_load_device_by_id loaded_status get_session_by_token
    read_session update_device_heartbeat store_traffic read_traffic read_part both_counts
    update_device_statistics record_device_traffic_sample aggregate_device_hourly_statistics
    consume_tls_reload_pending find_pending remove_at read_device parse_pg_bool first_row column ask
    run digits read_digits atoi find_member json_object_get certs_configured named str_eq
heartbeat-runs = refl

admit_heartbeat-Told_example :
    Told world (codes "s") (second_look world beat (codes "s") start) start after_beat told
unfolding waits
admit_heartbeat-Told_example =
    admit_heartbeat-Told world beat (codes "s") start after_beat told 1001
      (record { bounded = omega arith; distinct = (refl, tt); fitting = (omega arith, tt) })
      heartbeat-runs
