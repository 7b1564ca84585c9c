-- ===== src/Proxy/DynamicTests.antt =====
-- Runs of the definitions for the servers of devices and for pairs of connections, and concrete
-- cases of the theorems.
use net_port.Base.{
  ℕ, ◌≡◌, ◌≢◌, refl, ◌⊎◌, true, false, [], ◌∷◌, ◌++◌, none, some, codes, str_eq, get_elem?, arith,
}
use net_port.Proxy.Dynamic.State.{
  Server, zero_server, LocalSocket, Runtime, Slot, Registry, named, server_at,
}
use net_port.Proxy.Dynamic.Stop.{
  Ends, socket_descriptors, runtime_descriptors, refuses, stop_dynamic_server_runtime, same_ports,
  slot_matches, owned_elsewhere, stop_slot, stop_slots, stop_dynamic_runtimes_for_device,
  cleanup_dynamic_server_slot,
}
use net_port.Proxy.Dynamic.Open.{
  listening, Env, server_input_init, server_output_init, init_ssl_context, certs_configured,
  apply_dynamic_server_ssl_config, fresh_socket, fresh_sockets, start_server_listening_threads,
}
use net_port.Proxy.Dynamic.Registry.{
  free_slot, clear_stale, register_dynamic_server_runtime, is_runtime_listener_active,
  dynamic_runtime_ssl_matches, is_healthy, slot_healthy, find_healthy_dynamic_server,
}
use net_port.Proxy.Dynamic.Start.{
  Request, new_server, admit_runtime, with_input, with_output, open_server,
  start_dynamic_server_at_index, find_stopped, find_stopped_dynamic_server, grow, create_server,
  granted, create_dynamic_server_for_device, restart_or_create, ensure_dynamic_server_for_device,
}
use net_port.Proxy.Dynamic.Closing.{ClosesOwn}
use net_port.Proxy.Dynamic.Isolation.{stop_spares_runtime}
use net_port.Proxy.Dynamic.Healthy.{Serving, ensure_dynamic_server-Serving}
use net_port.Proxy.Dynamic.Growth.{Listed}
use net_port.Proxy.Dynamic.Recycling.{Grows, ensure_never_recycles}
use net_port.Proxy.Sockets.{
  find_socket, get_free_output_socket, probe, get_free_input_socket, Pairs, accept_input,
}
use net_port.Proxy.Sockets.Laws.{NoneWaits, Paired, accept_input-Paired}

abbrev pub all_well : Env
all_well = record {
  ends = record { input_ends = true; output_ends = true };
  input_opened = listening 5;
  output_opened = listening 6;
  malloc_ok = true;
  realloc_ok = true;
  input_runs = true;
  output_runs = true;
  accepts = λ fd. true;
  certs = some (codes "cert.pem", codes "key.pem");
  new_ctx = some 77;
  count_socket_thread = 2;
}

abbrev camera : Request
camera = record {
  device_id = codes "cam";
  input_port = 9000;
  tunnel_port = 9001;
  input_ssl = true;
  tunnel_ssl = false;
}

abbrev no_slot : Slot
no_slot = record {
  device_id = [];
  input_port = 0;
  tunnel_port = 0;
  server_index = 0;
  connections_data = none;
  active = false;
}

abbrev pub empty : Registry
empty = record {
  servers = [];
  servers_count = 0;
  slots = no_slot ∷ no_slot ∷ [];
  machine = record { heap = []; closed = []; freed = [] };
}

ensure-first : (ensure_dynamic_server_for_device all_well camera empty).1 ≡ some 0
unfolding ensure_dynamic_server_for_device restart_or_create create_dynamic_server_for_device
    granted create_server grow find_stopped_dynamic_server find_stopped
    start_dynamic_server_at_index open_server with_output with_input admit_runtime new_server
    find_healthy_dynamic_server slot_healthy is_healthy is_runtime_listener_active
    register_dynamic_server_runtime clear_stale free_slot start_server_listening_threads
    fresh_sockets apply_dynamic_server_ssl_config certs_configured init_ssl_context
    server_output_init server_input_init cleanup_dynamic_server_slot
    stop_dynamic_runtimes_for_device stop_slots stop_slot owned_elsewhere slot_matches same_ports
    named server_at str_eq
ensure-first = refl

ensure_dynamic_server-Serving_example :
    Serving all_well.accepts 9000 9001
      (ensure_dynamic_server_for_device all_well camera empty).0.machine.heap
ensure_dynamic_server-Serving_example =
    ensure_dynamic_server-Serving all_well camera empty 0 ensure-first

empty-Listed : Listed empty
empty-Listed = record { fits = omega arith; small = omega arith; kept = tt }

nothing_healthy :
    find_healthy_dynamic_server all_well.accepts 9000 9001
      (granted all_well camera).input_ssl
      (granted all_well camera).tunnel_ssl
      []
      empty.slots
    ≡ none
unfolding find_healthy_dynamic_server slot_healthy
nothing_healthy = refl

ensure_never_recycles_example :
    Grows empty
      (ensure_dynamic_server_for_device all_well camera empty).0
      (ensure_dynamic_server_for_device all_well camera empty).1
ensure_never_recycles_example =
    ensure_never_recycles all_well camera empty empty-Listed nothing_healthy

abbrev camera_server : Server
camera_server = record zero_server {
  enable = true;
  input_port = 9000;
  output_port = 9001;
  input = some 5;
  output = some 6;
  is_input_enabled = true;
  is_output_enabled = true;
  is_input_running = true;
  is_output_running = true;
  is_dynamic_port = true;
  device_id = codes "cam";
}

abbrev door_server : Server
door_server = record camera_server {
  device_id = codes "door";
  input_port = 9002;
  output_port = 9003;
}

abbrev camera_runtime : Runtime
camera_runtime = record { local_sockets = fresh_socket ∷ fresh_socket ∷ []; server = camera_server }

abbrev pub door_runtime : Runtime
door_runtime = record { local_sockets = []; server = door_server }

abbrev camera_slot : Slot
camera_slot = record {
  device_id = codes "cam";
  input_port = 9000;
  tunnel_port = 9001;
  server_index = 0;
  connections_data = some 0;
  active = true;
}

abbrev door_slot : Slot
door_slot = record {
  device_id = codes "door";
  input_port = 9002;
  tunnel_port = 9003;
  server_index = 1;
  connections_data = some 1;
  active = true;
}

abbrev pub two_devices : Registry
two_devices = record {
  servers = camera_server ∷ door_server ∷ [];
  servers_count = 2;
  slots = camera_slot ∷ door_slot ∷ no_slot ∷ [];
  machine = record { heap = camera_runtime ∷ door_runtime ∷ []; closed = []; freed = [] };
}

-- Where everything ends at once.
abbrev at_once : Ends
at_once = record { input_ends = true; output_ends = true }

abbrev camera_stopped : Registry
camera_stopped = stop_dynamic_runtimes_for_device at_once (codes "cam") 9000 9001 two_devices

camera_stopped-closed : camera_stopped.machine.closed ≡ 0 ∷ 0 ∷ 0 ∷ 0 ∷ 5 ∷ 6 ∷ []
unfolding stop_dynamic_runtimes_for_device stop_slots stop_slot stop_dynamic_server_runtime refuses
    runtime_descriptors socket_descriptors owned_elsewhere slot_matches same_ports named server_at
    str_eq
camera_stopped-closed = refl

pub cam_named : named (codes "cam") ≡ true
unfolding named
cam_named = refl

pub door_named : named (codes "door") ≡ true
unfolding named
door_named = refl

pub door_cam : codes "door" ≢ codes "cam"
door_cam = λ e. ground (arith, e)

stop_spares_runtime_example :
    (get_elem? camera_stopped.machine.heap 1 ≡ some door_runtime)
    × ClosesOwn
        (codes "cam")
        two_devices.machine.heap
        two_devices.machine.closed
        camera_stopped.machine.closed
stop_spares_runtime_example =
    stop_spares_runtime at_once (codes "cam") 9000 9001 two_devices 1 door_runtime cam_named refl
      door_named door_cam

camera_ports : same_ports 9000 9001 camera_slot ≡ true
unfolding same_ports
camera_ports = refl

camera_owned : owned_elsewhere two_devices camera_slot ≡ false
unfolding owned_elsewhere server_at named str_eq
camera_owned = refl

-- A server whose sockets listen, before its threads are started.
abbrev opened_server : Server
opened_server = record camera_server { is_input_running = false; is_output_running = false }

camera_starts : start_server_listening_threads all_well opened_server ≡ some camera_runtime
unfolding start_server_listening_threads fresh_sockets
camera_starts = refl

camera_own : refuses (codes "cam") camera_runtime ≡ false
unfolding refuses str_eq named
camera_own = refl

camera_found :
    find_healthy_dynamic_server all_well.accepts 9000 9001 false false two_devices.machine.heap
      two_devices.slots
    ≡ some 0
unfolding find_healthy_dynamic_server slot_healthy is_healthy is_runtime_listener_active
    dynamic_runtime_ssl_matches same_ports
camera_found = refl

-- One device waits for a user, and one place is free.
abbrev waiting : LocalSocket
waiting = record fresh_socket { output_local = some 11; is_output_connected = true }

abbrev pairs : Pairs
pairs = record { sockets = waiting ∷ fresh_socket ∷ []; closed = [] }

accept_input-Paired_example :
    (((accept_input true true 12 pairs).1 ≡ none)
      × ((accept_input true true 12 pairs).0.closed ≡ [] ++ 12 ∷ [])
      × ((true ≡ false) ⊎ (true ≡ false) ⊎ NoneWaits pairs.sockets))
    ⊎ ((i : ℕ) × ((accept_input true true 12 pairs).1 ≡ some i)
        × Paired 12 i pairs (accept_input true true 12 pairs).0)
accept_input-Paired_example = accept_input-Paired true true 12 pairs

free_place : get_free_output_socket pairs.sockets ≡ some 1
unfolding get_free_output_socket find_socket
free_place = refl

-- The search starts at a random place, here the second of two.
get_free_input_socket-wraps : get_free_input_socket 7 pairs.sockets ≡ some 1
unfolding get_free_input_socket probe
get_free_input_socket-wraps = refl
