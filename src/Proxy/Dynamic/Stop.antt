-- ===== src/Proxy/Dynamic/Stop.antt =====
-- How server/proxy/server/proxy_server.c stops the runtimes of a device.
use net_port.Base.{
  ℕ, Bool, true, false, not, ◌&&◌, List, [], ◌∷◌, ◌++◌, Option, none, some, Str, str_eq, get_elem?,
  set, map, ltb, ◌==◌, if◌then◌else◌,
}
use net_port.Proxy.Dynamic.State.{
  Server, LocalSocket, Runtime, Slot, Machine, Registry, named, server_at,
}

-- Whether the listener threads end while they are waited for.
pub record Ends : Type 0 where
  pub input_ends : Bool
  pub output_ends : Bool

-- What `close` is called on.
abbrev pub descriptor : Option ℕ → List ℕ
descriptor none = []
descriptor (some fd) = fd ∷ []

-- `wait_for_runtime_threads`: at most ten seconds.
unfoldable pub wait_for_runtime_threads : Ends → Server → Server
wait_for_runtime_threads env s = record s {
  is_input_running = s.is_input_running && not env.input_ends;
  is_output_running = s.is_output_running && not env.output_ends;
}

-- A server after both listeners were shut, waited for, and the context was freed.
unfoldable pub shut_server : Ends → Server → Server
shut_server env s = wait_for_runtime_threads env (record s {
  stop_input_running = true;
  stop_output_running = true;
  enable = false;
  input = none;
  output = none;
  ssl_ctx = none;
})

abbrev pub shut_socket : LocalSocket → LocalSocket
shut_socket s = record s { close_output_socket = true; input_local = none; output_local = none }

unfoldable pub socket_descriptors : List LocalSocket → List ℕ
socket_descriptors [] = []
socket_descriptors (s ∷ ss) =
    descriptor s.input_local ++ descriptor s.output_local ++ socket_descriptors ss

unfoldable pub runtime_descriptors : Runtime → List ℕ
runtime_descriptors rt =
    socket_descriptors rt.local_sockets ++ descriptor rt.server.input ++ descriptor rt.server.output

-- The guard on the names: a runtime of another device is left alone.
unfoldable pub refuses : Str → Runtime → Bool
refuses device_id rt =
    named device_id && named rt.server.device_id && not (str_eq rt.server.device_id device_id)

-- `stop_dynamic_server_runtime`.
unfoldable pub stop_dynamic_server_runtime : Ends → Option ℕ → Str → Machine → Machine
stop_dynamic_server_runtime env none device_id m = m
stop_dynamic_server_runtime env (some p) device_id m = elim (get_elem? m.heap p) [
  | none ↦ m
  | some rt ↦ if refuses device_id rt then m else record {
    heap = set m.heap p (record {
      local_sockets = map shut_socket rt.local_sockets;
      server = shut_server env rt.server;
    });
    closed = m.closed ++ runtime_descriptors rt;
    freed = m.freed ++ descriptor rt.server.ssl_ctx;
  }
]

-- The ports of a slot are those given.
unfoldable pub same_ports : ℕ → ℕ → Slot → Bool
same_ports input_port tunnel_port slot =
    slot.input_port == input_port && slot.tunnel_port == tunnel_port

-- `match` in `stop_dynamic_runtimes_for_device`.
unfoldable pub slot_matches : Str → ℕ → ℕ → Slot → Bool
slot_matches device_id input_port tunnel_port slot =
    let both = ltb 0 input_port && ltb 0 tunnel_port in
    if named device_id
    then str_eq slot.device_id device_id
      && (if both then same_ports input_port tunnel_port slot else true)
    else both && same_ports input_port tunnel_port slot

-- The server of the slot's index has the name of another device.
unfoldable pub owned_elsewhere : Registry → Slot → Bool
owned_elsewhere r slot = elim (server_at slot.server_index r) [
  | none ↦ false
  | some server ↦ named server.device_id && not (str_eq server.device_id slot.device_id)
]

-- The slot after its runtime was stopped.
abbrev pub release : Slot → Slot
release slot = record slot { active = false; connections_data = none }

-- One slot in the loops below.
unfoldable pub stop_slot : Ends → (Slot → Bool) → Slot → Machine → Slot × Machine
stop_slot env chosen slot m = elim slot.connections_data [
  | none ↦ (slot, m)
  | some p ↦
      if chosen slot
      then (release slot, stop_dynamic_server_runtime env (some p) slot.device_id m)
      else (slot, m)
]

-- The loop over the slots that stops the runtimes of those chosen.
unfoldable pub stop_slots : Ends → (Slot → Bool) → List Slot → Machine → List Slot × Machine
stop_slots env chosen [] m = ([], m)
stop_slots env chosen (slot ∷ slots) m =
    let (slot', m1) = stop_slot env chosen slot m in
    let (slots', m2) = stop_slots env chosen slots m1 in (slot' ∷ slots', m2)

-- `stop_dynamic_runtimes_for_device`.
unfoldable pub stop_dynamic_runtimes_for_device : Ends → Str → ℕ → ℕ → Registry → Registry
stop_dynamic_runtimes_for_device env device_id input_port tunnel_port r =
    let chosen : Slot → Bool =
      λ slot. slot_matches device_id input_port tunnel_port slot && not (owned_elsewhere r slot) in
    let (slots', m) = stop_slots env chosen r.slots r.machine in
    record r { slots = slots'; machine = m }

-- `stop_dynamic_server_for_device`.
unfoldable pub stop_dynamic_server_for_device :
    Ends → Option Str → ℕ → ℕ → Registry → Registry × Bool
stop_dynamic_server_for_device env none input_port tunnel_port r = (r, false)
stop_dynamic_server_for_device env (some device_id) input_port tunnel_port r =
    (stop_dynamic_runtimes_for_device env device_id input_port tunnel_port r, true)

-- The last part of `cleanup_dynamic_server_slot`, on the server itself.
unfoldable pub shut_listed : Ends → ℕ → Server → Registry → Registry
shut_listed env index server r = record r {
  servers = set r.servers index (shut_server env server);
  machine = record r.machine {
    closed = r.machine.closed ++ descriptor server.input ++ descriptor server.output;
    freed = r.machine.freed ++ descriptor server.ssl_ctx;
  };
}

-- `cleanup_dynamic_server_slot`.
unfoldable pub cleanup_dynamic_server_slot : Ends → ℕ → Registry → Registry
cleanup_dynamic_server_slot env index r = elim (server_at index r) [
  | none ↦ r
  | some server ↦
      let r' =
        stop_dynamic_runtimes_for_device env server.device_id server.input_port server.output_port
          r in
      let chosen : Slot → Bool =
        λ slot. (slot.server_index == index) && str_eq slot.device_id server.device_id in
      let (slots', m) = stop_slots env chosen r'.slots r'.machine in
      if named server.device_id
      then shut_listed env index server (record r' { slots = slots'; machine = m })
      else r
]
