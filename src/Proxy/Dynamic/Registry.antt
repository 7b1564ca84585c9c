-- ===== src/Proxy/Dynamic/Registry.antt =====
-- The registry of running servers in server/proxy/server/proxy_server.c: a new entry, and the search
-- for one that works.
use net_port.Base.{
  ℕ, ◌+◌, Bool, true, false, not, ◌&&◌, List, [], ◌∷◌, Option, none, some, Str, str_eq, get_elem?,
  set, take, ◌==◌, if◌then◌else◌,
}
use net_port.Proxy.Dynamic.State.{Server, Runtime, Slot, device_id_max}
use net_port.Proxy.Dynamic.Stop.{same_ports, release}

-- The first slot that is not active.
unfoldable pub free_slot : List Slot → Option ℕ
free_slot [] = none
free_slot (slot ∷ slots) =
    let rest = free_slot slots in
    if not slot.active then some 0 else elim rest [ none ↦ none | some i ↦ some (i + 1) ]

-- The slot is active for the server of this index under another name.
abbrev pub is_stale : Str → ℕ → Slot → Bool
is_stale device_id server_index slot =
    slot.active && (slot.server_index == server_index) && not (str_eq slot.device_id device_id)

-- The inner loop: it clears every stale slot but the new one.
unfoldable pub clear_stale : Str → ℕ → List Slot → List Slot
clear_stale device_id server_index [] = []
clear_stale device_id server_index (slot ∷ slots) =
    (if is_stale device_id server_index slot then release slot else slot)
    ∷ clear_stale device_id server_index slots

-- `register_dynamic_server_runtime`. The inner loop leaves the new slot out, so it is written last
-- here.
unfoldable pub register_dynamic_server_runtime : Str → ℕ → ℕ → ℕ → ℕ → List Slot → List Slot
register_dynamic_server_runtime device_id input_port tunnel_port server_index p slots =
    elim (free_slot slots) [
      | none ↦ slots
      | some i ↦ set (clear_stale device_id server_index slots) i (record {
        device_id = take device_id_max device_id;
        input_port = input_port;
        tunnel_port = tunnel_port;
        server_index = server_index;
        connections_data = some p;
        active = true;
      })
    ]

-- `fd` is a listening socket: `accepts` is what `getsockopt(SO_ACCEPTCONN)` says of a descriptor.
abbrev pub listens : (ℕ → Bool) → Option ℕ → Bool
listens accepts none = false
listens accepts (some fd) = accepts fd

-- `is_runtime_listener_active`.
unfoldable pub is_runtime_listener_active : (ℕ → Bool) → ℕ → Bool → Server → Bool
is_runtime_listener_active accepts port is_tunnel s =
    let fd = if is_tunnel then s.output else s.input in
    let running = if is_tunnel then s.is_output_running else s.is_input_running in
    let bound_port = if is_tunnel then s.output_port else s.input_port in
    s.enable && running && (bound_port == port) && listens accepts fd

abbrev bool_eq : Bool → Bool → Bool
bool_eq a b = if a then b else not b

-- `dynamic_runtime_ssl_matches`.
unfoldable pub dynamic_runtime_ssl_matches : Bool → Bool → Server → Bool
dynamic_runtime_ssl_matches enable_input_ssl enable_tunnel_ssl s =
    bool_eq s.enable_input_ssl enable_input_ssl && bool_eq s.enable_output_ssl enable_tunnel_ssl

-- The test of `find_healthy_dynamic_server` on a runtime; the two listener tests cover the flags and
-- the descriptors.
unfoldable pub is_healthy : (ℕ → Bool) → ℕ → ℕ → Bool → Bool → Server → Bool
is_healthy accepts input_port tunnel_port enable_input_ssl enable_tunnel_ssl s =
    dynamic_runtime_ssl_matches enable_input_ssl enable_tunnel_ssl s
    && is_runtime_listener_active accepts input_port false s
    && is_runtime_listener_active accepts tunnel_port true s

unfoldable pub slot_healthy : (ℕ → Bool) → ℕ → ℕ → Bool → Bool → List Runtime → Slot → Bool
slot_healthy accepts input_port tunnel_port enable_input_ssl enable_tunnel_ssl heap slot =
    let alive : Bool = elim slot.connections_data [
      | none ↦ false
      | some p ↦ elim (get_elem? heap p) [
        | none ↦ false
        | some rt ↦
            is_healthy accepts input_port tunnel_port enable_input_ssl enable_tunnel_ssl rt.server
      ]
    ] in
    slot.active && same_ports input_port tunnel_port slot && alive

-- `find_healthy_dynamic_server`: the index of the server.
unfoldable pub find_healthy_dynamic_server :
    (ℕ → Bool) → ℕ → ℕ → Bool → Bool → List Runtime → List Slot → Option ℕ
find_healthy_dynamic_server accepts ip tp input_ssl tunnel_ssl heap [] = none
find_healthy_dynamic_server accepts ip tp input_ssl tunnel_ssl heap (slot ∷ slots) =
    if slot_healthy accepts ip tp input_ssl tunnel_ssl heap slot
    then some slot.server_index
    else find_healthy_dynamic_server accepts ip tp input_ssl tunnel_ssl heap slots
