-- ===== src/Proxy/Dynamic/Isolation.antt =====
-- Whom a stop for one device touches, in server/proxy/server/proxy_server.c.
use net_port.Base.{
  ℕ, ◌≡◌, ◌≢◌, refl, ◌∙◌, Bool, true, false, not, ◌&&◌, List, [], ◌∷◌, Option, none, some, inl, inr,
  map, Str, str_eq_iff, get_elem?, get_elem?-map, get_elem?-set_other, arith, if◌then◌else◌,
  Bool-cases, Option-cases,
}
use net_port.Proxy.Dynamic.State.{Runtime, Slot, Machine, Registry, named}
use net_port.Proxy.Dynamic.Closing.{ClosesOwn, stop_slots-ClosesOwn}
use net_port.Proxy.Dynamic.Stop.{
  Ends, refuses, stop_dynamic_server_runtime, same_ports, slot_matches, owned_elsewhere, release,
  stop_slot, stop_slots, stop_dynamic_runtimes_for_device,
}

-- What the loop leaves of a slot.
abbrev pub released : (Slot → Bool) → Slot → Slot
released chosen slot = elim slot.connections_data [
  | none ↦ slot
  | some p ↦ if chosen slot then release slot else slot
]

stop_slot-released :
    (env : Ends) (chosen : Slot → Bool) (slot : Slot) (m : Machine)
    → (stop_slot env chosen slot m).0 ≡ released chosen slot
unfolding stop_slot
stop_slot-released env chosen slot m = ground arith

stop_slots-map :
    (env : Ends) (chosen : Slot → Bool) (slots : List Slot) (m : Machine)
    → (stop_slots env chosen slots m).0 ≡ map (released chosen) slots
unfolding stop_slots
stop_slots-map env chosen [] m = refl
stop_slots-map env chosen (slot ∷ slots) m =
    rw (stop_slot-released env chosen slot m, stop_slots-map env chosen slots _) refl

-- The test of `stop_dynamic_runtimes_for_device`.
abbrev pub chosen_for : Str → ℕ → ℕ → Registry → Slot → Bool
chosen_for device_id ip tp r slot =
    slot_matches device_id ip tp slot && not (owned_elsewhere r slot)

-- A stop for a device leaves every slot of another name as it is.
pub stop_spares_slot :
    (env : Ends) (device_id : Str) (ip tp : ℕ) (r : Registry) (i : ℕ) (slot : Slot)
    → named device_id ≡ true
    → get_elem? r.slots i ≡ some slot
    → slot.device_id ≢ device_id
    → get_elem? (stop_dynamic_runtimes_for_device env device_id ip tp r).slots i ≡ some slot
unfolding stop_dynamic_runtimes_for_device slot_matches
stop_spares_slot env device_id ip tp r i slot name at other =
    rw
      (
        stop_slots-map env (chosen_for device_id ip tp r) r.slots r.machine,
        get_elem?-map (released (chosen_for device_id ip tp r)) r.slots i at,
      )
      (ground (arith, str_eq_iff slot.device_id device_id))

-- A stop for a device and its two ports takes the runtime out of every slot of that name and ports,
-- unless the slot's server has been given to another device.
pub stop_releases :
    (env : Ends) (device_id : Str) (ip tp : ℕ) (r : Registry) (i p : ℕ) (slot : Slot)
    → named device_id ≡ true
    → get_elem? r.slots i ≡ some slot
    → slot.connections_data ≡ some p
    → slot.device_id ≡ device_id
    → same_ports ip tp slot ≡ true
    → owned_elsewhere r slot ≡ false
    → get_elem? (stop_dynamic_runtimes_for_device env device_id ip tp r).slots i
      ≡ some (release slot)
unfolding stop_dynamic_runtimes_for_device slot_matches
stop_releases env device_id ip tp r i p slot name at held same ports own =
    rw
      (
        stop_slots-map env (chosen_for device_id ip tp r) r.slots r.machine,
        get_elem?-map (released (chosen_for device_id ip tp r)) r.slots i at,
      )
      (ground (arith, held, ports, own, str_eq_iff slot.device_id device_id))

stop_runtime_spares :
    (env : Ends) (ptr : Option ℕ) (device_id : Str) (m : Machine) (p : ℕ) (rt : Runtime)
    → get_elem? m.heap p ≡ some rt
    → refuses device_id rt ≡ true
    → get_elem? (stop_dynamic_server_runtime env ptr device_id m).heap p ≡ some rt
unfolding stop_dynamic_server_runtime
stop_runtime_spares env none device_id m p rt at spared = at
stop_runtime_spares env (some q) device_id m p rt at spared =
    elim (Option-cases (get_elem? m.heap q)) [
      | inl dangling ↦ rw (dangling, stop_dynamic_server_runtime) at
      | inr (x, there) ↦ elim (Bool-cases (refuses device_id x)) [
        | inl kept ↦ rw (there, stop_dynamic_server_runtime, kept) at
        | inr shut ↦
            rw (there, stop_dynamic_server_runtime, shut)
              (get_elem?-set_other m.heap q p _ (λ e. ground (arith, e, at, there, spared, shut))
                ∙ at)
      ]
    ]

stop_slot_spares :
    (env : Ends) (chosen : Slot → Bool) (device_id : Str) (slot : Slot) (m : Machine) (p : ℕ)
    (rt : Runtime)
    → (chosen slot ≡ true → slot.device_id ≡ device_id)
    → get_elem? m.heap p ≡ some rt
    → refuses device_id rt ≡ true
    → get_elem? (stop_slot env chosen slot m).1.heap p ≡ some rt
unfolding stop_slot
stop_slot_spares env chosen device_id slot m p rt only at spared =
    elim (Option-cases slot.connections_data) [
      | inl empty ↦ rw (empty, stop_slot) at
      | inr (q, held) ↦ elim (Bool-cases (chosen slot)) [
        | inr passed ↦ rw (held, stop_slot, passed) at
        | inl stopped ↦
            rw (held, stop_slot, stopped)
              (stop_runtime_spares env (some q) slot.device_id m p rt at (rw (only stopped) spared))
      ]
    ]

stop_slots_spares :
    (env : Ends) (chosen : Slot → Bool) (device_id : Str) (slots : List Slot) (m : Machine) (p : ℕ)
    (rt : Runtime)
    → ((slot : Slot) → chosen slot ≡ true → slot.device_id ≡ device_id)
    → get_elem? m.heap p ≡ some rt
    → refuses device_id rt ≡ true
    → get_elem? (stop_slots env chosen slots m).1.heap p ≡ some rt
unfolding stop_slots
stop_slots_spares env chosen device_id [] m p rt only at spared = at
stop_slots_spares env chosen device_id (slot ∷ slots) m p rt only at spared =
    stop_slots_spares env chosen device_id slots _ p rt only
      (stop_slot_spares env chosen device_id slot m p rt (only slot) at spared) spared

-- A stop for a named device leaves the record of a runtime that serves another device as it was.
pub stop_keeps_runtime :
    (env : Ends) (device_id : Str) (ip tp : ℕ) (r : Registry) (p : ℕ) (rt : Runtime)
    → named device_id ≡ true
    → get_elem? r.machine.heap p ≡ some rt
    → named rt.server.device_id ≡ true
    → rt.server.device_id ≢ device_id
    → get_elem? (stop_dynamic_runtimes_for_device env device_id ip tp r).machine.heap p ≡ some rt
unfolding stop_dynamic_runtimes_for_device slot_matches refuses
stop_keeps_runtime env device_id ip tp r p rt name at other_name other =
    stop_slots_spares env (chosen_for device_id ip tp r) device_id r.slots r.machine p rt
      (λ slot chosen. ground (arith, chosen, name, str_eq_iff slot.device_id device_id)) at
      (ground (arith, name, other_name, other, str_eq_iff rt.server.device_id device_id))

-- A stop for a device leaves the record of every runtime that serves another device as it was, with its
-- flags, its descriptors, its pairs and its TLS context, even where a slot of the stopped device points
-- to it; and it closes only descriptors that are recorded in runtimes without a name or with the name of
-- the stopped device. Both devices have a name.
pub stop_spares_runtime :
    (env : Ends) (device_id : Str) (ip tp : ℕ) (r : Registry) (p : ℕ) (rt : Runtime)
    → named device_id ≡ true
    → get_elem? r.machine.heap p ≡ some rt
    → named rt.server.device_id ≡ true
    → rt.server.device_id ≢ device_id
    → (get_elem? (stop_dynamic_runtimes_for_device env device_id ip tp r).machine.heap p ≡ some rt)
      × ClosesOwn device_id r.machine.heap r.machine.closed
          (stop_dynamic_runtimes_for_device env device_id ip tp r).machine.closed
unfolding stop_dynamic_runtimes_for_device slot_matches
stop_spares_runtime env device_id ip tp r p rt name at other_name other = (
  stop_keeps_runtime env device_id ip tp r p rt name at other_name other,
  stop_slots-ClosesOwn env (chosen_for device_id ip tp r) device_id r.slots r.machine.heap r.machine
      (λ slot chosen. ground (arith, chosen, name, str_eq_iff slot.device_id device_id))
      (λ q x there. inl there),
)
