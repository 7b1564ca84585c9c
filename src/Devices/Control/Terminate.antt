-- ===== src/Devices/Control/Terminate.antt =====
-- What ending a device's sessions leaves, in server/proxy/server/device_manager.c.
use net_port.Base.{ℕ, ◌≡◌, ◌≢◌, true, List, [], ◌∷◌, some, inl, inr, Str, get_elem?, Option-cases}
use net_port.Proxy.Dynamic.State.{Runtime, Registry, named}
use net_port.Proxy.Dynamic.Stop.{Ends}
use net_port.Proxy.Dynamic.Isolation.{stop_keeps_runtime}
use net_port.Devices.Control.{
  Answers, tunnel_of, ports_to_stop, stop_ports, terminate_device_by_device_id,
}

stop_ports_spares :
    (ends : Ends) (d : Str) (ports : List ℕ) (r : Registry) (p : ℕ) (rt : Runtime)
    → named d ≡ true
    → get_elem? r.machine.heap p ≡ some rt
    → named rt.server.device_id ≡ true
    → rt.server.device_id ≢ d
    → get_elem? (stop_ports ends d ports r).machine.heap p ≡ some rt
unfolding stop_ports
stop_ports_spares ends d [] r p rt name at other_name other = at
stop_ports_spares ends d (port ∷ ports) r p rt name at other_name other =
    stop_ports_spares ends d ports _ p rt name
      (stop_keeps_runtime ends d port (tunnel_of port) r p rt name at other_name other) other_name
      other

-- Ending the sessions of a device touches no runtime that serves another device, whatever the
-- database answers.
pub terminate_spares_runtime :
    (ans : Answers) (d : Str) (r : Registry) (p : ℕ) (rt : Runtime)
    → named d ≡ true
    → get_elem? r.machine.heap p ≡ some rt
    → named rt.server.device_id ≡ true
    → rt.server.device_id ≢ d
    → get_elem? (terminate_device_by_device_id ans d r).0.machine.heap p ≡ some rt
unfolding terminate_device_by_device_id
terminate_spares_runtime ans d r p rt name at other_name other = elim (Option-cases ans.sessions) [
  | inl failed ↦ rw (failed, terminate_device_by_device_id) at
  | inr ([], found) ↦
      rw (found, terminate_device_by_device_id)
        (stop_keeps_runtime ans.env.ends d 0 0 r p rt name at other_name other)
  | inr (port ∷ ports, found) ↦
      rw (found, terminate_device_by_device_id)
        (stop_ports_spares ans.env.ends d (ports_to_stop 8 (port ∷ ports)) r p rt name at other_name
          other)
]
