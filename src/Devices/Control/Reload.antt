-- ===== src/Devices/Control/Reload.antt =====
-- What a TLS reload leaves, in server/proxy/server/device_manager.c.
use net_port.Base.{ℕ, ◌≡◌, Bool, true, get_elem?, some, Str}
use net_port.Proxy.Dynamic.State.{Slot, Registry}
use net_port.Proxy.Dynamic.Stop.{release}
use net_port.Proxy.Dynamic.Start.{Request, ensure_dynamic_server_for_device}
use net_port.Proxy.Dynamic.Healthy.{Serving}
use net_port.Devices.Pending.Laws.{waits}
use net_port.Devices.Control.{Control, Answers, tunnel_of}

abbrev pub Restarted : Answers → Str → ℕ → Control → Type 0
Restarted ans d port st =
    Serving ans.env.accepts port (tunnel_of port) st.registry.machine.heap
    × (waits d st.pending ≡ true)

-- What the device asks for: the ports of its session, with the TLS flags of its row.
abbrev pub asked : Str → ℕ → Bool × Bool → Request
asked d port flags = record {
  device_id = d;
  input_port = port;
  tunnel_port = tunnel_of port;
  input_ssl = flags.0;
  tunnel_ssl = flags.1;
}

-- `r` is what starting the server of a request leaves of a registry in which a slot has been released.
pub record StartedAfter (ans : Answers) (q : Request) (i : ℕ) (slot : Slot) (r : Registry)
    : Type 0 where
  pub stopped : Registry
  pub released : get_elem? stopped.slots i ≡ some (release slot)
  pub started : (ensure_dynamic_server_for_device ans.env q stopped).0 ≡ r
