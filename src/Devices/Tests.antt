-- ===== src/Devices/Tests.antt =====
-- Runs of the definitions for server/proxy/server/device_manager.c, and concrete cases of the
-- theorems.
use net_port.Base.{
  ◌≢◌, ◌≡◌, refl, true, false, List, [], ◌∷◌, none, some, ◌⊎◌, Str, codes, str_eq, arith,
}
use net_port.Devices.Pending.{
  find_pending, set_tls_reload_pending, remove_at, consume_tls_reload_pending,
}
use net_port.Devices.Pending.Laws.{waits, IsValid}
use net_port.Security.State.{initial}
use net_port.Proxy.Dynamic.State.{Slot}
use net_port.Proxy.DynamicTests.{all_well, empty}
use net_port.Devices.Control.{
  Control, Answers, unauthorized, reset_rate_limits, reload_dynamic_server_tls_for_device,
  control_request,
}
use net_port.Devices.Control.Local.{IsTrusted, control_request_local}

abbrev a : Str
a = codes "a"

abbrev b : Str
b = codes "b"

abbrev c : Str
c = codes "c"

abbrev queue : List Str
queue = a ∷ b ∷ c ∷ []

consume-first : consume_tls_reload_pending a queue ≡ (c ∷ b ∷ [], true)
unfolding consume_tls_reload_pending find_pending remove_at str_eq
consume-first = refl

consume-other : consume_tls_reload_pending (codes "x") queue ≡ (queue, false)
unfolding consume_tls_reload_pending find_pending str_eq
consume-other = refl

set-again : set_tls_reload_pending b queue ≡ queue
unfolding set_tls_reload_pending find_pending str_eq
set-again = refl

queue-IsValid : IsValid queue
unfolding waits str_eq
queue-IsValid = record {
  bounded = omega arith;
  distinct = (refl, (refl, (refl, tt)));
  fitting = (omega arith, (omega arith, (omega arith, tt)));
}

-- A device with one session, whose queries and updates succeed.
abbrev answers : Answers
answers = record {
  env = all_well;
  sessions = some (9000 ∷ []);
  updates_ok = true;
  latest_port = some 9000;
  device = some (false, false);
  send_ok = true;
}

abbrev idle : Control
idle = record { registry = empty; pending = []; security = initial }

abbrev remote : Str
remote = codes "10.0.0.7"

control_request_local_example :
    ((control_request answers (some remote) reset_rate_limits none idle ≡ (idle, unauthorized))
      × ¬ IsTrusted remote)
    ⊎ (((control_request answers (some remote) reset_rate_limits none idle).1 ≢ unauthorized)
        × IsTrusted remote)
control_request_local_example = control_request_local answers remote reset_rate_limits none idle

-- A server runs for the device.
abbrev running : Control
running = record (reload_dynamic_server_tls_for_device answers (codes "cam") idle).0 {
  pending = [];
}

abbrev cam_slot : Slot
cam_slot = record {
  device_id = codes "cam";
  input_port = 9000;
  tunnel_port = 9001;
  server_index = 0;
  connections_data = some 0;
  active = true;
}
