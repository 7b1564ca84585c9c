-- ===== src/Devices/ServerTests.antt =====
-- Runs of the control server of server/proxy/server/device_manager.c.
use net_port.Base.{◌≡◌, refl, true, List, [], ◌∷◌, Option, none, some, Str, codes}
use net_port.Base.Outcome.{done, fault, ◌>>=◌}
use mathlib.Core.Logic.{◌⊎◌}
use net_port.Proxy.DynamicTests.{all_well}
use net_port.Security.RateLimit.{table_full, check_rate_limit}
use net_port.Devices.Control.{Answers}
use net_port.Devices.Json.{Json}
use net_port.Devices.ExchangeTests.{world, start}
use net_port.Devices.Server.{
  ControlServer, Conn, no_object, accepted, no_memory, control_server_thread,
}
use net_port.Devices.Server.Laws.{
  answer_all, descriptors, objects, object_of, served, control_server_thread-answer_all,
}
use net_port.Devices.Integration.Laws.{set_up_again, set_up_again_answers_nobody}

abbrev answers : Answers
answers = record {
  env = all_well;
  sessions = none;
  updates_ok = true;
  latest_port = none;
  device = none;
  send_ok = true;
}

abbrev conn : Conn
conn = record {
  fd = 20;
  client_ip = codes "10.0.0.9";
  tls = accepted 90;
  read = some (codes "ping");
  world = world;
  answers = answers;
}

abbrev conns : List (Option Conn)
conns =
    some conn
    ∷ none
    ∷ some (record conn { fd = 21; read = none })
    ∷ some (record conn { fd = 22; tls = no_object })
    ∷ []

abbrev up : ControlServer
up = record {
  enable_ssl = true;
  ssl_cert_file = codes "cert.pem";
  ssl_key_file = codes "key.pem";
  initialized = true;
  running = true;
  control_socket = some 4;
  ssl_ctx = some 77;
  manager = start;
  closed = [];
  freed = [];
}

abbrev no_json : Str → Option Json
no_json s = none

control_server_thread-answer_all_example : control_server_thread no_json conns up ≡ (
    answer_all no_json true (some 77) conns start >>= λ m.
    done (served (20 ∷ 21 ∷ 22 ∷ []) (90 ∷ 90 ∷ []) m up))
unfolding descriptors objects object_of
control_server_thread-answer_all_example = control_server_thread-answer_all no_json conns up

set_up_again_answers_nobody_example :
    let i = set_up_again no_memory true none none 5 (record { enabled = true; device = up }) in
    (i.enabled ≡ true)
    × (i.device.running ≡ true)
    × (control_server_thread no_json conns i.device
        ≡ done (served (20 ∷ 21 ∷ 22 ∷ []) [] i.device.manager i.device))
    × ((check_rate_limit (λ n. true) 9 (some (codes "k")) i.device.manager.control.security ≡ fault)
        ⊎ (check_rate_limit (λ n. true) 9 (some (codes "k")) i.device.manager.control.security
            ≡ done (i.device.manager.control.security, table_full)))
unfolding descriptors
set_up_again_answers_nobody_example =
    set_up_again_answers_nobody no_memory true none none 5 up no_json conns (λ n. true) 9
      (codes "k") refl refl refl
