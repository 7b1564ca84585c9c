-- ===== src/Protocol/Tests.antt =====
-- Concrete cases of the theorems on the exchanges between the client and the server.
use net_port.Base.{
  ◌%◌, ◌≡◌, refl, ◌⊎◌, true, false, [], ◌∷◌, ◌++◌, none, some, codes, str_eq, arith,
}
use net_port.Proxy.Dynamic.State.{named}
use net_port.Devices.Json.{find_member, json_object_get, string_at}
use net_port.Devices.Session.{u32}
use net_port.Devices.Traffic.{read_traffic}
use net_port.Devices.Response.{
  Registration, TlsSettings, rate_limited, error, authenticated, alive, force_member, message,
  members, to_json,
}
use net_port.Client.Device.{
  SslContext, Device, disconnected, Options, Settings, read_authenticated, read_registration,
  device_register_until_allowed,
}
use net_port.Client.Device.Laws.{Synced, register_until_allowed-first}
use net_port.Client.Exchange.{Counters, heartbeat_request, apply_answer}
use net_port.Protocol.Registration.{Agrees, read_registration-Agrees}
use net_port.Protocol.Answers.{apply_answer-Synced}
use net_port.Protocol.Report.{read_traffic-heartbeat_request}

abbrev fresh : Device
fresh = record {
  server_host = codes "10.0.0.1";
  assigned_port = 0;
  tunnel_port = 6001;
  input_tls = false;
  tunnel_tls = false;
  internal_address = [];
  internal_port = 0;
  status = disconnected;
  session_token = [];
  registered_at = 0;
  heartbeat_interval = 0;
  config_token = [];
  config_port = 0;
  config_interval = 30;
}

abbrev options : Options
options = record {
  cli_output_host = false;
  cli_output_port = false;
  port_host_base = 16000;
  port_range_start = 6000;
  tunnel_port_override = 0;
  ca_file = codes "ca.pem";
}

abbrev plain : Settings
plain = record {
  input_address = [];
  input_port = 0;
  output_address = [];
  output_port = 0;
  enable_ssl = false;
  ca_file = [];
}

abbrev welcome : Registration
welcome = record {
  assigned_port = 6000;
  tunnel_port = 6001;
  input_tls = false;
  tunnel_tls = true;
  session_token = codes "s-1";
  heartbeat_interval = 30;
  server_time = 1001;
  internal_address = codes "192.168.1.5";
  internal_port = 22;
}

read_registration-Agrees_example :
    Agrees welcome (read_registration 1000 (to_json (authenticated welcome)) fresh).0
    × ((read_registration 1000 (to_json (authenticated welcome)) fresh).1 ≡ true)
read_registration-Agrees_example = read_registration-Agrees 1000 welcome fresh (record {
  assigned_port = omega arith;
  tunnel_port = omega arith;
  heartbeat_interval = omega arith;
  internal_port = omega arith;
  session_token = omega arith;
  internal_address = omega arith;
})

abbrev to_tls : TlsSettings
to_tls = record { input_tls = false; tunnel_tls = true; reload_tls = true }

abbrev no_context : SslContext
no_context = record { is_set = false; can_be_made = true }

apply_answer-Synced_example :
    Synced false true
      (apply_answer options no_context 1000 (to_json (alive (some to_tls) 1001)) fresh plain).0
      (apply_answer options no_context 1000 (to_json (alive (some to_tls) 1001)) fresh plain).1
    × ((true ≡ false)
        ⊎ ((apply_answer options no_context 1000 (to_json (alive (some to_tls) 1001)) fresh plain).2
            ≡ true))
unfolding named
apply_answer-Synced_example =
    apply_answer-Synced options no_context 1000 1001 to_tls fresh plain refl refl refl

abbrev counters : Counters
counters = record { bytes_sent = 1200; bytes_received = 400; active_connections = 2 }

-- What has been counted when the second object is made.
abbrev grown : Counters
grown = record { bytes_sent = 1300; bytes_received = 400; active_connections = 3 }

read_traffic-heartbeat_request_example :
    (string_at
        (codes "session_token")
        (heartbeat_request (codes "s-1") (codes "0.0") 77 counters grown)
      ≡ some (codes "s-1"))
    × (read_traffic (heartbeat_request (codes "s-1") (codes "0.0") 77 counters grown)
        ≡ (record { bytes_sent = 1200; bytes_received = 400; connections = 3 % u32 }, true))
read_traffic-heartbeat_request_example =
    read_traffic-heartbeat_request (codes "s-1") (codes "0.0") 77 counters grown

refusal : (read_registration 1000 (to_json (error rate_limited)) fresh).1 ≡ false
unfolding read_registration json_object_get find_member members force_member message str_eq
refusal = refl

permission : (read_registration 1000 (to_json (authenticated welcome)) fresh).1 ≡ true
unfolding read_registration read_authenticated json_object_get find_member members str_eq
permission = refl

register_until_allowed-first_example :
    device_register_until_allowed 1000
      ((none ∷ some (to_json (error rate_limited)) ∷ [])
        ++ some (to_json (authenticated welcome)) ∷ [])
      fresh
    ≡ ((read_registration 1000 (to_json (authenticated welcome)) fresh).0, 3, true)
register_until_allowed-first_example =
    register_until_allowed-first 1000 fresh (none ∷ some (to_json (error rate_limited)) ∷ [])
      (to_json (authenticated welcome)) [] (tt, (refusal, tt)) permission
