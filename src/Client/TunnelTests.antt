-- ===== src/Client/TunnelTests.antt =====
-- Concrete cases of the theorems on the tunnel of client/proxy/client/proxy_client.c.
use net_port.Base.{refl, Bool, true, false, List, [], ◌∷◌, none, some, Str, codes, All, arith}
use net_port.Proxy.Forward.Laws.{Delivers}
use net_port.Client.Exchange.{Counters}
use net_port.Client.Pump.{Write, wrote, want, failed, would_block, pump}
use net_port.Client.Pump.Laws.{pump-Delivers}
use net_port.Client.Report.{sent, received, Beat, answer_lost, confirmed}
use net_port.Client.Tunnel.{Connection, runs, Restart, Client}
use net_port.Client.Connect.{Round, connect_loop}
use net_port.Client.Connect.Laws.{Backoff, Allowed, connect_loop-Backoff}

abbrev hello : Str
hello = codes "hello"

abbrev two_writes : List (Write × Bool)
two_writes = (wrote 2, true) ∷ (want, true) ∷ (would_block false, true) ∷ (wrote 3, true) ∷ []

pump-Delivers_example : Delivers hello 0 5 (pump hello 0 5 two_writes)
pump-Delivers_example = pump-Delivers hello two_writes (omega arith, (omega arith, tt))

abbrev no_counts : Counters
no_counts = record { bytes_sent = 0; bytes_received = 0; active_connections = 1 }

abbrev chunks : List (Str × List (Write × Bool))
chunks = (hello, two_writes) ∷ (hello, (wrote 2, true) ∷ (failed, true) ∷ []) ∷ []

-- A heartbeat whose answer is lost, and one that is confirmed.
abbrev beats : List Beat
beats =
    record {
      earlier = sent 100 ∷ [];
      meanwhile = sent 30 ∷ received 5 ∷ [];
      exchanged = answer_lost;
    }
    ∷ record { earlier = sent 7 ∷ []; meanwhile = sent 4 ∷ []; exchanged = confirmed }
    ∷ []

abbrev busy : Connection
busy = record {
  input = some 5;
  is_starting_input = false;
  is_running_input = true;
  stop_running_input = false;
  output = none;
  is_starting_output = false;
  is_running_output = false;
  stop_running_output = false;
  threads = 1;
}

abbrev prompt : Restart
prompt = record { in_time = true; start = runs; fd = 9 }

abbrev with_tls : Client
with_tls = record {
  settings = record {
    input_address = [];
    input_port = 6001;
    output_address = [];
    output_port = 22;
    enable_ssl = true;
    ca_file = codes "ca.pem";
  };
  enable_output_ssl = false;
  ssl_ctx = none;
  connections = none;
}

abbrev refused_round : Round
refused_round = record {
  stop_at_head = false;
  revoked = false;
  stop_in_pause = false;
  still_revoked = false;
  reopened = true;
  connects = false;
  stop_in_sleep = false;
  remade = true;
  remade_fd = some 6;
  reopened_fd = none;
}

abbrev rounds : List Round
rounds = refused_round ∷ refused_round ∷ record refused_round { connects = true } ∷ []

connect_loop-Backoff_example :
    All Backoff (connect_loop 1 rounds).0 × Allowed (connect_loop 1 rounds).1
connect_loop-Backoff_example = connect_loop-Backoff 1 rounds refl
