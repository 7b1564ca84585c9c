-- ===== src/Proxy/HandlerTests.antt =====
-- Runs of the handlers of server/proxy/server/proxy_server.c and of a pair of connections.
use net_port.Base.{ℕ, ◌≡◌, refl, true, false, List, [], ◌∷◌, some, none, codes, arith}
use net_port.Proxy.Dynamic.State.{zero_server}
use net_port.Proxy.Forward.{accepted, send_loop, send_chunk}
use net_port.Switcher.{SwitcherServer}
use net_port.Switcher.Totals.{find_server_index_by_id, share_statistics, update_server_statistics}
use net_port.Proxy.Handler.{
  Pair, established, chunk, quiet, ended, Turn, connection_input_handler, handshake_input,
  shake_input, input_turn, input_turns, pass_on, count_bytes, count_connection, finish_input,
  close_input, free_input,
}
use net_port.Proxy.Handler.Ends.{IsOver, connection_input_handler-IsOver}
use net_port.Proxy.Handler.Stream.{IsPassed, stream, connection_input_handler-IsPassed}
use net_port.Proxy.Crossing.{
  accepted, called, start_input, start_output, State, initial, Reaches, here, next, accept_input,
  read_input, pass_close, pass_output, write_output, accept_output, test_passes, read_output, reads,
  has_chunk, waits, writes, holds, tests, receives, is_output_connected,
}
use net_port.Proxy.Crossing.Isolation.{upload_isolated}
use net_port.Proxy.Crossing.Leak.{chunk_for_next_client}

abbrev secure : SwitcherServer
secure = record {
  id = 1;
  server = record zero_server { enable = true; enable_input_ssl = true };
  statistics = record {
    bytes_received = 5;
    bytes_sent = 0;
    connections_count = 0;
    last_update = 0;
  };
}

abbrev new_pair : Pair
new_pair = record {
  input_local = some 8;
  output_local = some 9;
  ssl_input = none;
  ssl_output = none;
  is_input_connected = false;
  is_output_connected = true;
  close_output_socket = false;
  served = secure;
  servers = secure ∷ [];
  closed = [];
  freed = [];
  to_input = [];
  to_output = [];
}

abbrev turn : Turn
turn = record { received = quiet; now = 10; gave_up = false; rounds = []; tls_lost = false }

-- A chunk of two bytes in two writes, nothing for a while, and the end.
abbrev turns : List Turn
turns =
    record turn { received = chunk (codes "ab"); rounds = accepted 1 ∷ accepted 1 ∷ [] }
    ∷ turn
    ∷ record turn { received = ended }
    ∷ []

connection_input_handler-IsOver_example :
    IsOver new_pair (connection_input_handler (established 70) turns new_pair).0
unfolding connection_input_handler handshake_input shake_input input_turn input_turns pass_on
    count_bytes count_connection finish_input close_input free_input update_server_statistics
    send_chunk send_loop share_statistics find_server_index_by_id
connection_input_handler-IsOver_example =
    connection_input_handler-IsOver (established 70) turns new_pair refl (omega arith) refl

connection_input_handler-IsPassed_example :
    IsPassed (codes "ab") new_pair (connection_input_handler (established 70) turns new_pair).0
unfolding stream shake_input handshake_input send_chunk send_loop
connection_input_handler-IsPassed_example =
    connection_input_handler-IsPassed (established 70) turns new_pair
      (record { small = omega arith; static = refl })
      (((omega arith, (omega arith, tt)), refl), (tt, (tt, tt))) refl

abbrev uploaded : State
uploaded = record initial {
  input_at = reads;
  output_at = holds;
  input = 1;
  output = 1;
  up = (1, 1) ∷ (1, 1) ∷ [];
}

-- A chunk of the client goes to the output.
upload :
    (s : State)
    → s.input_at ≡ reads
    → s.close_output_socket ≡ false
    → is_output_connected s.output_at ≡ true
    → Reaches initial s
    → Reaches initial (record s { input_at = reads; up = (s.input, s.output) ∷ s.up })
upload s reading clear out way =
    let s1 : State = record s { input_at = has_chunk } in
    let s2 : State = record s { input_at = waits } in
    let s3 : State = record s { input_at = writes } in
    next
      (next (next (next way (read_input s reading)) (pass_close s1 refl clear))
        (pass_output s2 refl out))
      (write_output s3 refl out)

abbrev paired : State
paired = record initial { input_at = reads; output_at = receives; input = 1; output = 1 }

abbrev device_waits : State
device_waits = record initial { output_at = tests; output = 1 }

uploaded-Reaches : Reaches initial uploaded
unfolding is_output_connected
uploaded-Reaches =
    let accepted_both =
      next
        (next
          (next
            (next (next here (accept_output initial refl))
              (start_output (record device_waits { output_at = called }) refl))
            (test_passes device_waits refl refl))
          (accept_input (record device_waits { output_at = receives }) refl refl))
        (start_input (record paired { input_at = accepted }) refl) in
    let once = upload paired refl refl refl accepted_both in
    let twice = upload (record paired { up = (1, 1) ∷ [] }) refl refl refl once in
    next twice (read_output (record uploaded { output_at = receives }) refl)

upload_isolated_example : ◌≡◌ {A = ℕ} 1 1
upload_isolated_example = upload_isolated uploaded 0 1 1 1 1 uploaded-Reaches refl refl refl

chunk_for_next_client_example :
    (t : State) × Reaches uploaded t × (t.input ≡ 2) × (t.down ≡ (1, 2) ∷ []) × (t.up ≡ uploaded.up)
chunk_for_next_client_example = chunk_for_next_client uploaded refl refl
