-- ===== src/Client/ReaderTests.antt =====
-- Concrete cases of the theorems on the threads of client/proxy/client/proxy_client.c.
use net_port.Base.{
  ◌⊎◌, ℕ, ◌≡◌, refl, true, false, List, [], ◌∷◌, ◌++◌, none, some, Str, codes, map, arith,
}
use net_port.Client.Pump.{Write, wrote, want, failed}
use net_port.Client.Pump.Laws.{as_rounds}
use net_port.Client.Side
use net_port.Client.Side.{
  Side, established, Received, told_to_stop, quiet, hung_up, tls_failed, chunk, Turn, After,
  returns,
}
use net_port.Client.Reader.{Session, no_socket, ready, server_input_thread}
use net_port.Client.Reader.Leak.{connects, visit, object_of, server_input_thread-frees_none}
use net_port.Client.Reader.Counts.{IsCounted, server_input_thread-IsCounted}
use net_port.Client.Writer.{Run, reached, server_output_thread}
use net_port.Client.Writer.Flags.{fails_to_start}
use net_port.Client.Writer.Laws.{IsAtRest, server_output_thread-IsAtRest}

abbrev hello : Str
hello = codes "hello"

abbrev fresh : Side
fresh = record {
  fd = none;
  ssl = none;
  is_starting = true;
  is_running = false;
  stop_running_output = false;
  opened = [];
  closed = [];
  made = [];
  freed = [];
  written = [];
  counters = record { bytes_sent = 0; bytes_received = 0; active_connections = 1 };
}

-- A round with a chunk that is written in two parts, one with a chunk that is cut, and rounds without.
abbrev whole : Turn
whole = record {
  received = chunk hello;
  other_idle = true;
  other_runs = true;
  writes = (wrote 2, true) ∷ (want, true) ∷ (wrote 3, true) ∷ [];
}

abbrev cut : Turn
cut = record {
  received = chunk hello;
  other_idle = false;
  other_runs = true;
  writes = (wrote 2, true) ∷ (failed, true) ∷ [];
}

abbrev meets : Received → Turn
meets r = record { received = r; other_idle = false; other_runs = true; writes = [] }

-- A connection over TLS that is made at the second attempt and breaks, and one that runs until the thread is stopped.
abbrev broken_session : Session
broken_session = record {
  stop_at_head = false;
  socket = ready (some 7);
  rounds = record connects { connects = false; remade = true; remade_fd = some 6 } ∷ connects ∷ [];
  stop_before_tls = false;
  handshake = established 70;
  stop_in_pause = false;
  turns = whole ∷ meets quiet ∷ meets tls_failed ∷ [];
  stop_at_end = false;
}

abbrev failed_session : Session
failed_session = record broken_session {
  socket = ready (some 8);
  rounds = connects ∷ [];
  handshake = Side.failed 80;
}

abbrev last_session : Session
last_session = record broken_session {
  socket = ready (some 9);
  rounds = connects ∷ [];
  handshake = established 90;
  turns = cut ∷ whole ∷ meets told_to_stop ∷ [];
  stop_at_end = true;
}

abbrev sessions : List Session
sessions = broken_session ∷ failed_session ∷ last_session ∷ []

sessions_run :
    ((server_input_thread true sessions fresh).1 ≡ returns)
    × ((server_input_thread true sessions fresh).0.closed ≡ 7 ∷ 6 ∷ 8 ∷ 9 ∷ [])
    × ((server_input_thread true sessions fresh).0.freed ≡ 70 ∷ 80 ∷ 90 ∷ [])
    × ((server_input_thread true sessions fresh).0.written ≡ hello ++ (codes "he" ++ hello))
    × ((server_input_thread true sessions fresh).0.counters.bytes_received ≡ 10)
unfolding server_input_thread net_port.Client.Reader.connect_side net_port.Client.Reader.round_side
    net_port.Client.Reader.attempt_side net_port.Client.Connect.next_backoff
    net_port.Client.Reader.go_round net_port.Client.Reader.session
    net_port.Client.Reader.open_session net_port.Client.Reader.after_connect
    net_port.Client.Connect.connect_loop net_port.Client.Connect.go_on
    net_port.Client.Connect.connect_round net_port.Client.Connect.attempt
    net_port.Client.Reader.start_tls net_port.Client.Reader.pause_after
    net_port.Client.Reader.read_loop net_port.Client.Reader.finish_reader
    net_port.Client.Reader.reader_turn net_port.Client.Reader.give_up
    net_port.Client.Reader.start_output Side.and_then Side.behind_loop Side.turns_of Side.shake_side
    Side.open_side Side.close_side Side.free_side Side.return_side net_port.Client.Pump.to_target
    net_port.Client.Pump.pump net_port.Client.Pump.client_traffic_add_received
sessions_run = (refl, refl, refl, refl, refl)

server_input_thread-IsCounted_example : IsCounted fresh (server_input_thread true sessions fresh).0
unfolding as_rounds
server_input_thread-IsCounted_example = server_input_thread-IsCounted true sessions fresh (
  ((omega arith, (omega arith, tt)), (tt, (tt, tt))),
  (
    ((omega arith, (omega arith, tt)), (tt, (tt, tt))),
    (((omega arith, tt), ((omega arith, (omega arith, tt)), (tt, tt))), tt),
  ),
)

abbrev visits : List (ℕ × ℕ)
visits = (7, 70) ∷ (7, 71) ∷ []

server_input_thread-frees_none_example :
    ((server_input_thread true (map visit visits) fresh).0.made ≡ [] ++ map object_of visits)
    × ((server_input_thread true (map visit visits) fresh).0.freed ≡ [])
    × ((server_input_thread true (map visit visits) fresh).1 ≡ Side.restarts)
server_input_thread-frees_none_example = server_input_thread-frees_none visits fresh

abbrev one_run : Run
one_run = record {
  target = reached 5;
  stop_before_tls = false;
  handshake = established 50;
  stop_in_pause = false;
  turns = whole ∷ meets quiet ∷ meets hung_up ∷ [];
}

server_output_thread-IsAtRest_example :
    IsAtRest (server_output_thread true one_run fresh).0
    × ((fails_to_start true one_run (reached 5) ≡ true)
        ⊎ ((server_output_thread true one_run fresh).0.is_starting ≡ false))
unfolding server_output_thread net_port.Client.Writer.reach_target
    net_port.Client.Writer.start_output_tls net_port.Client.Writer.return_after
    net_port.Client.Writer.write_loop net_port.Client.Writer.finish_writer
    net_port.Client.Writer.writer_turn Side.and_then Side.behind_loop Side.turns_of Side.shake_side
server_output_thread-IsAtRest_example =
    server_output_thread-IsAtRest true one_run fresh tt
      (record {
        shut = refl;
        no_tls = refl;
        all_closed = refl;
        all_freed = refl;
        not_running = refl;
      })
      refl
