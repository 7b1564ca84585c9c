-- ===== src/Client/Reader/Leak.antt =====
-- What `server_input_thread` of client/proxy/client/proxy_client.c does with its TLS objects.
use net_port.Base.{none, ℕ, ◌≡◌, refl, sym, ◌∙◌, true, false, List, [], ◌∷◌, ◌++◌, some, map}
use mathlib.Core.List.{append-nil, append_assoc}
use net_port.Client.Connect.{connect_loop, connect_round, attempt, go_on, next_backoff}
use net_port.Client.Connect
use net_port.Client.Side.{
  Side, established, hung_up, Turn, restarts, open_side, close_side, shake_side, and_then,
  behind_loop, turns_of,
}
use net_port.Client.Reader.{
  ready, Session, give_up, reader_turn, pause_after, start_tls, finish_reader, read_loop,
  attempt_side, round_side, connect_side, after_connect, open_session, session, go_round,
  server_input_thread,
}

-- A round of the connection loop that connects at once.
abbrev pub connects : Connect.Round
connects = record {
  stop_at_head = false;
  revoked = false;
  stop_in_pause = false;
  still_revoked = false;
  reopened = false;
  reopened_fd = none;
  remade = false;
  remade_fd = none;
  connects = true;
  stop_in_sleep = false;
}

abbrev pub hangs_up : Turn
hangs_up = record { received = hung_up; other_idle = false; other_runs = false; writes = [] }

-- A connection over TLS, on a descriptor and with an object, that the server ends in order.
abbrev pub visit : ℕ × ℕ → Session
visit (fd, ssl) = record {
  stop_at_head = false;
  socket = ready (some fd);
  rounds = connects ∷ [];
  stop_before_tls = false;
  handshake = established ssl;
  stop_in_pause = false;
  turns = hangs_up ∷ [];
  stop_at_end = false;
}

abbrev pub object_of : ℕ × ℕ → ℕ
object_of (fd, ssl) = ssl

-- The objects of `server_input_thread` are not freed when the server ends a connection in order: after
-- any number of such connections over TLS the thread has made an object for each, has freed none, and
-- starts again.
pub server_input_thread-frees_none :
    (visits : List (ℕ × ℕ)) (s : Side)
    → ((server_input_thread true (map visit visits) s).0.made ≡ s.made ++ map object_of visits)
      × ((server_input_thread true (map visit visits) s).0.freed ≡ s.freed)
      × ((server_input_thread true (map visit visits) s).1 ≡ restarts)
unfolding server_input_thread go_round session open_session connect_side round_side attempt_side
    after_connect connect_loop connect_round attempt go_on next_backoff start_tls pause_after
    shake_side and_then behind_loop turns_of reader_turn give_up close_side open_side read_loop
    finish_reader
server_input_thread-frees_none [] s = (sym (append-nil s.made), refl, refl)
server_input_thread-frees_none ((fd, ssl) ∷ visits) s =
    let after = (session true (visit (fd, ssl)) s).0 in
    let rest = server_input_thread-frees_none visits after in
    (rest.0 ∙ append_assoc s.made (ssl ∷ []) (map object_of visits), rest.1, rest.2)
