-- ===== src/Client/Reader.antt =====
-- `server_input_thread` of client/proxy/client/proxy_client.c: from `restart_input_thread` through the
-- connection to the server and the loop that passes what the server sends to the device's target. What it
-- does to the descriptor and the TLS object of the output is left out.
use net_port.Base.{
  ℕ, Bool, true, false, not, List, [], ◌∷◌, ◌++◌, Option, none, some, if◌then◌else◌,
}
use net_port.Client.Connect.{
  Ending, connected, stopped, unfinished, Step, ends, again, connect_round, connect_loop,
}
use net_port.Client.Connect
use net_port.Client.Pump.{to_target}
use net_port.Client.Side.{
  Side, Handshake, Received, told_to_stop, timed_out, select_failed, quiet, hung_up, tls_failed,
  chunk, Turn, After, goes_on, leaves, restarts, returns, open_side, close_side, free_side,
  return_side, shake_side, and_then, behind_loop, turns_of,
}
pub mod Laws
pub mod Leak
pub mod Counts

-- `init_input_sockets` fails, with a descriptor left or none, or it leaves a descriptor with which
-- the connection loop is entered.
pub data Socket : Type 0 where
  no_socket ready : Option ℕ → Socket

-- One pass from `restart_input_thread` on, and where it sees a stop.
pub record Session : Type 0 where
  pub stop_at_head : Bool
  pub socket : Socket
  pub rounds : List Connect.Round
  pub stop_before_tls : Bool
  pub handshake : Handshake
  pub stop_in_pause : Bool
  pub turns : List Turn
  pub stop_at_end : Bool

-- `server_output_start` clears the stop flag of the output thread; the rest is in Client/Tunnel.
unfoldable pub start_output : Bool → Side → Side
start_output other_idle s = if other_idle then record s { stop_running_output = false } else s

-- Both ends of the connection are given up: the output thread is told to stop, and the descriptor closed.
unfoldable pub give_up : Side → Side
give_up s = close_side (record s { stop_running_output = true })

-- The body of the loop.
unfoldable pub reader_turn : Turn → Received → Side → Side × After
reader_turn t told_to_stop s = (s, leaves)
reader_turn t timed_out s = (give_up s, restarts)
reader_turn t select_failed s = (s, leaves)
reader_turn t quiet s = (s, goes_on)
reader_turn t hung_up s = (give_up s, restarts)
reader_turn t tls_failed s = (give_up (free_side s), restarts)
reader_turn t (chunk c) s =
    let asked = start_output t.other_idle s in
    let sent = to_target c t.writes s.counters in
    if t.other_runs
    then (record asked { written = s.written ++ sent.0.written; counters = sent.1 }, goes_on)
    else (asked, restarts)

-- The TLS part.
unfoldable pub pause_after : Bool → Side × Bool → Side × After
pause_after stop_in_pause (s, true) = (s, goes_on)
pause_after stop_in_pause (s, false) =
    if stop_in_pause then (return_side s, returns) else (s, restarts)

unfoldable pub start_tls : Bool → Session → Side → Side × After
start_tls enable_ssl x s =
    if not enable_ssl
    then (s, goes_on)
    else if x.stop_before_tls
    then (return_side s, returns)
    else pause_after x.stop_in_pause (shake_side x.handshake s)

abbrev pub as_running : Side → Side
as_running s = record s { is_running = true; is_starting = false }

-- Behind the loop.
unfoldable pub finish_reader : Bool → Bool → Side → Side × After
finish_reader enable_ssl stop_at_end s =
    let left = close_side (if enable_ssl then free_side s else s) in
    if stop_at_end
    then (record left { is_running = false; is_starting = false }, returns)
    else (left, restarts)

unfoldable pub read_loop : Bool → Session → Side → Side × After
read_loop enable_ssl x s =
    behind_loop (turns_of reader_turn x.turns (as_running s))
      (finish_reader enable_ssl x.stop_at_end)

-- What the connection loop does to the descriptor in a round.
unfoldable pub attempt_side : Connect.Round → Side → Side
attempt_side r s =
    let shut = close_side s in
    if r.connects then s else if r.stop_in_sleep then shut else open_side r.remade_fd shut

unfoldable pub round_side : Connect.Round → Side → Side
round_side r s =
    let opened = open_side r.reopened_fd (close_side s) in
    if r.stop_at_head
    then s
    else if not r.revoked
    then attempt_side r s
    else if r.stop_in_pause
    then s
    else if r.still_revoked
    then s
    else if r.reopened
    then attempt_side r opened
    else opened

-- And in all its rounds.
unfoldable pub connect_side : List Connect.Round → Side → Side
connect_side [] s = s
connect_side (r ∷ rs) s =
    let after = round_side r s in
    let rest = connect_side rs after in
    elim (connect_round 1 r) [ ends e ↦ after | again slept next ↦ rest ]

-- Either way of going on.
pub step_cases :
    (P : Side → Type 0) (e : Step) (a b : Side)
    → P a
    → P b
    → P (elim e [ ends x ↦ a | again slept next ↦ b ])
step_cases P (ends x) a b h k = h
step_cases P (again slept next) a b h k = k

-- After the connection loop.
unfoldable pub after_connect : Bool → Session → Ending → Side → Side × After
after_connect enable_ssl x (connected r) s =
    and_then (start_tls enable_ssl x s) (read_loop enable_ssl x)
after_connect enable_ssl x stopped s = (return_side s, returns)
after_connect enable_ssl x unfinished s = (s, goes_on)

unfoldable pub open_session : Bool → Session → Socket → Side → Side × After
open_session enable_ssl x (no_socket left) s = (open_side left s, restarts)
open_session enable_ssl x (ready fd) s =
    after_connect enable_ssl x (connect_loop 1 x.rounds).1 (connect_side x.rounds (open_side fd s))

-- One pass. `conn->input` is set to -1 first, whatever it holds.
unfoldable pub session : Bool → Session → Side → Side × After
session enable_ssl x s =
    let head : Side = record s { fd = none } in
    if x.stop_at_head then (return_side head, returns) else open_session enable_ssl x x.socket head

-- The whole thread.
unfoldable pub go_round : Side × After → (Side → Side × After) → Side × After
go_round (s, goes_on) f = (s, goes_on)
go_round (s, leaves) f = (s, leaves)
go_round (s, restarts) f = f s
go_round (s, returns) f = (s, returns)

unfoldable pub server_input_thread : Bool → List Session → Side → Side × After
server_input_thread enable_ssl [] s = (s, restarts)
server_input_thread enable_ssl (x ∷ xs) s =
    go_round (session enable_ssl x s) (server_input_thread enable_ssl xs)
