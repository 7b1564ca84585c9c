-- ===== src/Client/Writer.antt =====
-- `server_output_thread` of client/proxy/client/proxy_client.c: the connection to the device's target and
-- the loop that passes what the target sends to the server.
use net_port.Base.{ℕ, Bool, true, false, not, List, ◌++◌, Option, none, some, if◌then◌else◌}
use net_port.Client.Pump.{to_server}
use net_port.Client.Side.{
  Side, Handshake, Received, told_to_stop, timed_out, select_failed, quiet, hung_up, tls_failed,
  chunk, Turn, After, goes_on, leaves, restarts, returns, open_side, close_side, free_side,
  return_side, shake_side, and_then, behind_loop, turns_of,
}
pub mod Flags
pub mod Laws

-- `init_output_sockets` fails, with a descriptor left or none, `connect` fails, or it succeeds.
pub data Target : Type 0 where
  no_target : Option ℕ → Target
  refused reached : ℕ → Target

-- A run of the thread: what it meets, and where it sees a stop.
pub record Run : Type 0 where
  pub target : Target
  pub stop_before_tls : Bool
  pub handshake : Handshake
  pub stop_in_pause : Bool
  pub turns : List Turn

-- The body of the loop.
unfoldable pub writer_turn : Turn → Received → Side → Side × After
writer_turn t told_to_stop s = (s, leaves)
writer_turn t timed_out s = (s, leaves)
writer_turn t select_failed s = (s, leaves)
writer_turn t quiet s = (s, goes_on)
writer_turn t hung_up s = (s, leaves)
writer_turn t tls_failed s = (free_side s, leaves)
writer_turn t (chunk c) s =
    let sent = to_server c t.writes s.counters in
    if t.other_runs
    then (record s { written = s.written ++ sent.0.written; counters = sent.1 }, goes_on)
    else (s, leaves)

-- After a failed handshake the thread returns; only if it sees a stop does it clear its flags.
unfoldable pub return_after : Bool → Side × Bool → Side × After
return_after stop_in_pause (s, true) = (s, goes_on)
return_after stop_in_pause (s, false) = ((if stop_in_pause then return_side s else s), returns)

-- The TLS part.
unfoldable pub start_output_tls : Bool → Run → Side → Side × After
start_output_tls enable_output_ssl x s =
    if not enable_output_ssl
    then (s, goes_on)
    else if x.stop_before_tls
    then (return_side s, returns)
    else return_after x.stop_in_pause (shake_side x.handshake s)

-- Behind the loop.
unfoldable pub finish_writer : Bool → Side → Side × After
finish_writer enable_output_ssl s = (
  record (close_side (if enable_output_ssl then free_side s else s)) {
    is_running = false;
    is_starting = false;
    stop_running_output = false;
  },
  returns,
)

unfoldable pub write_loop : Bool → Run → Side → Side × After
write_loop enable_output_ssl x s =
    let begun : Side = record s { is_running = true; is_starting = false } in
    behind_loop (turns_of writer_turn x.turns begun) (finish_writer enable_output_ssl)

unfoldable pub reach_target : Bool → Run → Target → Side → Side × After
reach_target enable_output_ssl x (no_target left) s =
    (record (open_side left s) { is_running = false }, returns)
reach_target enable_output_ssl x (refused fd) s =
    (record (close_side (open_side (some fd) s)) { is_running = false }, returns)
reach_target enable_output_ssl x (reached fd) s =
    and_then (start_output_tls enable_output_ssl x (open_side (some fd) s))
      (write_loop enable_output_ssl x)

-- The whole thread.
unfoldable pub server_output_thread : Bool → Run → Side → Side × After
server_output_thread enable_output_ssl x s = reach_target enable_output_ssl x x.target s
