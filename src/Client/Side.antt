-- ===== src/Client/Side.antt =====
-- What `server_input_thread` and `server_output_thread` of client/proxy/client/proxy_client.c have in
-- common: the descriptor and the TLS object of their side, and what one round of their loops meets.
use net_port.Base.{ℕ, Bool, true, false, List, [], ◌∷◌, ◌++◌, Option, none, some, Str}
use net_port.Proxy.Dynamic.Stop.{descriptor}
use net_port.Client.Exchange.{Counters}
use net_port.Client.Pump.{Write}
pub mod Laws

-- `input` or `output` of `proxy_server_connection_t` with its TLS object and its flags; which descriptors
-- and objects the thread has had and which it has closed and freed; what it has written to the other side;
-- and the counters.
pub record Side : Type 0 where
  pub fd : Option ℕ
  pub ssl : Option ℕ
  pub is_starting : Bool
  pub is_running : Bool
  pub stop_running_output : Bool
  pub opened : List ℕ
  pub closed : List ℕ
  pub made : List ℕ
  pub freed : List ℕ
  pub written : Str
  pub counters : Counters

-- `SSL_new` gives no object, or the object has a handshake that fails or succeeds.
pub data Handshake : Type 0 where
  no_object : Handshake
  failed established : ℕ → Handshake

-- What a round meets, in the order of its tests: the stop flag, before or after `select`; too long without
-- an exchange; an error of `select`; no data, or TLS that wants more; the end of the connection or an
-- error of `recv`; an error of TLS; or a chunk.
pub data Received : Type 0 where
  told_to_stop timed_out select_failed quiet hung_up tls_failed : Received
  chunk : Str → Received

-- `other_idle` says that the other thread neither runs nor starts when a chunk is there, `other_runs` that
-- it comes to run before the wait for it ends; that of the output thread ends when it sees a stop.
pub record Turn : Type 0 where
  pub received : Received
  pub other_idle : Bool
  pub other_runs : Bool
  pub writes : List (Write × Bool)

-- How a part of a thread ends: with the next statement, with the one behind the loop, at
-- `restart_input_thread`, or with `return`.
pub data After : Type 0 where
  goes_on leaves restarts returns : After

unfoldable pub open_side : Option ℕ → Side → Side
open_side fd s = record s { fd = fd; opened = s.opened ++ descriptor fd }

unfoldable pub close_side : Side → Side
close_side s = record s { closed = s.closed ++ descriptor s.fd; fd = none }

unfoldable pub free_side : Side → Side
free_side s = record s { freed = s.freed ++ descriptor s.ssl; ssl = none }

-- The descriptor is closed and the flags are cleared.
unfoldable pub return_side : Side → Side
return_side s = record (close_side s) { is_starting = false; is_running = false }

-- `SSL_new` and `SSL_connect`: whether they succeed. If not, the object is freed and the descriptor closed.
unfoldable pub shake_side : Handshake → Side → Side × Bool
shake_side no_object s = (record (close_side s) { ssl = none }, false)
shake_side (failed ssl) s =
    (close_side (free_side (record s { ssl = some ssl; made = s.made ++ (ssl ∷ []) })), false)
shake_side (established ssl) s = (record s { ssl = some ssl; made = s.made ++ (ssl ∷ []) }, true)

-- What follows a part that goes on, and a loop that is left.
unfoldable pub and_then : Side × After → (Side → Side × After) → Side × After
and_then (s, goes_on) f = f s
and_then (s, leaves) f = (s, leaves)
and_then (s, restarts) f = (s, restarts)
and_then (s, returns) f = (s, returns)

unfoldable pub behind_loop : Side × After → (Side → Side × After) → Side × After
behind_loop (s, goes_on) f = (s, goes_on)
behind_loop (s, leaves) f = f s
behind_loop (s, restarts) f = (s, restarts)
behind_loop (s, returns) f = (s, returns)

-- The rounds of a loop with the body `turn`.
unfoldable pub turns_of : (Turn → Received → Side → Side × After) → List Turn → Side → Side × After
turns_of turn [] s = (s, goes_on)
turns_of turn (t ∷ ts) s = and_then (turn t t.received s) (turns_of turn ts)
