-- ===== src/Proxy/Handler.antt =====
-- The threads of server/proxy/server/proxy_server.c that serve a pair of connections, each with what its
-- calls return: `connection_input_handler` and `connection_output_handler`.
use net_port.Base.{
  ℕ, ◌+◌, ◌-◌, ◌%◌, ◌^◌, Bool, true, false, not, ◌&&◌, ◌||◌, List, [], ◌∷◌, ◌++◌, Option, none,
  some, Str, length, if◌then◌else◌,
}
use net_port.Proxy.Dynamic.Stop.{descriptor}
use net_port.Proxy.Forward.{Round, send_chunk}
use net_port.Switcher.{Statistics, SwitcherServer}
use net_port.Switcher.Totals.{share_statistics, update_server_statistics}
pub mod Ends
pub mod Stream

-- `proxy_server_local_socket_data_t` with its TLS objects, the server of its thread, and `servers`; what
-- has been closed and freed; and what has been written to each side.
pub record Pair : Type 0 where
  pub input_local : Option ℕ
  pub output_local : Option ℕ
  pub ssl_input : Option ℕ
  pub ssl_output : Option ℕ
  pub is_input_connected : Bool
  pub is_output_connected : Bool
  pub close_output_socket : Bool
  pub served : SwitcherServer
  pub servers : List SwitcherServer
  pub closed : List ℕ
  pub freed : List ℕ
  pub to_input : Str
  pub to_output : Str

-- How the TLS handshake of a connection goes: the server has no context, there is no object, or the
-- object has a handshake that fails or succeeds.
pub data Handshake : Type 0 where
  no_context no_object : Handshake
  failed established : ℕ → Handshake

-- What `select` and the read after it give: an error of `select`; nothing yet; the end of the
-- connection; an error of TLS that frees the object; or a chunk.
pub data Received : Type 0 where
  select_failed quiet ended tls_failed : Received
  chunk : Str → Received

-- One round of a handler. `gave_up` says that a wait for the other side ended by its limit or by the
-- flag `close_output_socket`; `tls_lost` that a write failed and freed the TLS object of the other side.
pub record Turn : Type 0 where
  pub received : Received
  pub now : ℕ
  pub gave_up : Bool
  pub rounds : List Round
  pub tls_lost : Bool

unfoldable pub close_input : Pair → Pair
close_input p = record p { closed = p.closed ++ descriptor p.input_local; input_local = none }

unfoldable pub close_output : Pair → Pair
close_output p = record p { closed = p.closed ++ descriptor p.output_local; output_local = none }

unfoldable pub free_input : Pair → Pair
free_input p = record p { freed = p.freed ++ descriptor p.ssl_input; ssl_input = none }

unfoldable pub free_output : Pair → Pair
free_output p = record p { freed = p.freed ++ descriptor p.ssl_output; ssl_output = none }

-- The TLS part of `connection_input_handler`: whether the handler goes on. Without a context or an object
-- the descriptor is closed and stays in `input_local`.
unfoldable pub handshake_input : Handshake → Pair → Pair × Bool
handshake_input (established ssl) p = (record p { ssl_input = some ssl }, true)
handshake_input (failed ssl) p = (
  record (close_input (free_input (record p { ssl_input = some ssl }))) {
    is_input_connected = false;
  },
  false,
)
handshake_input _ p =
    (record p { closed = p.closed ++ descriptor p.input_local; is_input_connected = false }, false)

unfoldable pub handshake_output : Handshake → Pair → Pair × Bool
handshake_output (established ssl) p = (record p { ssl_output = some ssl }, true)
handshake_output (failed ssl) p = (
  record (close_output (free_output (record p { ssl_output = some ssl }))) {
    is_output_connected = false;
  },
  false,
)
handshake_output _ p = (
  record p { closed = p.closed ++ descriptor p.output_local; is_output_connected = false },
  false,
)

-- Only if TLS is on for the side.
unfoldable pub shake_input : Handshake → Pair → Pair × Bool
shake_input h p = if p.served.server.enable_input_ssl then handshake_input h p else (p, true)

unfoldable pub shake_output : Handshake → Pair → Pair × Bool
shake_output h p = if p.served.server.enable_output_ssl then handshake_output h p else (p, true)

abbrev pub u32 : ℕ
u32 = 2 ^ 32

-- `connections_count` goes up or down by one, modulo 2^32, for a server that is not one of a device.
unfoldable pub count_connection : ℕ → Pair → Pair
count_connection step p =
    let d : SwitcherServer = record p.served {
      statistics = record p.served.statistics {
        connections_count = (p.served.statistics.connections_count + step) % u32;
      };
    } in
    if p.served.server.is_dynamic_port
    then p
    else record p { served = d; servers = share_statistics d p.servers }

-- A chunk is counted.
unfoldable pub count_bytes : ℕ → ℕ → ℕ → Pair → Pair
count_bytes now received sent p =
    let counted = update_server_statistics now received sent p.served p.servers in
    record p { served = counted.0; servers = counted.1 }

-- A chunk read from the input side goes to the output side, and the other way round.
unfoldable pub pass_on : Turn → Str → Pair → Pair
pass_on t c p =
    let q = count_bytes t.now (length c) 0 p in
    let r : Pair = record q { to_output = q.to_output ++ (send_chunk c t.rounds).written } in
    if t.tls_lost then free_output r else r

unfoldable pub pass_back : Turn → Str → Pair → Pair
pass_back t c p =
    let q = count_bytes t.now 0 (length c) p in
    let r : Pair = record q { to_input = q.to_input ++ (send_chunk c t.rounds).written } in
    if t.tls_lost then free_input r else r

-- The body of the loop of `connection_input_handler`: whether the loop goes on.
unfoldable pub input_turn : Turn → Received → Pair → Pair × Bool
input_turn t select_failed p = (p, false)
input_turn t quiet p = (p, true)
input_turn t ended p = (p, false)
input_turn t tls_failed p = (close_input (free_input p), false)
input_turn t (chunk c) p = (pass_on t c p, not t.gave_up)

-- The body of the loop of `connection_output_handler`, below its test of `close_output_socket`.
unfoldable pub output_turn : Turn → Received → Pair → Pair × Bool
output_turn t select_failed p = (p, false)
output_turn t quiet p = (p, true)
output_turn t ended p = (p, false)
output_turn t tls_failed p = (close_output (free_output p), false)
output_turn t (chunk c) p = (pass_back t c p, not t.gave_up)

-- The loops: whether the handler has left its loop.
unfoldable pub input_turns : List Turn → Pair → Pair × Bool
input_turns [] p = (p, false)
input_turns (t ∷ ts) p =
    let after = input_turn t t.received p in
    let rest = input_turns ts after.0 in if after.1 then rest else (after.0, true)

-- Each round with what the handler reads in `close_output_socket` at its start.
unfoldable pub output_turns : List (Bool × Turn) → Pair → Pair × Bool
output_turns [] p = (p, false)
output_turns ((closing, t) ∷ ts) p =
    let after = output_turn t t.received p in
    let rest = output_turns ts after.0 in
    if closing then (p, true) else if after.1 then rest else (after.0, true)

-- What a handler does behind its loop.
unfoldable pub finish_input : Pair → Pair
finish_input p =
    count_connection (u32 - 1) (record (close_input (free_input p)) {
      close_output_socket = true;
      is_input_connected = false;
    })

unfoldable pub finish_output : Pair → Pair
finish_output p = record (close_output (free_output p)) {
  is_output_connected = false;
  close_output_socket = false;
}

-- `connection_input_handler`: whether it has returned.
unfoldable pub connection_input_handler : Handshake → List Turn → Pair → Pair × Bool
connection_input_handler h ts p =
    let shaken = shake_input h (record p { is_input_connected = true }) in
    let looped = input_turns ts (count_connection 1 shaken.0) in
    if not shaken.1
    then (shaken.0, true)
    else if looped.1
    then (finish_input looped.0, true)
    else looped

-- `connection_output_handler`: whether it has returned.
unfoldable pub connection_output_handler : Handshake → List (Bool × Turn) → Pair → Pair × Bool
connection_output_handler h ts p =
    let shaken = shake_output h (record p { is_output_connected = true }) in
    let looped = output_turns ts shaken.0 in
    if not shaken.1
    then (shaken.0, true)
    else if looped.1
    then (finish_output looped.0, true)
    else looped
