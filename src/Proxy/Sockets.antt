-- ===== src/Proxy/Sockets.antt =====
-- The pairs of connections of one server in server/proxy/server/proxy_server.c: the search for a
-- place, and what the listener threads do with a connection that they accept.
use net_port.Base.{
  ℕ, zero, suc, ◌+◌, ◌%◌, Bool, true, false, not, ◌&&◌, List, [], ◌∷◌, ◌++◌, Option, none, some,
  length, get_elem?, set, if◌then◌else◌,
}
use net_port.Proxy.Dynamic.State.{LocalSocket}
pub mod Laws
pub mod Race

-- The first socket that passes a test, as the search loops find it.
unfoldable pub find_socket : (LocalSocket → Bool) → List LocalSocket → Option ℕ
find_socket wanted [] = none
find_socket wanted (s ∷ sockets) =
    let rest = find_socket wanted sockets in
    if wanted s then some 0 else elim rest [ none ↦ none | some i ↦ some (i + 1) ]

-- `get_input_socket_with_output`.
unfoldable pub get_input_socket_with_output : List LocalSocket → Option ℕ
get_input_socket_with_output sockets =
    find_socket (λ s. s.is_output_connected && not s.is_input_connected) sockets

-- `get_free_output_socket`.
unfoldable pub get_free_output_socket : List LocalSocket → Option ℕ
get_free_output_socket sockets = find_socket (λ s. not s.is_output_connected) sockets

-- The rounds left of the loop in `get_free_input_socket`, of which `i` are done.
unfoldable pub probe : List LocalSocket → ℕ → ℕ → ℕ → Option ℕ
probe sockets start_index i zero = none
probe sockets start_index i (suc rounds) =
    let index = (start_index + i) % length sockets in
    let rest = probe sockets start_index (i + 1) rounds in
    elim (get_elem? sockets index) [
      | none ↦ rest
      | some s ↦ if not s.is_input_connected then some index else rest
    ]

-- `get_free_input_socket`; `random` is what `rand` returns.
unfoldable pub get_free_input_socket : ℕ → List LocalSocket → Option ℕ
get_free_input_socket random sockets = probe sockets (random % length sockets) 0 (length sockets)

-- The sockets, and the descriptors closed so far.
pub record Pairs : Type 0 where
  pub sockets : List LocalSocket
  pub closed : List ℕ

abbrev put_input : ℕ → LocalSocket → LocalSocket
put_input fd s = record s { input_local = some fd }

abbrev put_output : ℕ → LocalSocket → LocalSocket
put_output fd s = record s { output_local = some fd }

unfoldable pub update : ℕ → (LocalSocket → LocalSocket) → List LocalSocket → List LocalSocket
update i f sockets = elim (get_elem? sockets i) [ none ↦ sockets | some s ↦ set sockets i (f s) ]

-- A connection `fd` accepted by `serverInputThread`: the socket whose handler is started. The flags
-- say whether `fcntl` and the creation of the thread succeed.
unfoldable pub accept_input : Bool → Bool → ℕ → Pairs → Pairs × Option ℕ
accept_input fcntl_ok thread_ok fd p =
    let refused : Pairs = record p { closed = p.closed ++ fd ∷ [] } in
    if not fcntl_ok then (refused, none) else elim (get_input_socket_with_output p.sockets) [
      | none ↦ (refused, none)
      | some i ↦
          let sockets' = update i (put_input fd) p.sockets in
          if thread_ok
          then (record p { sockets = sockets' }, some i)
          else (record { sockets = sockets'; closed = p.closed ++ fd ∷ [] }, none)
    ]

-- A connection accepted by `serverOutputThread`. It is not closed if there is no thread for it.
unfoldable pub accept_output : Bool → Bool → ℕ → Pairs → Pairs × Option ℕ
accept_output fcntl_ok thread_ok fd p =
    let refused : Pairs = record p { closed = p.closed ++ fd ∷ [] } in
    if not fcntl_ok then (refused, none) else elim (get_free_output_socket p.sockets) [
      | none ↦ (refused, none)
      | some i ↦ (
        record p { sockets = update i (put_output fd) p.sockets },
        (if thread_ok then some i else none),
      )
    ]

-- The first statement of `connection_output_handler`.
unfoldable pub output_handler_starts : ℕ → Pairs → Pairs
output_handler_starts i p = record p {
  sockets = update i (λ s. record s { is_output_connected = true }) p.sockets;
}
