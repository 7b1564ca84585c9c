-- ===== src/Proxy/Sockets/Laws.antt =====
-- What the searches of server/proxy/server/proxy_server.c find, and whom an accepted connection
-- meets.
use net_port.Base.{
  ℕ, suc, ◌+◌, ◌≡◌, refl, Bool, true, false, not, ◌&&◌, List, [], ◌∷◌, ◌++◌, Option, none, some,
  ◌⊎◌, inl, inr, get_elem?, get_elem?-set_same, lt_of_get_elem?, All, arith, Bool-cases,
  Option-cases,
}
use mathlib.Core.Path.{subst}
use net_port.Proxy.Dynamic.State.{LocalSocket}
use net_port.Proxy.Sockets.{find_socket, get_input_socket_with_output, Pairs, update, accept_input}

-- A search ends at a socket that passes, with none before it, or it fails and none passes.
pub record First (wanted : LocalSocket → Bool) (sockets : List LocalSocket) (i : ℕ) : Type 0 where
  pub socket : LocalSocket
  pub stored : get_elem? sockets i ≡ some socket
  pub passes : wanted socket ≡ true

abbrev pub Search : (LocalSocket → Bool) → List LocalSocket → Option ℕ → Type 0
Search wanted sockets none = All (λ s. wanted s ≡ false) sockets
Search wanted sockets (some i) = First wanted sockets i

find_socket-Search :
    (wanted : LocalSocket → Bool) (sockets : List LocalSocket)
    → Search wanted sockets (find_socket wanted sockets)
unfolding find_socket
find_socket-Search wanted [] = tt
find_socket-Search wanted (s ∷ sockets) =
    let ih = find_socket-Search wanted sockets in
    elim (Bool-cases (wanted s)) [
      | inl ok ↦ rw (ok, find_socket) (record { socket = s; stored = refl; passes = ok })
      | inr bad ↦ elim (Option-cases (find_socket wanted sockets)) [
        | inl missing ↦
            let all : All (λ s'. wanted s' ≡ false) sockets =
              subst (Search wanted sockets) missing ih in
            rw (bad, missing, find_socket) (bad, all)
        | inr (i, found) ↦
            let f : First wanted sockets i = subst (Search wanted sockets) found ih in
            let next : i + 1 ≡ suc i = omega arith in
            rw (bad, found, find_socket, next)
              (record { socket = f.socket; stored = f.stored; passes = f.passes })
      ]
    ]

pub search_hit :
    (wanted : LocalSocket → Bool) (sockets : List LocalSocket) (i : ℕ)
    → find_socket wanted sockets ≡ some i
    → First wanted sockets i
search_hit wanted sockets i e = subst (Search wanted sockets) e (find_socket-Search wanted sockets)

pub get_elem?-update :
    (i : ℕ) (f : LocalSocket → LocalSocket) (sockets : List LocalSocket) {s : LocalSocket}
    → get_elem? sockets i ≡ some s
    → get_elem? (update i f sockets) i ≡ some (f s)
unfolding update
get_elem?-update i f sockets {s} e =
    rw (e, update) (get_elem?-set_same sockets i (f s) (lt_of_get_elem? sockets i e))

-- The connection `fd` was given to the pair `i`, which was marked as connected to its device and not to
-- a user.
pub record Paired (fd i : ℕ) (p q : Pairs) : Type 0 where
  pub socket : LocalSocket
  pub before : get_elem? p.sockets i ≡ some socket
  pub device_waits : socket.is_output_connected ≡ true
  pub no_user : socket.is_input_connected ≡ false
  pub after : get_elem? q.sockets i ≡ some (record socket { input_local = some fd })
  pub none_closed : q.closed ≡ p.closed

-- No pair is marked as connected to its device and not to a user.
abbrev pub NoneWaits : List LocalSocket → Type 0
NoneWaits sockets = All (λ s. (s.is_output_connected && not s.is_input_connected) ≡ false) sockets

-- A user's connection that the input thread accepts is given to a pair that is marked as connected to its
-- device and not to a user, or it is closed and given to none; then `fcntl` or the creation of the
-- thread has failed, or no pair is marked so. (The handler of a user sets the mark when it starts.)
pub accept_input-Paired :
    (fcntl_ok thread_ok : Bool) (fd : ℕ) (p : Pairs)
    → (((accept_input fcntl_ok thread_ok fd p).1 ≡ none)
        × ((accept_input fcntl_ok thread_ok fd p).0.closed ≡ p.closed ++ fd ∷ [])
        × ((fcntl_ok ≡ false) ⊎ (thread_ok ≡ false) ⊎ NoneWaits p.sockets))
      ⊎ ((i : ℕ) × ((accept_input fcntl_ok thread_ok fd p).1 ≡ some i)
          × Paired fd i p (accept_input fcntl_ok thread_ok fd p).0)
unfolding accept_input get_input_socket_with_output
accept_input-Paired false thread_ok fd p = inl (refl, refl, inl refl)
accept_input-Paired true thread_ok fd p =
    elim (Option-cases (get_input_socket_with_output p.sockets)) [
      | inl full ↦
          let wanted : LocalSocket → Bool =
            λ s. s.is_output_connected && not s.is_input_connected in
          let none_waits : NoneWaits p.sockets =
            subst (Search wanted p.sockets) full (find_socket-Search wanted p.sockets) in
          rw (full, accept_input) (inl (refl, refl, inr (inr none_waits)))
      | inr (i, found) ↦ elim (Bool-cases thread_ok) [
        | inr no_thread ↦ rw (found, no_thread, accept_input) (inl (refl, refl, inr (inl refl)))
        | inl started ↦
            let f =
              search_hit (λ s. s.is_output_connected && not s.is_input_connected) p.sockets i
                found in
            rw (found, started, accept_input)
              (inr (
                i,
                refl,
                record {
                  socket = f.socket;
                  before = f.stored;
                  device_waits = ground (arith, f.passes);
                  no_user = ground (arith, f.passes);
                  after = get_elem?-update i _ p.sockets f.stored;
                  none_closed = refl;
                },
              ))
      ]
    ]
