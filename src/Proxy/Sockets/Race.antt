-- ===== src/Proxy/Sockets/Race.antt =====
-- Two devices that connect to server/proxy/server/proxy_server.c one shortly after the other.
use net_port.Base.{
  ℕ, zero, suc, ◌<◌, ◌≡◌, ◌≢◌, refl, ◌∙◌, Bool, true, not, List, [], ◌∷◌, some, inl, inr, length,
  get_elem?, get_elem?_of_lt, arith, Option-cases,
}
use net_port.Proxy.Dynamic.State.{LocalSocket}
use net_port.Proxy.Sockets.{
  find_socket, get_free_output_socket, Pairs, update, accept_output, output_handler_starts,
}
use net_port.Proxy.Sockets.Laws.{search_hit, get_elem?-update}

-- After the handler of an accepted device connection has marked its pair, the next connection of a
-- device is not given to that pair.
pub accept_output_after_handler :
    (i fd : ℕ) (p : Pairs)
    → i < length p.sockets
    → (accept_output true true fd (output_handler_starts i p)).1 ≢ some i
unfolding accept_output output_handler_starts get_free_output_socket
accept_output_after_handler i fd p h = λ e.
    let q = output_handler_starts i p in
    elim (Option-cases (get_free_output_socket q.sockets)) [
      | inl full ↦ ground (arith, full, e)
      | inr (j, found) ↦
          let same : j ≡ i = ground (arith, found, e) in
          let f = search_hit (λ s. not s.is_output_connected) q.sockets j found in
          let (s, at) = get_elem?_of_lt p.sockets i h in
          let marked =
            get_elem?-update i (λ x. record x { is_output_connected = true }) p.sockets at in
          ground (arith, same, f.stored, f.passes, marked)
    ]

update-suc :
    (i : ℕ) (f : LocalSocket → LocalSocket) (s : LocalSocket) (sockets : List LocalSocket)
    → update (suc i) f (s ∷ sockets) ≡ s ∷ update i f sockets
unfolding update
update-suc i f s sockets = ground arith

find_socket-update :
    (wanted : LocalSocket → Bool) (f : LocalSocket → LocalSocket)
    → ((s : LocalSocket) → wanted (f s) ≡ wanted s)
    → (i : ℕ) (sockets : List LocalSocket)
    → find_socket wanted (update i f sockets) ≡ find_socket wanted sockets
unfolding find_socket update
find_socket-update wanted f keeps i [] = refl
find_socket-update wanted f keeps zero (s ∷ sockets) = rw (keeps s) refl
find_socket-update wanted f keeps (suc i) (s ∷ sockets) =
    rw (update-suc i f s sockets, find_socket-update wanted f keeps i sockets) refl

accept_output_runs :
    (fd i : ℕ) (p : Pairs)
    → get_free_output_socket p.sockets ≡ some i
    → accept_output true true fd p ≡ (
      record p { sockets = update i (λ s. record s { output_local = some fd }) p.sockets },
      some i,
    )
unfolding accept_output
accept_output_runs fd i p e = rw (e, accept_output) refl

-- Where the output thread accepts a second connection before the first one's handler has marked its
-- pair, both get the same pair: the second descriptor replaces the first one, which nobody closes.
pub second_accept_overwrites :
    (fd fd' i : ℕ) (p : Pairs) (s : LocalSocket)
    → get_free_output_socket p.sockets ≡ some i
    → get_elem? p.sockets i ≡ some s
    → let q = (accept_output true true fd p).0 in
      ((accept_output true true fd' q).1 ≡ some i)
      × ((accept_output true true fd' q).0.closed ≡ p.closed)
      × (get_elem? (accept_output true true fd' q).0.sockets i
          ≡ some (record s { output_local = some fd' }))
unfolding get_free_output_socket
second_accept_overwrites fd fd' i p s free at =
    let put : ℕ → LocalSocket → LocalSocket = λ n x. record x { output_local = some n } in
    let q : Pairs = record p { sockets = update i (put fd) p.sockets } in
    let still : get_free_output_socket q.sockets ≡ some i =
      find_socket-update (λ x. not x.is_output_connected) (put fd) (λ x. refl) i p.sockets ∙ free in
    rw (accept_output_runs fd i p free, accept_output_runs fd' i q still)
      (
        refl,
        refl,
        get_elem?-update i (put fd') q.sockets (get_elem?-update i (put fd) p.sockets at),
      )
