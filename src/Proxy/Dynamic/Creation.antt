-- ===== src/Proxy/Dynamic/Creation.antt =====
-- What a creation does to the array `servers` of server/proxy/server/proxy_server.c.
use net_port.Base.{
  ℕ, ◌+◌, ◌-◌, ◌%◌, ◌≤◌, ◌<◌, ◌≡◌, refl, ap, ◌∙◌, Bool, true, false, [], ◌∷◌, ◌++◌, Option, none,
  some, ◌⊎◌, inl, inr, length, length-append, take-append_exact, set, set-append_end, ltb, arith,
  Bool-cases,
}
use mathlib.Core.Path.{subst}
use net_port.Proxy.Dynamic.State.{Server, zero_server, Registry}
use net_port.Proxy.Dynamic.Open.{Env}
use net_port.Proxy.Dynamic.Start.{
  Request, open_server, start_dynamic_server_at_index, u16, grow, create_server,
}
use net_port.Proxy.Dynamic.Growth.{
  Listed, listed, length-listed, cleanup-grow, Wrote, open_server-Wrote,
}
use net_port.Proxy.Dynamic.Healthy.{create_server_succeeds}

-- A creation that fails leaves the servers that count as they were.
pub record Failed (r t : Registry) (o : Option ℕ) : Type 0 where
  pub answer : o ≡ none
  pub same : listed t ≡ listed r
  pub count : t.servers_count ≡ r.servers_count
  pub fits : t.servers_count ≤ length t.servers

-- One that succeeds adds an enabled one behind them.
pub record Added (r t : Registry) (o : Option ℕ) : Type 0 where
  pub answer : o ≡ some r.servers_count
  pub server : Server
  pub enabled : server.enable ≡ true
  pub one_more : t.servers ≡ listed r ++ server ∷ []
  pub count : t.servers_count ≡ r.servers_count + 1
  pub below : r.servers_count + 1 < u16

-- The server at the end of the grown array is the one written.
grow-Wrote :
    (r t : Registry) (ok : Bool)
    → Listed r
    → (w : Wrote r.servers_count (grow r) t ok) → t.servers ≡ listed r ++ w.server ∷ []
unfolding grow
grow-Wrote r t ok h w =
    w.servers
    ∙ subst (λ n. set (listed r ++ zero_server ∷ []) n w.server ≡ listed r ++ w.server ∷ [])
        (length-listed r h) (set-append_end (listed r) zero_server w.server)

start-grow :
    (env : Env) (q : Request) (r : Registry)
    → Listed r
    → r.servers_count + 1 < u16
    → start_dynamic_server_at_index env r.servers_count q (grow r)
      ≡ open_server env r.servers_count q (grow r)
unfolding start_dynamic_server_at_index
start-grow env q r h below =
    let within : ltb r.servers_count (grow r).servers_count ≡ true = unfold grow in ground arith in
    rw (within, cleanup-grow env.ends r h) refl

-- The counter after a failure is what it was before the creation.
restored : (c : ℕ) → c < u16 → ((c + 1) % u16 + (u16 - 1)) % u16 ≡ c
restored c h = omega (arith, h)

same-listed :
    (r t : Registry) (s : Server)
    → Listed r
    → t.servers ≡ listed r ++ s ∷ []
    → t.servers_count ≡ r.servers_count
    → (listed t ≡ listed r) × (t.servers_count ≤ length t.servers)
same-listed r t s h e count = (
  rw (count, e) (take-append_exact (listed r) (s ∷ []) r.servers_count (length-listed r h)),
  rw (count, e) (omega (arith, length-append (listed r) (s ∷ []), length-listed r h)),
)

abbrev pub Outcome : Registry → Registry × Option ℕ → Type 0
Outcome r (t, o) = Failed r t o ⊎ Added r t o

create_server_refused :
    (env : Env) (q : Request) (r : Registry)
    → env.realloc_ok ≡ false
    → create_server env q r ≡ (r, none)
unfolding create_server
create_server_refused env q r out = ground (arith, out)

-- The registry after a start that failed, with the counter put back.
abbrev undone : Registry → Registry
undone t = record t { servers_count = (t.servers_count + (u16 - 1)) % u16 }

create_server_fails :
    (env : Env) (q : Request) (r : Registry)
    → env.realloc_ok ≡ true
    → (start_dynamic_server_at_index env r.servers_count q (grow r)).1 ≡ false
    → create_server env q r
      ≡ (undone (start_dynamic_server_at_index env r.servers_count q (grow r)).0, none)
unfolding create_server
create_server_fails env q r room bad = ground (arith, room, bad)

grow-count : (r : Registry) → (grow r).servers_count ≡ (r.servers_count + 1) % u16
unfolding grow
grow-count r = refl

grow-servers : (r : Registry) → (grow r).servers ≡ listed r ++ zero_server ∷ []
unfolding grow
grow-servers r = refl

start_full :
    (env : Env) (q : Request) (r : Registry)
    → u16 ≤ r.servers_count + 1
    → Listed r
    → start_dynamic_server_at_index env r.servers_count q (grow r) ≡ (grow r, false)
unfolding start_dynamic_server_at_index
start_full env q r full h =
    let over : ltb r.servers_count (grow r).servers_count ≡ false =
      ground (arith, grow-count r, h.small, full) in
    rw over refl

undone-Failed :
    (r t : Registry) (s : Server)
    → Listed r
    → t.servers ≡ listed r ++ s ∷ []
    → t.servers_count ≡ (r.servers_count + 1) % u16
    → Failed r (undone t) none
undone-Failed r t s h servers count =
    let back : (undone t).servers_count ≡ r.servers_count =
      ap (λ n. (n + (u16 - 1)) % u16) count ∙ restored r.servers_count h.small in
    let (same, fits) = same-listed r (undone t) s h servers back in
    record { answer = refl; same = same; count = back; fits = fits }

open_server-Outcome :
    (env : Env) (q : Request) (r : Registry)
    → Listed r
    → r.servers_count + 1 < u16
    → env.realloc_ok ≡ true
    → Outcome r (create_server env q r)
open_server-Outcome env q r h below room =
    let w = open_server-Wrote env r.servers_count q (grow r) in
    let s = start-grow env q r h below in
    elim (Bool-cases (open_server env r.servers_count q (grow r)).1) [
      | inr bad ↦
          rw (create_server_fails env q r room (rw s bad), s)
            (inl (undone-Failed r _ w.server h (grow-Wrote r _ _ h w) (w.count ∙ grow-count r)))
      | inl ok ↦
          rw (create_server_succeeds env q r room (rw s ok), s)
            (inr (record {
              answer = refl;
              server = w.server;
              enabled = ground (arith, ok, w.enabled);
              one_more = grow-Wrote r _ _ h w;
              count = w.count ∙ grow-count r ∙ omega (arith, below);
              below = below;
            }))
    ]

pub create_server-Outcome :
    (env : Env) (q : Request) (r : Registry) → Listed r → Outcome r (create_server env q r)
create_server-Outcome env q r h = elim (Bool-cases env.realloc_ok) [
  | inr out ↦
      rw (create_server_refused env q r out)
        (inl (record { answer = refl; same = refl; count = refl; fits = h.fits }))
  | inl room ↦ elim (Bool-cases (ltb (r.servers_count + 1) u16)) [
    | inl below ↦ open_server-Outcome env q r h (ground (arith, below)) room
    | inr full ↦
        let s = start_full env q r (ground (arith, full)) h in
        rw (create_server_fails env q r room (rw s refl), s)
          (inl (undone-Failed r (grow r) zero_server h (grow-servers r) (grow-count r)))
  ]
]
