-- ===== src/Client/Connect/Laws.antt =====
-- How long the client of client/proxy/client/proxy_client.c waits, and when it connects.
use net_port.Base.{
  ℕ, ◌≡◌, refl, sym, Bool, true, false, ◌&&◌, ◌||◌, List, [], ◌∷◌, ◌==◌, All, All-append, arith,
  Bool-cases, inl, inr,
}
use mathlib.Core.Path.{subst}
use net_port.Client.Connect.{
  Round, Ending, connected, stopped, unfinished, next_backoff, Step, ends, again, attempt,
  connect_round, go_on, connect_loop,
}

-- The seconds that the loop may wait.
abbrev pub is_backoff : ℕ → Bool
is_backoff b = (b == 1) || (b == 2) || (b == 4) || (b == 8) || (b == 16) || (b == 32)

abbrev pub Backoff : ℕ → Type 0
Backoff b = is_backoff b ≡ true

-- The session was allowed when the loop last looked at it before it connected.
abbrev pub Allowed : Ending → Type 0
Allowed (connected r) = (r.revoked && r.still_revoked) ≡ false
Allowed stopped = Unit
Allowed unfinished = Unit

-- What a round may do.
abbrev Proper : Step → Type 0
Proper (ends e) = Allowed e
Proper (again slept next) = All Backoff slept × Backoff next

next_backoff-Backoff : (b : ℕ) → Backoff b → Backoff (next_backoff b)
unfolding next_backoff
next_backoff-Backoff b h = ground (arith, h)

attempt-Proper :
    (b : ℕ) (r : Round) → Backoff b → (r.revoked && r.still_revoked) ≡ false → Proper (attempt b r)
unfolding attempt
attempt-Proper b r h allowed = elim (Bool-cases r.connects) [
  | inl connects ↦
      let e : attempt b r ≡ ends (connected r) = ground (arith, connects) in
      subst Proper (sym e) allowed
  | inr failed ↦ elim (Bool-cases r.stop_in_sleep) [
    | inl stop ↦ rw (failed, stop, attempt) tt
    | inr more ↦ elim (Bool-cases r.remade) [
      | inl made ↦ rw (failed, more, made, attempt) ((h, tt), next_backoff-Backoff b h)
      | inr unmade ↦ rw (failed, more, unmade, attempt) ((h, (refl, tt)), next_backoff-Backoff b h)
    ]
  ]
]

connect_round-Proper : (b : ℕ) (r : Round) → Backoff b → Proper (connect_round b r)
unfolding connect_round
connect_round-Proper b r h = elim (Bool-cases r.stop_at_head) [
  | inl stop ↦ rw (stop, connect_round) tt
  | inr go ↦ elim (Bool-cases r.revoked) [
    | inr allowed ↦
        let e : connect_round b r ≡ attempt b r = ground (arith, go, allowed) in
        subst Proper (sym e) (attempt-Proper b r h (ground (arith, allowed)))
    | inl revoked ↦ elim (Bool-cases r.stop_in_pause) [
      | inl stop ↦ rw (go, revoked, stop, connect_round) tt
      | inr waited ↦ elim (Bool-cases r.still_revoked) [
        | inl still ↦ rw (go, revoked, waited, still, connect_round) (tt, h)
        | inr lifted ↦ elim (Bool-cases r.reopened) [
          | inl open_ ↦
              let e : connect_round b r ≡ attempt 1 r =
                ground (arith, go, revoked, waited, lifted, open_) in
              subst Proper (sym e) (attempt-Proper 1 r refl (ground (arith, lifted)))
          | inr unmade ↦ rw (go, revoked, waited, lifted, unmade, connect_round) ((refl, tt), h)
        ]
      ]
    ]
  ]
]

go_on-Backoff :
    (s : Step) (rest : ℕ → List ℕ × Ending)
    → Proper s
    → ((next : ℕ) → Backoff next → All Backoff (rest next).0 × Allowed (rest next).1)
    → All Backoff (go_on s rest).0 × Allowed (go_on s rest).1
unfolding go_on
go_on-Backoff (ends e) rest p h = (tt, p)
go_on-Backoff (again slept next) rest p h =
    (All-append Backoff slept (rest next).0 p.0 (h next p.1).0, (h next p.1).1)

-- The waits of the client after a failed connection or socket are of 1, 2, 4, 8, 16 or 32 seconds, and it
-- connects only if its session was not revoked when it last looked at it in that round. (The session may
-- be revoked between that look and the connection.)
pub connect_loop-Backoff :
    (b : ℕ) (rs : List Round)
    → Backoff b
    → All Backoff (connect_loop b rs).0 × Allowed (connect_loop b rs).1
unfolding connect_loop
connect_loop-Backoff b [] h = (tt, tt)
connect_loop-Backoff b (r ∷ rs) h =
    go_on-Backoff (connect_round b r) (λ next. connect_loop next rs) (connect_round-Proper b r h)
      (λ next. connect_loop-Backoff next rs)
