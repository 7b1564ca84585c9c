-- ===== src/Devices/Pending/Queue.antt =====
-- `device_manager_set_tls_reload_pending` and `device_manager_consume_tls_reload_pending` of
-- server/proxy/server/device_manager.c against a set of names.
use net_port.Base.{
  ℕ, zero, suc, ◌+◌, ◌-◌, ◌≤◌, ◌<◌, ◌≡◌, refl, ap, true, false, List, [], ◌∷◌, ◌++◌, some, ◌⊎◌, inl,
  inr, Str, str_eq, str_eq_iff, length, length-append, length-set, get_elem?-append_end, set,
  take_of_length-le, take-append_exact, ltb, arith, if◌then◌else◌, Bool-cases, Option-cases,
}
use net_port.Devices.Pending.{id_max, find_pending, remove_at}
use net_port.Devices.Pending.Laws.{waits, Distinct}

set-append :
    (xs ys : List Str) (i : ℕ) (v : Str) → i < length xs → set (xs ++ ys) i v ≡ set xs i v ++ ys
set-append [] ys i v h = absurd (omega arith)
set-append (x ∷ xs) ys zero v h = refl
set-append (x ∷ xs) ys (suc i) v h = ap (◌∷◌ x) (set-append xs ys i v (omega arith))

pub snoc : (ps : List Str) → (ps ≡ []) ⊎ ((xs : List Str) × (z : Str) × (ps ≡ xs ++ z ∷ []))
snoc [] = inl refl
snoc (p ∷ ps) = elim (snoc ps) [
  | inl e ↦ inr ([], p, ap (◌∷◌ p) e)
  | inr (xs, z, e) ↦ inr (p ∷ xs, z, ap (◌∷◌ p) e)
]

waits-set_le :
    (e z : Str) (xs : List Str) (i : ℕ)
    → waits e xs ≡ false
    → str_eq z e ≡ false
    → waits e (set xs i z) ≡ false
unfolding waits
waits-set_le e z [] i out other = refl
waits-set_le e z (x ∷ xs) zero out other = ground (arith, out, other)
waits-set_le e z (x ∷ xs) (suc i) out other =
    ground (arith, out, waits-set_le e z xs i (ground (arith, out)) other)

pub Distinct-set :
    (z : Str) (xs : List Str) (i : ℕ) → Distinct xs → waits z xs ≡ false → Distinct (set xs i z)
unfolding waits
Distinct-set z [] i h out = tt
Distinct-set z (x ∷ xs) zero h out = (ground (arith, out), h.1)
Distinct-set z (x ∷ xs) (suc i) h out = (
  waits-set_le x z xs i h.0 (ground (arith, out, str_eq_iff z x, str_eq_iff x z)),
  Distinct-set z xs i h.1 (ground (arith, out)),
)

-- Where the search ends in a list with a last name.
pub found_snoc :
    (d z : Str) (xs : List Str) (i : ℕ)
    → find_pending d (xs ++ z ∷ []) ≡ some i
    → ((find_pending d xs ≡ some i) × (i < length xs))
      ⊎ ((waits d xs ≡ false) × (str_eq z d ≡ true) × (i ≡ length xs))
unfolding find_pending waits
found_snoc d z [] i e = inr (refl, ground (arith, e), ground (arith, e))
found_snoc d z (x ∷ xs) i e = elim (Bool-cases (str_eq x d)) [
  | inl same ↦ inl (ground (arith, same, e), ground (arith, same, e))
  | inr other ↦ elim (Option-cases (find_pending d (xs ++ z ∷ []))) [
    | inl missing ↦ absurd (ground (arith, other, missing, e))
    | inr (j, found) ↦ elim (found_snoc d z xs j found) [
      | inl (before, below) ↦
          inl (ground (arith, other, before, found, e), ground (arith, other, found, e, below))
      | inr (out, last, at) ↦
          inr (ground (arith, other, out), last, ground (arith, other, found, e, at))
    ]
  ]
]

pub remove_at-snoc :
    (xs : List Str) (z : Str) (i : ℕ)
    → length z ≤ id_max
    → remove_at i (xs ++ z ∷ []) ≡ (if ltb i (length xs) then set xs i z else xs)
unfolding remove_at
remove_at-snoc xs z i fits =
    let size : length (xs ++ z ∷ []) ≡ length xs + 1 = omega (arith, length-append xs (z ∷ [])) in
    let less : length xs + 1 - 1 ≡ length xs = omega arith in
    elim (Bool-cases (ltb i (length xs))) [
      | inr last ↦ rw (size, less, last) (take-append_exact xs (z ∷ []) (length xs) refl)
      | inl before ↦
          rw
            (
              size,
              less,
              before,
              get_elem?-append_end xs z,
              take_of_length-le id_max z fits,
              set-append xs (z ∷ []) i z (ground (arith, before)),
            )
            (take-append_exact (set xs i z) (z ∷ []) (length xs) (length-set xs i z))
    ]
