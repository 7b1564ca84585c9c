-- ===== src/Devices/Pending/Laws.antt =====
-- The waiting devices of server/proxy/server/device_manager.c as a set of names: the lemmas.
use net_port.Base.{
  ℕ, zero, suc, ◌+◌, ◌≤◌, ◌≡◌, refl, Bool, true, false, not, ◌&&◌, ◌||◌, List, [], ◌∷◌, ◌++◌, none,
  some, ◌⊎◌, inl, inr, Str, str_eq, str_eq_iff, length, set, All, arith, Bool-cases,
}
use net_port.Devices.Pending.{pending_max, id_max, find_pending}

-- The device waits.
unfoldable pub waits : Str → List Str → Bool
waits d [] = false
waits d (p ∷ ps) = str_eq p d || waits d ps

-- No name twice, and every name fits its field.
abbrev pub Distinct : List Str → Type 0
Distinct [] = Unit
Distinct (p ∷ ps) = (waits p ps ≡ false) × Distinct ps

abbrev pub Fits : Str → Type 0
Fits p = length p ≤ id_max

pub record IsValid (ps : List Str) : Type 0 where
  pub bounded : length ps ≤ pending_max
  pub distinct : Distinct ps
  pub fitting : All Fits ps

pub find_pending-waits :
    (d : Str) (ps : List Str)
    → ((find_pending d ps ≡ none) × (waits d ps ≡ false))
      ⊎ ((i : ℕ) × (find_pending d ps ≡ some i) × (waits d ps ≡ true))
unfolding find_pending waits
find_pending-waits d [] = inl (refl, refl)
find_pending-waits d (p ∷ ps) = elim (Bool-cases (str_eq p d)) [
  | inl same ↦ inr (0, ground (arith, same), ground (arith, same))
  | inr other ↦ elim (find_pending-waits d ps) [
    | inl (missing, out) ↦ inl (ground (arith, other, missing), ground (arith, other, out))
    | inr (i, found, present) ↦
        inr (i + 1, ground (arith, other, found), ground (arith, other, present))
  ]
]

pub waits-append : (e : Str) (ps qs : List Str) → waits e (ps ++ qs) ≡ (waits e ps || waits e qs)
unfolding waits
waits-append e [] qs = refl
waits-append e (p ∷ ps) qs = ground (arith, waits-append e ps qs)

pub Distinct-append_end :
    (ps : List Str) (d : Str) → Distinct ps → waits d ps ≡ false → Distinct (ps ++ d ∷ [])
unfolding waits
Distinct-append_end [] d h out = (refl, tt)
Distinct-append_end (p ∷ ps) d h out = (
  ground (arith, waits-append p ps (d ∷ []), h.0, out, str_eq_iff p d, str_eq_iff d p),
  Distinct-append_end ps d h.1 (ground (arith, out)),
)

-- The name `z` is put in the place of `d`, the `i`-th of a list that holds neither twice.
pub replace-waits :
    (d e z : Str) (xs : List Str) (i : ℕ)
    → find_pending d xs ≡ some i
    → Distinct xs
    → waits z xs ≡ false
    → waits e (set xs i z) ≡ (str_eq z e || (not (str_eq d e) && waits e xs))
unfolding waits find_pending
replace-waits d e z [] i found h out = absurd (cc)
replace-waits d e z (x ∷ xs) zero found h out =
    ground (arith, str_eq_iff x d, str_eq_iff x e, str_eq_iff d e, h.0)
replace-waits d e z (x ∷ xs) (suc i) found h out = ground (
  arith,
  str_eq_iff x d,
  str_eq_iff x e,
  str_eq_iff d e,
  replace-waits d e z xs i (ground arith) h.1 (ground (arith, out)),
)
