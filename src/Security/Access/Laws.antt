-- ===== src/Security/Access/Laws.antt =====
-- What the access lists of server/proxy/server/security_features.c decide, and how long a ban lasts.
use mathlib.Core.List.{Mem, mem-cons_self, mem-cons_of_mem, eq-or-mem_of_mem-cons, not-mem-nil}
use mathlib.Core.HLevel.{⊥_prop}
use mathlib.Core.Logic.Or
use net_port.Base.{
  ◌≡◌, ◌↔◌, ◌⊎◌, inl, inr, refl, true, false, List, [], ◌∷◌, ◌++◌, some, Str, str_eq, str_eq_iff,
  eq_of_str_eq, length, ltb, arith, if◌then◌else◌, Bool-cases,
}
use net_port.Security.State.{Security}
use net_port.Security.Access.{has, check_ip_access, add_temporary_blacklist}

mem_of_has : (ip : Str) (xs : List Str) → has ip xs ≡ true → Mem ip xs
unfolding has
mem_of_has ip [] h = absurd (cc)
mem_of_has ip (x ∷ xs) h = elim (Bool-cases (str_eq x ip)) [
  | inl e ↦ rw (eq_of_str_eq x ip e) mem-cons_self
  | inr e ↦ mem-cons_of_mem x (mem_of_has ip xs (ground arith))
]

not-mem_of_has : (ip : Str) (xs : List Str) → has ip xs ≡ false → ¬ Mem ip xs
unfolding has
not-mem_of_has ip [] h = not-mem-nil
not-mem_of_has ip (x ∷ xs) h = λ m.
    Or.elim ⊥_prop (eq-or-mem_of_mem-cons m) (λ e. absurd (ground (arith, str_eq_iff x ip)))
      (not-mem_of_has ip xs (ground arith))

has_of_mem : (ip : Str) (xs : List Str) → Mem ip xs → has ip xs ≡ true
has_of_mem ip xs m = elim (Bool-cases (has ip xs)) [
  | inl e ↦ e
  | inr e ↦ absurd (not-mem_of_has ip xs e m)
]

-- The whitelist lets in all if it is empty, and else those on it.
white_iff :
    (ip : Str) (xs : List Str)
    → ((if ltb 0 (length xs) then has ip xs else true) ≡ true) ↔ ((xs ≡ []) ⊎ Mem ip xs)
unfolding has
white_iff ip [] = (λ _. inl refl, λ _. refl)
white_iff ip (x ∷ xs) = (
  λ h. inr (mem_of_has ip (x ∷ xs) (ground arith)),
  λ h. elim h [ inl e ↦ absurd (cc) | inr m ↦ ground (arith, has_of_mem ip (x ∷ xs) m) ],
)

pub has-append :
    (j ip : Str) (xs : List Str) → has j (xs ++ ip ∷ []) ≡ (if str_eq ip j then true else has j xs)
unfolding has
has-append j ip [] = ground arith
has-append j ip (x ∷ xs) = ground (arith, has-append j ip xs)

-- An address is let in exactly when it is not on the blacklist and the whitelist is empty or holds it.
pub check_ip_access_iff :
    (ip : Str) (s : Security)
    → (check_ip_access (some ip) s ≡ true)
      ↔ ((¬ Mem ip s.blacklist) × ((s.whitelist ≡ []) ⊎ Mem ip s.whitelist))
unfolding check_ip_access
check_ip_access_iff ip s = elim (Bool-cases (has ip s.blacklist)) [
  | inl banned ↦ rw banned (λ h. absurd (cc), λ h. absurd (h.0 (mem_of_has ip s.blacklist banned)))
  | inr clear ↦ rw clear (
    λ h. (not-mem_of_has ip s.blacklist clear, (white_iff ip s.whitelist).0 h),
    λ h. (white_iff ip s.whitelist).1 h.1,
  )
]

-- Where memory is granted, `add_temporary_blacklist` shuts out its address and no other.
pub check_ip_access-add :
    (ip j : Str) (s : Security)
    → check_ip_access (some j) (add_temporary_blacklist true true (some ip) s)
      ≡ (if str_eq ip j then false else check_ip_access (some j) s)
unfolding check_ip_access add_temporary_blacklist
check_ip_access-add ip j s = ground (arith, has-append j ip s.blacklist, str_eq_iff ip j)
