-- ===== src/Security/Json/Laws.antt =====
-- What `validate_json_input` of server/proxy/server/security_features.c lets through.
use net_port.Base.{
  ℕ, ◌≤◌, ◌<◌, ◌≡◌, ◌↔◌, refl, ap, true, false, List, [], ◌∷◌, ◌++◌, some, Str, length, All, ltb,
  arith, Bool-cases, inl, inr,
}
use net_port.Security.Json.{
  starts_with, contains, inner_null, suspicious_patterns, any_pattern, validate_json_input,
}

-- `pat` stands somewhere in `s`.
abbrev pub Occurs : Str → Str → Type 0
Occurs pat s = (pre : Str) × (post : Str) × (s ≡ pre ++ (pat ++ post))

starts_with_sound : (pat s : Str) → starts_with pat s ≡ true → (post : Str) × (s ≡ pat ++ post)
unfolding starts_with
starts_with_sound [] s h = (s, refl)
starts_with_sound (p ∷ ps) [] h = absurd (cc)
starts_with_sound (p ∷ ps) (c ∷ s) h =
    let (post, e) = starts_with_sound ps s (ground arith) in
    let same : p ≡ c = ground arith in (post, rw (same, e) refl)

starts_with_append : (pat post : Str) → starts_with pat (pat ++ post) ≡ true
unfolding starts_with
starts_with_append [] post = refl
starts_with_append (p ∷ ps) post = ground (arith, starts_with_append ps post)

contains_sound : (pat s : Str) → contains pat s ≡ true → Occurs pat s
unfolding contains
contains_sound pat [] h = let (post, e) = starts_with_sound pat [] h in ([], post, e)
contains_sound pat (c ∷ s) h = elim (Bool-cases (starts_with pat (c ∷ s))) [
  | inl here ↦ let (post, e) = starts_with_sound pat (c ∷ s) here in ([], post, e)
  | inr later ↦
      let (pre, post, e) = contains_sound pat s (ground arith) in (c ∷ pre, post, ap (◌∷◌ c) e)
]

contains_of_starts : (pat s : Str) → starts_with pat s ≡ true → contains pat s ≡ true
unfolding contains
contains_of_starts pat [] h = h
contains_of_starts pat (c ∷ s) h = rw h

contains_complete : (pat pre post : Str) → contains pat (pre ++ (pat ++ post)) ≡ true
unfolding contains
contains_complete pat [] post = contains_of_starts pat (pat ++ post) (starts_with_append pat post)
contains_complete pat (c ∷ pre) post = ground (arith, contains_complete pat pre post)

inner_null_of_text : (s : Str) → All (λ c. 0 < c) s → inner_null s ≡ false
unfolding inner_null
inner_null_of_text [] h = refl
inner_null_of_text (c ∷ []) h = refl
inner_null_of_text (c ∷ d ∷ s) h = ground (arith, h.0, inner_null_of_text (d ∷ s) h.1)

any_pattern_none : (s : Str) (ps : List Str) → any_pattern s ps ≡ false → All (λ p. ¬ Occurs p s) ps
unfolding any_pattern
any_pattern_none s [] h = tt
any_pattern_none s (p ∷ ps) h = (
  λ o. absurd (ground (arith, contains_complete p o.0 o.1, ap (contains p) o.2)),
  any_pattern_none s ps (ground arith),
)

any_pattern_of_none :
    (s : Str) (ps : List Str) → All (λ p. ¬ Occurs p s) ps → any_pattern s ps ≡ false
unfolding any_pattern
any_pattern_of_none s [] h = refl
any_pattern_of_none s (p ∷ ps) h = elim (Bool-cases (contains p s)) [
  | inl found ↦ absurd (h.0 (contains_sound p s found))
  | inr clear ↦ rw clear (any_pattern_of_none s ps h.1)
]

-- A C string (it holds no NUL) is accepted exactly when it has at most `max_length` bytes and none of
-- the suspicious patterns stands anywhere in it.
pub validate_json_input_iff :
    (s : Str) (max_length : ℕ)
    → All (λ c. 0 < c) s
    → (validate_json_input (some s) max_length ≡ true)
      ↔ ((length s ≤ max_length) × All (λ p. ¬ Occurs p s) suspicious_patterns)
unfolding validate_json_input
validate_json_input_iff s max_length text = elim (Bool-cases (ltb max_length (length s))) [
  | inl long ↦ rw long (λ h. absurd (cc), λ h. absurd (ground (arith, h.0)))
  | inr short ↦
      rw (short, inner_null_of_text s text)
        (
          λ h. (ground arith, any_pattern_none s suspicious_patterns (ground arith)),
          λ h. rw (any_pattern_of_none s suspicious_patterns h.1),
        )
]
