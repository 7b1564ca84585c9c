-- ===== src/Security/RateLimit/Penalty.antt =====
-- What `check_rate_limit` does to a key that exceeded its limit, and when it serves it again.
use net_port.Base.{
  ℕ, ◌+◌, ◌≤◌, ◌<◌, ◌≡◌, refl, sym, ap, ◌∙◌, Bool, true, List, [], ◌∷◌, some, inl, inr, Str, str_eq,
  str_eq_refl, eq_of_str_eq, length, arith, Bool-cases,
}
use mathlib.Core.Path.{subst}
use net_port.Base.Outcome.{Outcome, done}
use net_port.Security.State.{Entry, RateConfig, Security, key_max}
use net_port.Security.RateLimit.{
  Verdict, table_full, allowed, penalized, exceeded, judge, check_rate_limit,
}
use net_port.Security.RateLimit.Table.{lookup}
use net_port.Security.RateLimit.Valid.{Realloc, IsValid}
use net_port.Security.RateLimit.Limiter.{
  Judged, Rows, or_fresh, check_rate_limit-Rows, check_rate_limit-known,
}
use net_port.Security.RateLimit.History.{run_checks, KeysFit}

-- Every request of `k` is made before `b`.
abbrev pub Before : Str → ℕ → List (Str × ℕ) → Type 0
Before k b [] = Unit
Before k b ((j, now) ∷ h) = (str_eq j k ≡ true → now < b) × Before k b h

-- Every answer to `k` is a refusal for a running penalty.
abbrev pub Barred : Str → List (Str × Verdict) → Type 0
Barred k [] = Unit
Barred k ((j, v) ∷ vs) = (str_eq j k ≡ true → v ≡ penalized) × Barred k vs

judge-penalized :
    (c : RateConfig) (now : ℕ) (e : Entry) → now < e.penalty_until → judge c now e ≡ (e, penalized)
unfolding judge
judge-penalized c now e h = ground arith

judge-exceeded :
    (c : RateConfig) (now : ℕ) (e : Entry) (p : Bool)
    → (judge c now e).1 ≡ exceeded p
    → (judge c now e).0.penalty_until ≡ now + c.penalty_seconds
unfolding judge
judge-exceeded c now e p h = ground arith

judge-served :
    (c : RateConfig) (now : ℕ) (e : Entry)
    → 0 < c.max_requests
    → e.penalty_until ≤ now
    → e.window_start + c.window_seconds ≤ now
    → (judge c now e).1 ≡ allowed
unfolding judge
judge-served c now e some_requests over rolled = ground arith

-- The row of `k` bars it until `b`.
record Bars (k : Str) (b : ℕ) (s : Security) : Type 0 where
  row : Entry
  known : lookup k s.entries ≡ some row
  until : b ≤ row.penalty_until

judged_barred :
    (k : Str) (now : ℕ) (s : Security) (row : Entry)
    → lookup k s.entries ≡ some row
    → now < row.penalty_until
    → judge s.config now (or_fresh k now (lookup k s.entries)) ≡ (row, penalized)
judged_barred k now s row known before =
    rw (known, or_fresh) (judge-penalized s.config now row before)

-- One judged request, of `k` or of another key.
step-Bars :
    (k j : Str) (now b : ℕ) (s t : Security) (v : Verdict)
    → Bars k b s
    → (str_eq j k ≡ true → now < b)
    → Judged j now s t v
    → Rows j now s t
    → (str_eq j k ≡ true → v ≡ penalized) × Bars k b t
step-Bars k j now b s t v bars before judged rows = elim (Bool-cases (str_eq j k)) [
  | inr other ↦ (
    λ own. absurd (cc),
    record { row = bars.row; known = rw (rows k, other) bars.known; until = bars.until },
  )
  | inl own ↦
      let known : lookup j s.entries ≡ some bars.row =
        rw (sym (eq_of_str_eq j k own)) at bars.known in
      let soon : now < bars.row.penalty_until = omega (arith, before own, bars.until) in
      let pen = judged_barred j now s bars.row known soon in
      (
        λ _. judged.verdict ∙ ap (λ r. r.1) pen,
        record { row = bars.row; known = rw (rows k, own, pen) refl; until = bars.until },
      )
]

-- One check of any key.
check-Bars :
    (realloc : ℕ → Bool) (k j : Str) (now b : ℕ) (s : Security)
    → Realloc realloc
    → length j ≤ key_max
    → IsValid s
    → Bars k b s
    → (str_eq j k ≡ true → now < b)
    → (t : Security) × (v : Verdict) × (check_rate_limit realloc now (some j) s ≡ done (t, v))
      × IsValid t
      × (str_eq j k ≡ true → v ≡ penalized)
      × Bars k b t
check-Bars realloc k j now b s grants short valid bars before = elim (Bool-cases (str_eq j k)) [
  | inl own ↦
      let known : lookup j s.entries ≡ some bars.row =
        rw (sym (eq_of_str_eq j k own)) at bars.known in
      let (t, v, run, judged, rows) =
        check_rate_limit-known realloc j now s bars.row short valid known in
      let (answer, after) = step-Bars k j now b s t v bars before judged rows in
      (t, v, run, judged.valid, answer, after)
  | inr other ↦ elim (check_rate_limit-Rows realloc j now s grants short valid) [
    | inl (full, why) ↦ (s, table_full, full, valid, λ own. absurd (cc), bars)
    | inr (t, v, run, judged, rows) ↦
        let (answer, after) = step-Bars k j now b s t v bars before judged rows in
        (t, v, run, judged.valid, answer, after)
  ]
]

run_checks-Barred :
    (realloc : ℕ → Bool) (k : Str) (b : ℕ) (h : List (Str × ℕ)) (s : Security)
    → Realloc realloc
    → IsValid s
    → Bars k b s
    → KeysFit h
    → Before k b h
    → (t : Security) × (vs : List (Str × Verdict)) × (run_checks realloc h s ≡ done (t, vs))
      × IsValid t
      × Barred k vs
unfolding run_checks
run_checks-Barred realloc k b [] s grants valid bars fit before = (s, [], refl, valid, tt)
run_checks-Barred realloc k b ((j, now) ∷ h) s grants valid bars fit before =
    let (t, v, checked, valid', answer, after) =
      check-Bars realloc k j now b s grants fit.0 valid bars before.0 in
    let (u, vs, run, valid'', answers) =
      run_checks-Barred realloc k b h t grants valid' after fit.1 before.1 in
    (u, (j, v) ∷ vs, rw (checked, run) refl, valid'', (answer, answers))

-- On a valid state, where `realloc` grants no 2^63 bytes or more, once a check at `now` finds that
-- a key exceeded its limit, every later request of the key before `now + penalty_seconds` is
-- refused as penalized, whatever other keys are checked in between, and no check faults. All keys
-- fit their field.
pub exceeded_bars :
    (realloc : ℕ → Bool) (k : Str) (now : ℕ) (p : Bool) (h : List (Str × ℕ)) (s t : Security)
    → Realloc realloc
    → length k ≤ key_max
    → IsValid s
    → check_rate_limit realloc now (some k) s ≡ done (t, exceeded p)
    → KeysFit h
    → Before k (now + s.config.penalty_seconds) h
    → (u : Security) × (vs : List (Str × Verdict)) × (run_checks realloc h t ≡ done (u, vs))
      × IsValid u
      × Barred k vs
exceeded_bars realloc k now p h s t grants short valid e fit before =
    elim (check_rate_limit-Rows realloc k now s grants short valid) [
      | inl (full, why) ↦ absurd (cc)
      | inr (t', v, run, judged, rows) ↦
          let same : ◌≡◌ {A = Outcome (Security × Verdict)} (done (t', v)) (done (t, exceeded p)) =
            sym run ∙ e in
          let row : Entry = (judge s.config now (or_fresh k now (lookup k s.entries))).0 in
          let verdict : v ≡ exceeded p = cc in
          let same_state : t' ≡ t = cc in
          let bars : Bars k (now + s.config.penalty_seconds) t' = record {
            row = row;
            known = rw (rows k, str_eq_refl k) refl;
            until = omega (
              arith,
              judge-exceeded s.config now (or_fresh k now (lookup k s.entries)) p
                  (sym judged.verdict ∙ verdict),
            );
          } in
          run_checks-Barred realloc k (now + s.config.penalty_seconds) h t grants
            (subst IsValid same_state judged.valid)
            (subst (Bars k (now + s.config.penalty_seconds)) same_state bars) fit before
    ]

-- On a valid state with a positive `max_requests`, a key that fits its field, has a row, and whose
-- penalty and window have both run out is let through by the next check, however many penalties it
-- has had, also when `max_penalties` of them were reported as a permanent block.
pub served_after_penalty :
    (realloc : ℕ → Bool) (k : Str) (now : ℕ) (s : Security) (e : Entry)
    → length k ≤ key_max
    → IsValid s
    → lookup k s.entries ≡ some e
    → 0 < s.config.max_requests
    → e.penalty_until ≤ now
    → e.window_start + s.config.window_seconds ≤ now
    → (t : Security) × (check_rate_limit realloc now (some k) s ≡ done (t, allowed)) × IsValid t
served_after_penalty realloc k now s e short valid known positive over rolled =
    let (t, v, run, judged, rows) = check_rate_limit-known realloc k now s e short valid known in
    let answer : v ≡ allowed =
      judged.verdict ∙ (rw (known, or_fresh) (judge-served s.config now e positive over rolled)) in
    (t, rw answer at run, judged.valid)
