-- ===== src/Security/RateLimit/Quota.antt =====
-- How many requests of one key pass `check_rate_limit` within a window.
use net_port.Base.{
  ℕ, suc, length, false, ◌+◌, ◌-◌, ◌*◌, ◌≤◌, ◌<◌, ◌≡◌, refl, sym, ◌∙◌, Bool, true, List, [], ◌∷◌,
  Option, none, some, ◌⊎◌, inl, inr, Str, str_eq, eq_of_str_eq, arith, if◌then◌else◌, Bool-cases,
}
use mathlib.Core.Path.{subst}
use net_port.Base.Outcome.{done}
use net_port.Security.State.{Entry, RateConfig, Security, u32, key_max}
use net_port.Security.RateLimit.{Verdict, table_full, fresh_entry, judge, check_rate_limit}
use net_port.Security.RateLimit.Table.{lookup}
use net_port.Security.RateLimit.Valid.{Realloc, IsValid}
use net_port.Security.RateLimit.Limiter.{
  Judged, Rows, or_fresh, check_rate_limit-Rows, check_rate_limit-known,
}
use net_port.Security.RateLimit.History.{run_checks, admits, admitted, KeysFit, Between}

-- From `a` on, for the length of a window, a row lets at most `n` requests through.
abbrev pub Within : RateConfig → ℕ → ℕ → Entry → Type 0
Within c a n e =
    (a + c.window_seconds ≤ e.penalty_until)
    ⊎ ((a ≤ e.window_start) × (c.max_requests ≤ n + e.request_count))
    ⊎ ((2 * c.max_requests ≤ n + e.request_count) × (c.max_requests ≤ n))

judge-Within :
    (c : RateConfig) (a n now : ℕ) (e : Entry)
    → c.max_requests < u32
    → c.window_seconds ≤ c.penalty_seconds
    → a ≤ now
    → now < a + c.window_seconds
    → Within c a n e
    → (admits (judge c now e).1 ≤ n) × Within c a (n - admits (judge c now e).1) (judge c now e).0
unfolding judge
judge-Within c a n now e word long lo hi w = ground arith

-- The same of a key's place in the table. A key with no row starts with a fresh window.
abbrev RowWithin : RateConfig → ℕ → ℕ → Option Entry → Type 0
RowWithin c a n none = c.max_requests ≤ n
RowWithin c a n (some e) = Within c a n e

or_fresh-Within :
    (c : RateConfig) (a n now : ℕ) (k : Str) (r : Option Entry)
    → a ≤ now
    → RowWithin c a n r
    → Within c a n (or_fresh k now r)
unfolding fresh_entry
or_fresh-Within c a n now k none h w = ground arith
or_fresh-Within c a n now k (some e) h w = w

-- One judged request: of `k` itself, or of another key.
step-Within :
    (c : RateConfig) (a n now : ℕ) (k j : Str) (s t : Security) (v : Verdict)
    → c.max_requests < u32
    → c.window_seconds ≤ c.penalty_seconds
    → s.config ≡ c
    → (str_eq j k ≡ true → (a ≤ now) × (now < a + c.window_seconds))
    → Judged j now s t v
    → Rows j now s t
    → RowWithin c a n (lookup k s.entries)
    → ((if str_eq j k then admits v else 0) ≤ n)
      × RowWithin c a (n - (if str_eq j k then admits v else 0)) (lookup k t.entries)
step-Within c a n now k j s t v word long config during judged rows w =
    elim (Bool-cases (str_eq j k)) [
      | inr other ↦
          rw (other, rows k, other) (omega arith, let same : n - 0 ≡ n = omega arith in rw same w)
      | inl own ↦
          let e : k ≡ j = sym (eq_of_str_eq j k own) in
          let row : Entry = or_fresh j now (lookup j s.entries) in
          let before : Within c a n row =
            or_fresh-Within c a n now j (lookup j s.entries) (during own).0 (rw e at w) in
          rw (own, rows k, own, judged.verdict, config)
            (judge-Within c a n now row word long (during own).0 (during own).1 before)
    ]

-- The key has a row.
abbrev pub Known : Str → Security → Type 0
Known k s = (e : Entry) × (lookup k s.entries ≡ some e)

-- The key has a row, or there is room for a row for each of so many requests.
abbrev pub HasPlace : Str → ℕ → Security → Type 0
HasPlace k n s = Known k s ⊎ (length s.entries + n ≤ s.capacity)

-- A request is judged, or it is one of another key that finds the table full.
abbrev Handled : Str → Str → ℕ → Security → Security → Verdict → Type 0
Handled k j now s t v = (Judged j now s t v × Rows j now s t) ⊎ ((t ≡ s) × (str_eq j k ≡ false))

check-Handled :
    (realloc : ℕ → Bool) (k j : Str) (now n : ℕ) (s : Security)
    → Realloc realloc
    → length j ≤ key_max
    → IsValid s
    → HasPlace k (suc n) s
    → (t : Security) × (v : Verdict) × (check_rate_limit realloc now (some j) s ≡ done (t, v))
      × Handled k j now s t v
check-Handled realloc k j now n s grants short valid (inr room) =
    elim (check_rate_limit-Rows realloc j now s grants short valid) [
      | inl (run, full) ↦ absurd (omega (arith, room, full.0))
      | inr (t, v, run, judged, rows) ↦ (t, v, run, inl (judged, rows))
    ]
check-Handled realloc k j now n s grants short valid (inl (e, at)) =
    elim (Bool-cases (str_eq j k)) [
      | inl own ↦
          let same : k ≡ j = sym (eq_of_str_eq j k own) in
          let known : lookup j s.entries ≡ some e =
            subst (λ i. lookup i s.entries ≡ some e) same at in
          let (t, v, run, judged, rows) =
            check_rate_limit-known realloc j now s e short valid known in
          (t, v, run, inl (judged, rows))
      | inr other ↦ elim (check_rate_limit-Rows realloc j now s grants short valid) [
        | inl (run, full) ↦ (s, table_full, run, inr (refl, other))
        | inr (t, v, run, judged, rows) ↦ (t, v, run, inl (judged, rows))
      ]
    ]

HasPlace-next :
    (k j : Str) (now n : ℕ) (s t : Security) (v : Verdict)
    → Judged j now s t v
    → Rows j now s t
    → HasPlace k (suc n) s
    → HasPlace k n t
HasPlace-next k j now n s t v judged rows (inr room) =
    inr (omega (arith, room, judged.rows, judged.grown))
HasPlace-next k j now n s t v judged rows (inl (e, at)) = elim (Bool-cases (str_eq j k)) [
  | inl own ↦
      inl ((judge s.config now (or_fresh j now (lookup j s.entries))).0, rw (rows k, own) refl)
  | inr other ↦ inl (e, rw (rows k, other) at)
]

HasPlace-less : (k : Str) (n : ℕ) (s : Security) → HasPlace k (suc n) s → HasPlace k n s
HasPlace-less k n s (inl known) = inl known
HasPlace-less k n s (inr room) = inr (omega (arith, room))

-- The history from a state where `k` has `n` requests left.
run_checks-Within :
    (realloc : ℕ → Bool) (c : RateConfig) (a n : ℕ) (k : Str) (h : List (Str × ℕ)) (s : Security)
    → Realloc realloc
    → c.max_requests < u32
    → c.window_seconds ≤ c.penalty_seconds
    → IsValid s
    → s.config ≡ c
    → KeysFit h
    → Between k a (a + c.window_seconds) h
    → HasPlace k (length h) s
    → RowWithin c a n (lookup k s.entries)
    → (t : Security) × (vs : List (Str × Verdict)) × (run_checks realloc h s ≡ done (t, vs))
      × IsValid t
      × (admitted k vs ≤ n)
unfolding run_checks
run_checks-Within realloc c a n k [] s grants word long valid config fit during place w =
    (s, [], refl, valid, omega arith)
run_checks-Within realloc c a n k ((j, now) ∷ h) s grants word long valid config fit during place
      w =
    let (t, v, checked, handled) =
      check-Handled realloc k j now (length h) s grants fit.0 valid place in
    elim handled [
      | inr (same, other) ↦
          let less = HasPlace-less k (length h) s place in
          let (u, vs, run, valid', bound) =
            run_checks-Within realloc c a n k h s grants word long valid config fit.1 during.1 less
              w in
          (u, (j, v) ∷ vs, rw (checked, same, run) refl, valid', ground (arith, other, bound))
      | inl (judged, rows) ↦
          let (spent, left) =
            step-Within c a n now k j s t v word long config during.0 judged rows w in
          let next = HasPlace-next k j now (length h) s t v judged rows place in
          let (u, vs, run, valid', bound) =
            run_checks-Within realloc c a (n - (if str_eq j k then admits v else 0)) k h t grants
              word long judged.valid (judged.config ∙ config) fit.1 during.1 next left in
          (u, (j, v) ∷ vs, rw (checked, run) refl, valid', omega (arith, spent, bound))
    ]

-- On a valid state, where `realloc` grants no 2^63 bytes or more, with a limit under 2^32 and a
-- penalty that lasts at least a window, any sequence of checks whose keys fit their field and where
-- all requests of a key `k` fall into one stretch of time as long as a window runs without a fault
-- and leaves a valid state, and at most twice `max_requests` of those of `k` get the return code 0,
-- whatever the other keys do between them and whatever `k` did before. The key has a row when the
-- sequence starts, or the table has room for as many rows as there are checks.
pub run_checks-quota :
    (realloc : ℕ → Bool) (a : ℕ) (k : Str) (h : List (Str × ℕ)) (s : Security)
    → Realloc realloc
    → s.config.max_requests < u32
    → s.config.window_seconds ≤ s.config.penalty_seconds
    → IsValid s
    → KeysFit h
    → Between k a (a + s.config.window_seconds) h
    → HasPlace k (length h) s
    → (t : Security) × (vs : List (Str × Verdict)) × (run_checks realloc h s ≡ done (t, vs))
      × IsValid t
      × (admitted k vs ≤ 2 * s.config.max_requests)
run_checks-quota realloc a k h s grants word long valid fit during place =
    run_checks-Within realloc s.config a (2 * s.config.max_requests) k h s grants word long valid
      refl fit during place (start (lookup k s.entries))
  where
    start : (r : Option Entry) → RowWithin s.config a (2 * s.config.max_requests) r
    start none = omega arith
    start (some e) = inr (inr (omega arith))
