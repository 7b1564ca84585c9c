-- ===== src/Security/RateLimit/LongKey.antt =====
-- Keys that do not fit the field of a row in server/proxy/server/security_features.c: `strncpy`
-- cuts them, and no row is found for them again.
use net_port.Base.{
  ℕ, ◌<◌, ◌≡◌, suc, refl, ap, ◌∙◌, Bool, true, List, [], ◌∷◌, none, some, inl, inr, map, Str,
  str_eq_iff, length, All, arith,
}
use net_port.Base.Outcome.{done}
use net_port.Security.State.{Entry, RateConfig, Security, key_max}
use net_port.Security.RateLimit.{
  Verdict, table_full, allowed, fresh_entry, judge, check_rate_limit, passes,
}
use net_port.Security.RateLimit.Table.{lookup}
use net_port.Security.RateLimit.Valid.{Realloc, IsValid, KeyFits}
use net_port.Security.RateLimit.Limiter.{or_fresh, check_rate_limit-Judged}
use net_port.Security.RateLimit.History.{run_checks}

lookup_long : (k : Str) (es : List Entry) → key_max < length k → All KeyFits es → lookup k es ≡ none
unfolding lookup
lookup_long k [] long fit = refl
lookup_long k (e ∷ es) long fit =
    ground (arith, str_eq_iff e.key k, lookup_long k es long fit.1, fit.0)

judge-fresh_entry :
    (c : RateConfig) (k : Str) (now : ℕ)
    → 0 < c.max_requests
    → (judge c now (fresh_entry k now)).1 ≡ allowed
unfolding judge fresh_entry
judge-fresh_entry c k now positive = ground arith

-- A single check of such a key.
check_long :
    (realloc : ℕ → Bool) (k : Str) (now : ℕ) (s : Security)
    → Realloc realloc
    → key_max < length k
    → 0 < s.config.max_requests
    → IsValid s
    → (t : Security) × (v : Verdict) × (check_rate_limit realloc now (some k) s ≡ done (t, v))
      × (passes v ≡ true)
      × IsValid t
      × (t.config ≡ s.config)
check_long realloc k now s grants long positive valid =
    elim (check_rate_limit-Judged realloc k now s grants valid) [
      | inl (full, why) ↦ (s, table_full, full, refl, valid, refl)
      | inr (t, v, run, judged) ↦
          let miss = lookup_long k s.entries long valid.fitting in
          let answer : v ≡ allowed =
            judged.verdict ∙ (rw (miss, or_fresh) (judge-fresh_entry s.config k now positive)) in
          (t, v, run, rw answer refl, judged.valid, judged.config)
    ]

-- The rate limit does not bind a key of more than 63 bytes: on a valid state with a positive
-- `max_requests`, where `realloc` grants no 2^63 bytes or more, every one of any number of requests
-- with such a key passes, at whatever times.
pub long_key_unlimited :
    (realloc : ℕ → Bool) (k : Str) (times : List ℕ) (s : Security)
    → Realloc realloc
    → key_max < length k
    → 0 < s.config.max_requests
    → IsValid s
    → (t : Security) × (vs : List (Str × Verdict)) × (run_checks realloc
          (map (λ now. (k, now)) times)
          s
        ≡ done (t, vs))
      × (length vs ≡ length times)
      × All (λ r. passes r.1 ≡ true) vs
unfolding run_checks
long_key_unlimited realloc k [] s grants long positive valid = (s, [], refl, refl, tt)
long_key_unlimited realloc k (now ∷ times) s grants long positive valid =
    let (t, v, checked, pass, valid', config) =
      check_long realloc k now s grants long positive valid in
    let (u, vs, run, count, rest) =
      long_key_unlimited realloc k times t grants long (rw config positive) valid' in
    (u, (k, v) ∷ vs, rw (checked, run) refl, ap suc count, (pass, rest))
