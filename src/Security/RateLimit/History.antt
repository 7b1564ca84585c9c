-- ===== src/Security/RateLimit/History.antt =====
-- Sequences of rate-limit checks, as the control server makes them one after another.
use net_port.Base.{
  ℕ, ◌+◌, Bool, List, [], ◌∷◌, some, Str, str_eq, if◌then◌else◌, ◌≤◌, ◌<◌, ◌≡◌, true, length,
}
use net_port.Base.Outcome.{Outcome, done, ◌>>=◌}
use net_port.Security.State.{Security, key_max}
use net_port.Security.RateLimit.{Verdict, passes, check_rate_limit}

-- The requests with their keys and times, oldest first; the answers in the same order.
unfoldable pub run_checks :
    (ℕ → Bool) → List (Str × ℕ) → Security → Outcome (Security × List (Str × Verdict))
run_checks realloc [] s = done (s, [])
run_checks realloc ((k, now) ∷ h) s = do
  (t, v) ← check_rate_limit realloc now (some k) s
  (u, vs) ← run_checks realloc h t
  done (u, (k, v) ∷ vs)

-- 1 for a request that was let through.
abbrev pub admits : Verdict → ℕ
admits v = if passes v then 1 else 0

-- The requests of one key that were let through.
abbrev pub admitted : Str → List (Str × Verdict) → ℕ
admitted k [] = 0
admitted k ((j, v) ∷ vs) = (if str_eq j k then admits v else 0) + admitted k vs

-- Every key fits its field.
abbrev pub KeysFit : List (Str × ℕ) → Type 0
KeysFit [] = Unit
KeysFit ((k, now) ∷ h) = (length k ≤ key_max) × KeysFit h

-- Every request of `k` is made from `a` on and before `b`.
abbrev pub Between : Str → ℕ → ℕ → List (Str × ℕ) → Type 0
Between k a b [] = Unit
Between k a b ((j, now) ∷ h) = (str_eq j k ≡ true → (a ≤ now) × (now < b)) × Between k a b h
