-- ===== src/Security/Gate/Laws.antt =====
-- What the request checks of server/proxy/server/security_features.c guarantee together.
use net_port.Base.{
  ℕ, ◌≡◌, refl, ap, ◌∙◌, inl, inr, Bool, false, ◌&&◌, Option, none, some, Str, arith, Bool-cases,
}
use net_port.Base.Outcome.{done}
use net_port.Security.State.{Security}
use net_port.Security.RateLimit.{Verdict, table_full, passes, check_rate_limit}
use net_port.Security.RateLimit.Valid.{Realloc, IsValid}
use net_port.Security.RateLimit.Limiter.{check_rate_limit-Judged}
use net_port.Security.Access.{check_ip_access}
use net_port.Security.Gate.{
  check_source, check_caller, validate_device_token, session_key, validate_session_token_security,
}

-- Same access lists, and still valid.
pub record Keeps (s t : Security) : Type 0 where
  pub valid : IsValid t
  pub whitelist : t.whitelist ≡ s.whitelist
  pub blacklist : t.blacklist ≡ s.blacklist

check-Keeps :
    (realloc : ℕ → Bool) (k : Str) (now : ℕ) (s : Security)
    → Realloc realloc
    → IsValid s
    → (t : Security) × (v : Verdict) × (check_rate_limit realloc now (some k) s ≡ done (t, v))
      × Keeps s t
check-Keeps realloc k now s grants valid =
    elim (check_rate_limit-Judged realloc k now s grants valid) [
      | inl (full, why) ↦
          (s, table_full, full, record { valid = valid; whitelist = refl; blacklist = refl })
      | inr (t, v, run, j) ↦
          (t, v, run, record { valid = j.valid; whitelist = j.whitelist; blacklist = j.blacklist })
    ]

check_ip_access-Keeps :
    (ip : Option Str) (s t : Security) → Keeps s t → check_ip_access ip t ≡ check_ip_access ip s
unfolding check_ip_access
check_ip_access-Keeps none s t keeps = refl
check_ip_access-Keeps (some ip) s t keeps = rw (keeps.blacklist, keeps.whitelist)

-- The answer of a gate that ends in the access lists of `s`: it holds at most if they let `ip` in.
pub record Gated (ip : Option Str) (s t : Security) (ok : Bool) : Type 0 where
  pub keeps : Keeps s t
  pub answer : ok ≡ (ok && check_ip_access ip s)

and_self : (a : Bool) → a ≡ (a && a)
and_self a = ground arith

and_again : (a b : Bool) → (a && b) ≡ ((a && b) && b)
and_again a b = ground arith

unchanged-Gated : (ip : Option Str) (s : Security) → IsValid s → Gated ip s s false
unchanged-Gated ip s valid = record {
  keeps = record { valid = valid; whitelist = refl; blacklist = refl };
  answer = refl;
}

trans-Keeps : (s t u : Security) → Keeps s t → Keeps t u → Keeps s u
trans-Keeps s t u a b = record {
  valid = b.valid;
  whitelist = b.whitelist ∙ a.whitelist;
  blacklist = b.blacklist ∙ a.blacklist;
}

check_caller-Gated :
    (realloc : ℕ → Bool) (now : ℕ) (ip : Option Str) (s : Security)
    → Realloc realloc
    → IsValid s
    → (t : Security) × (ok : Bool) × (check_caller realloc now ip s ≡ done (t, ok))
      × Gated ip s t ok
unfolding check_caller check_source
check_caller-Gated realloc now none s grants valid = (
  s,
  check_ip_access none s,
  refl,
  record {
    keeps = record { valid = valid; whitelist = refl; blacklist = refl };
    answer = and_self (check_ip_access none s);
  },
)
check_caller-Gated realloc now (some ip) s grants valid =
    let (t, v, run, keeps) = check-Keeps realloc ip now s grants valid in
    (
      t,
      passes v && check_ip_access (some ip) t,
      rw run refl,
      record {
        keeps = keeps;
        answer =
            rw (check_ip_access-Keeps (some ip) s t keeps)
              (and_again (passes v) (check_ip_access (some ip) s));
      },
    )

-- On a valid state, where `realloc` grants no 2^63 bytes or more, `validate_device_token` ends
-- without a fault, keeps the state valid and the access lists as they are, and accepts only a
-- caller whom the access lists let in.
pub validate_device_token-Gated :
    (realloc : ℕ → Bool) (now later : ℕ) (device_id auth_token ip : Option Str) (s : Security)
    → Realloc realloc
    → IsValid s
    → (t : Security) × (ok : Bool) × (validate_device_token realloc now later device_id auth_token
          ip s
        ≡ done (t, ok))
      × Gated ip s t ok
unfolding validate_device_token
validate_device_token-Gated realloc now later none token ip s grants valid =
    (s, false, refl, unchanged-Gated ip s valid)
validate_device_token-Gated realloc now later (some d) none ip s grants valid =
    (s, false, refl, unchanged-Gated ip s valid)
validate_device_token-Gated realloc now later (some d) (some token) ip s grants valid =
    let (t, v, run, keeps) = check-Keeps realloc d now s grants valid in
    let (u, ok, run', gated) = check_caller-Gated realloc later ip t grants keeps.valid in
    elim (Bool-cases (passes v)) [
      | inr refused ↦ (t, false, rw (run, refused) refl, record { keeps = keeps; answer = refl })
      | inl passed ↦ (
        u,
        ok,
        rw (run, passed) run',
        record {
          keeps = trans-Keeps s t u keeps gated.keeps;
          answer = gated.answer ∙ ap (λ b. ok && b) (check_ip_access-Keeps ip s t keeps);
        },
      )
    ]

-- On a valid state, where `realloc` grants no 2^63 bytes or more, `validate_session_token_security`
-- ends without a fault, keeps the state valid and the access lists as they are, and accepts only a
-- caller whom the access lists let in.
pub validate_session-Gated :
    (realloc : ℕ → Bool) (now : ℕ) (token ip : Option Str) (s : Security)
    → Realloc realloc
    → IsValid s
    → (t : Security) × (ok : Bool) × (validate_session_token_security realloc now token ip s
        ≡ done (t, ok))
      × Gated ip s t ok
unfolding validate_session_token_security
validate_session-Gated realloc now none ip s grants valid =
    (s, false, refl, unchanged-Gated ip s valid)
validate_session-Gated realloc now (some token) ip s grants valid =
    let (t, v, run, keeps) = check-Keeps realloc (session_key token) now s grants valid in
    (
      t,
      passes v && check_ip_access ip t,
      rw run refl,
      record {
        keeps = keeps;
        answer =
            rw (check_ip_access-Keeps ip s t keeps) (and_again (passes v) (check_ip_access ip s));
      },
    )
