-- ===== src/Security/Lifecycle.antt =====
-- The set-up of server/proxy/server/security_features.c and its other operations on the table.
use net_port.Base.{ℕ, ◌<◌, ◌≡◌, refl, Bool, true, false, some, Str, arith}
use net_port.Base.Outcome.{fault}
use net_port.Security.State.{
  Security, initial, security_features_init, security_configure_rate_limit,
  security_reset_rate_limits,
}
use net_port.Security.RateLimit.{find_entry, append_entry, reserve, insert_key, check_rate_limit}
use net_port.Security.RateLimit.Valid.{IsValid}

-- The limits of `t` are positive, and it has the `max_penalties` of `s`.
pub record Positive (s t : Security) : Type 0 where
  pub requests : 0 < t.config.max_requests
  pub window : 0 < t.config.window_seconds
  pub penalty : 0 < t.config.penalty_seconds
  pub permanent : t.config.max_penalties ≡ s.config.max_penalties

-- A successful set-up gives a valid table from any state; `security_reset_rate_limits` and
-- `security_configure_rate_limit` keep a state valid, and after the last of these every limit is
-- positive, whatever it was given, with `max_penalties` as it was.
pub lifecycle-IsValid :
    (s : Security) (requests window penalty : ℕ)
    → IsValid s
    → IsValid (security_features_init true s).0
      × IsValid (security_reset_rate_limits s)
      × IsValid (security_configure_rate_limit requests window penalty s)
      × Positive s (security_configure_rate_limit requests window penalty s)
unfolding security_features_init security_reset_rate_limits security_configure_rate_limit
lifecycle-IsValid s requests window penalty valid = (
  record {
    has_table = refl;
    in_table = omega arith;
    has_room = omega arith;
    small = omega arith;
    fitting = tt;
  },
  record {
    has_table = valid.has_table;
    in_table = omega arith;
    has_room = valid.has_room;
    small = valid.small;
    fitting = tt;
  },
  record {
    has_table = valid.has_table;
    in_table = valid.in_table;
    has_room = valid.has_room;
    small = valid.small;
    fitting = valid.fitting;
  },
  record {
    requests = ground arith;
    window = ground arith;
    penalty = ground arith;
    permanent = refl;
  },
)

-- If the allocation of `security_features_init` fails, its caller goes on without it, and the
-- first check of any key writes through the NULL table.
pub failed_init_faults :
    (realloc : ℕ → Bool) (now : ℕ) (k : Str)
    → check_rate_limit realloc now (some k) (security_features_init false initial).0 ≡ fault
unfolding check_rate_limit security_features_init insert_key reserve append_entry find_entry
failed_init_faults realloc now k = refl
