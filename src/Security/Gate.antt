-- ===== src/Security/Gate.antt =====
-- The checks of server/proxy/server/security_features.c that the request handlers make:
-- `validate_device_token` and `validate_session_token_security`.
use net_port.Base.{
  ℕ, Bool, true, false, not, ◌&&◌, List, [], ◌∷◌, ◌++◌, Option, none, some, Str, codes, take,
  if◌then◌else◌,
}
use net_port.Base.Outcome.{Outcome, done, fault, ◌>>=◌}
use net_port.Security.State.{Security}
use net_port.Security.RateLimit.{Verdict, passes, check_rate_limit}
use net_port.Security.Access.{check_ip_access}
pub mod Laws

-- The rate limit of a caller whose address is known.
unfoldable pub check_source : (ℕ → Bool) → ℕ → Option Str → Security → Outcome (Security × Bool)
check_source realloc now none s = done (s, true)
check_source realloc now (some ip) s = do
  (t, v) ← check_rate_limit realloc now (some ip) s
  done (t, passes v)

-- The last two tests of `validate_device_token`.
unfoldable pub check_caller : (ℕ → Bool) → ℕ → Option Str → Security → Outcome (Security × Bool)
check_caller realloc now ip s = do
  (t, ok) ← check_source realloc now ip s
  done (t, ok && check_ip_access ip t)

-- `validate_device_token(device_id, auth_token, source_ip)`: whether the code is 0. `now` and
-- `later` are what the clock shows to the two rate-limit checks.
unfoldable pub validate_device_token :
    (ℕ → Bool) → ℕ → ℕ → Option Str → Option Str → Option Str → Security → Outcome (Security × Bool)
validate_device_token realloc now later none auth_token ip s = done (s, false)
validate_device_token realloc now later (some device_id) none ip s = done (s, false)
validate_device_token realloc now later (some device_id) (some auth_token) ip s = do
  (t, v) ← check_rate_limit realloc now (some device_id) s
  if passes v then check_caller realloc later ip t else done (t, false)

-- `session_%.16s`.
abbrev pub session_key : Str → Str
session_key token = codes "session_" ++ take 16 token

-- `validate_session_token_security(session_token, source_ip)`: whether the code is 0.
unfoldable pub validate_session_token_security :
    (ℕ → Bool) → ℕ → Option Str → Option Str → Security → Outcome (Security × Bool)
validate_session_token_security realloc now none ip s = done (s, false)
validate_session_token_security realloc now (some token) ip s = do
  (t, v) ← check_rate_limit realloc now (some (session_key token)) s
  done (t, passes v && check_ip_access ip t)
