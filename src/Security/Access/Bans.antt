-- ===== src/Security/Access/Bans.antt =====
-- How long an address of `add_temporary_blacklist` stays shut out: the operations of
-- server/proxy/server/security_features.c in any order, `security_features_cleanup` left out.
use net_port.Base.{ℕ, ◌≡◌, Bool, true, false, Option, none, some, Str, str_eq_refl, arith}
use net_port.Base.Outcome.{done}
use net_port.Security.State.{
  Security, security_features_init, security_configure_rate_limit, security_reset_rate_limits,
}
use net_port.Security.RateLimit.{
  Verdict, reserve, append_entry, judge_at, insert_key, check_rate_limit,
}
use net_port.Security.Access.{has, check_ip_access, add_temporary_blacklist}
use net_port.Security.Access.Laws.{has-append}

check_rate_limit-blacklist :
    (realloc : ℕ → Bool) (now : ℕ) (key : Option Str) (s t : Security) (v : Verdict)
    → check_rate_limit realloc now key s ≡ done (t, v)
    → t.blacklist ≡ s.blacklist
unfolding check_rate_limit insert_key judge_at append_entry reserve
check_rate_limit-blacklist realloc now none s t v e = ground arith
check_rate_limit-blacklist realloc now (some k) s t v e = ground arith

-- One operation on the state, with whatever its environment answers.
pub data Step (s : Security) (t : Security) : Type 0 where
  init : (calloc_ok : Bool) → t ≡ (security_features_init calloc_ok s).0 → Step s t
  check :
      (realloc : ℕ → Bool) (now : ℕ) (key : Option Str) (v : Verdict)
      → check_rate_limit realloc now key s ≡ done (t, v)
      → Step s t
  ban :
      (realloc_ok strdup_ok : Bool) (ip : Option Str)
      → t ≡ add_temporary_blacklist realloc_ok strdup_ok ip s
      → Step s t
  configure :
      (requests window penalty : ℕ)
      → t ≡ security_configure_rate_limit requests window penalty s
      → Step s t
  reset : t ≡ security_reset_rate_limits s → Step s t

-- Any number of operations, the first one first.
pub data Reach (s : Security) : Security → Type 0 where
  here : Reach s s
  next : {t u : Security} → Reach s t → Step t u → Reach s u

Step-has :
    (j : Str) {s t : Security} → has j s.blacklist ≡ true → Step s t → has j t.blacklist ≡ true
unfolding security_features_init security_configure_rate_limit security_reset_rate_limits
    add_temporary_blacklist
Step-has j banned (init ok e) = ground arith
Step-has j {s} {t} banned (check realloc now key v e) =
    rw (check_rate_limit-blacklist realloc now key s t v e) banned
Step-has j banned (ban a b none e) = ground arith
Step-has j {s} banned (ban a b (some ip) e) = ground (arith, has-append j ip s.blacklist)
Step-has j banned (configure r w p e) = ground arith
Step-has j banned (reset e) = ground arith

Reach-has :
    (j : Str) {s t : Security} → has j s.blacklist ≡ true → Reach s t → has j t.blacklist ≡ true
Reach-has j banned here = banned
Reach-has j banned (next r st) = Step-has j (Reach-has j banned r) st

added :
    (ip : Str) (s : Security)
    → has ip (add_temporary_blacklist true true (some ip) s).blacklist ≡ true
unfolding add_temporary_blacklist
added ip s = ground (arith, has-append ip ip s.blacklist, str_eq_refl ip)

-- An address that `add_temporary_blacklist` could store is refused after every sequence of
-- operations that follows, for good: the duration that it was given has no effect.
pub ban_is_permanent :
    (ip : Str) (s : Security) {t : Security}
    → Reach (add_temporary_blacklist true true (some ip) s) t
    → check_ip_access (some ip) t ≡ false
unfolding check_ip_access
ban_is_permanent ip s r = rw (Reach-has ip (added ip s) r)
