-- ===== src/Security/Access.antt =====
-- The access lists of server/proxy/server/security_features.c.
use net_port.Base.{
  ℕ, Bool, true, false, not, ◌&&◌, List, [], ◌∷◌, ◌++◌, Option, none, some, Str, str_eq, length,
  ltb, if◌then◌else◌,
}
use net_port.Security.State.{Security}
pub mod Laws
pub mod Bans

-- The search loops over `g_ip_blacklist` and `g_ip_whitelist`.
unfoldable pub has : Str → List Str → Bool
has ip [] = false
has ip (x ∷ xs) = if str_eq x ip then true else has ip xs

-- `check_ip_access`: whether the code is 0.
unfoldable pub check_ip_access : Option Str → Security → Bool
check_ip_access none s = true
check_ip_access (some ip) s =
    if has ip s.blacklist
    then false
    else if ltb 0 (length s.whitelist)
    then has ip s.whitelist
    else true

-- `add_temporary_blacklist`. `realloc_ok` and `strdup_ok` are the answers of the two allocations.
-- `schedule_blacklist_removal`, which it ends with, only logs.
unfoldable pub add_temporary_blacklist : Bool → Bool → Option Str → Security → Security
add_temporary_blacklist realloc_ok strdup_ok none s = s
add_temporary_blacklist realloc_ok strdup_ok (some ip) s =
    if has ip s.blacklist
    then s
    else if realloc_ok && strdup_ok
    then record s { blacklist = s.blacklist ++ ip ∷ [] }
    else s
