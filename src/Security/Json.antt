-- ===== src/Security/Json.antt =====
-- `validate_json_input` of server/proxy/server/security_features.c.
use net_port.Base.{
  ℕ, Bool, true, false, not, ◌||◌, List, [], ◌∷◌, Option, none, some, Str, codes, length, ltb, ◌==◌,
  if◌then◌else◌,
}
pub mod Laws

unfoldable pub starts_with : Str → Str → Bool
starts_with [] s = true
starts_with (p ∷ ps) [] = false
starts_with (p ∷ ps) (c ∷ s) = if p == c then starts_with ps s else false

-- `strstr(s, pat) != NULL`.
unfoldable pub contains : Str → Str → Bool
contains pat [] = starts_with pat []
contains pat (c ∷ s) = if starts_with pat (c ∷ s) then true else contains pat s

-- The loop over the bytes: a NUL before the last one.
unfoldable pub inner_null : Str → Bool
inner_null [] = false
inner_null (c ∷ []) = false
inner_null (c ∷ d ∷ s) = if c == 0 then true else inner_null (d ∷ s)

abbrev pub suspicious_patterns : List Str
suspicious_patterns =
    codes "../"
    ∷ codes "..\\"
    ∷ codes "/etc/"
    ∷ codes "/bin/"
    ∷ codes "/dev/"
    ∷ codes "<?"
    ∷ codes "<script"
    ∷ codes "javascript:"
    ∷ codes "onload="
    ∷ codes "onerror="
    ∷ codes "eval("
    ∷ codes "exec("
    ∷ codes "system("
    ∷ codes "popen("
    ∷ codes "fopen("
    ∷ []

-- The loop over the patterns.
unfoldable pub any_pattern : Str → List Str → Bool
any_pattern s [] = false
any_pattern s (p ∷ ps) = if contains p s then true else any_pattern s ps

-- Whether the code is 0.
unfoldable pub validate_json_input : Option Str → ℕ → Bool
validate_json_input none max_length = false
validate_json_input (some s) max_length =
    if ltb max_length (length s)
    then false
    else if inner_null s
    then false
    else not (any_pattern s suspicious_patterns)
