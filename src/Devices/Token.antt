-- ===== src/Devices/Token.antt =====
-- `generate_session_token` of server/proxy/server/device_manager.c.
use net_port.Base.{
  ℕ, zero, suc, ◌+◌, ◌-◌, ◌/◌, ◌%◌, ◌≤◌, ◌<◌, Bool, true, false, List, [], ◌∷◌, ◌++◌, Option, none,
  some, Str, codes, length, get_elem?, take, ltb, leb, if◌then◌else◌,
}
pub mod Safe

abbrev pub charset : Str
charset = codes "abcdefghijklmnopqrstuvwxyzABCDEFGHIJKLMNOPQRSTUVWXYZ0123456789"

-- `charset[i]`, for an `i` below its length.
unfoldable pub charset_at : ℕ → ℕ
charset_at i = elim (get_elem? charset i) [ none ↦ 0 | some c ↦ c ]

-- `rand_r` gives a number and the next seed.
unfoldable pub random_part : (ℕ → ℕ × ℕ) → ℕ → ℕ → Str
random_part rand_r zero seed = []
random_part rand_r (suc n) seed =
    let (value, next) = rand_r seed in charset_at (value % 62) ∷ random_part rand_r n next

-- A digit of `%lx`.
unfoldable pub hex_digit : ℕ → ℕ
hex_digit d = if ltb d 10 then 48 + d else 87 + d

-- The `%lx` of a number with at most `fuel + 1` digits.
unfoldable pub hex_digits : ℕ → ℕ → Str
hex_digits zero n = hex_digit (n % 16) ∷ []
hex_digits (suc fuel) n =
    let front = hex_digits fuel (n / 16) in
    if ltb n 16 then hex_digit n ∷ [] else front ++ hex_digit (n % 16) ∷ []

-- An `unsigned long` has at most 16 digits.
abbrev pub print_hex : ℕ → Str
print_hex n = hex_digits 15 n

unfoldable pub random_len : ℕ → ℕ
random_len token_len = if ltb 48 token_len then 32 else token_len / 2

-- The token, or `none` for -1. `seed` is made of the time and the address of the name.
unfoldable pub generate_session_token : (ℕ → ℕ × ℕ) → ℕ → ℕ → ℕ → Option Str
generate_session_token rand_r now seed token_len =
    if ltb token_len 32
    then none
    else if leb 64 (random_len token_len)
    then none
    else some (
        take (token_len - 1)
          (print_hex now ++ codes "-" ++ random_part rand_r (random_len token_len) seed))
