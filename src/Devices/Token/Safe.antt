-- ===== src/Devices/Token/Safe.antt =====
-- The bytes and the length of the tokens of server/proxy/server/device_manager.c.
use net_port.Base.{
  ℕ, zero, suc, ◌+◌, ◌/◌, ◌%◌, ◌≤◌, ◌<◌, ◌≡◌, refl, Bool, true, ◌&&◌, ◌||◌, [], ◌∷◌, ◌++◌, some,
  inl, inr, Str, codes, ap, length, length-append, get_elem?_of_lt, take_of_length-le, ltb, leb,
  ◌==◌, arith, Bool-cases, All, All-append, All-get_elem?,
}
use net_port.Devices.Token.{
  charset, charset_at, random_part, hex_digit, hex_digits, print_hex, random_len,
  generate_session_token,
}
use net_port.Devices.Register.{token_size}

-- A digit, a letter or `-`: a byte that no text of SQL or JSON has to escape.
abbrev pub is_plain : ℕ → Bool
is_plain c =
    (leb 48 c && leb c 57) || (leb 65 c && leb c 90) || (leb 97 c && leb c 122) || (c == 45)

abbrev pub Plain : ℕ → Type 0
Plain c = is_plain c ≡ true

unfoldable all_plain : Str → Bool
all_plain [] = true
all_plain (c ∷ s) = is_plain c && all_plain s

All-Plain : (s : Str) → all_plain s ≡ true → All Plain s
unfolding all_plain
All-Plain [] e = tt
All-Plain (c ∷ s) e = (ground (arith, e), All-Plain s (ground (arith, e)))

charset-Plain : All Plain charset
unfolding all_plain
charset-Plain = All-Plain charset refl

charset_at-Plain : (value : ℕ) → Plain (charset_at (value % 62))
unfolding charset_at
charset_at-Plain value =
    let (c, found) = get_elem?_of_lt charset (value % 62) (omega arith) in
    rw (found, charset_at) (All-get_elem? Plain charset (value % 62) charset-Plain found)

random_part-Plain : (rand_r : ℕ → ℕ × ℕ) (n seed : ℕ) → All Plain (random_part rand_r n seed)
unfolding random_part
random_part-Plain rand_r zero seed = tt
random_part-Plain rand_r (suc n) seed =
    (charset_at-Plain (rand_r seed).0, random_part-Plain rand_r n (rand_r seed).1)

length-random_part : (rand_r : ℕ → ℕ × ℕ) (n seed : ℕ) → length (random_part rand_r n seed) ≡ n
unfolding random_part
length-random_part rand_r zero seed = refl
length-random_part rand_r (suc n) seed = ap suc (length-random_part rand_r n (rand_r seed).1)

hex_digit-Plain : (d : ℕ) → d < 16 → Plain (hex_digit d)
unfolding hex_digit
hex_digit-Plain d h = ground (arith, h)

hex_digits-Plain : (fuel n : ℕ) → All Plain (hex_digits fuel n)
unfolding hex_digits
hex_digits-Plain zero n = (hex_digit-Plain (n % 16) (omega arith), tt)
hex_digits-Plain (suc fuel) n = elim (Bool-cases (ltb n 16)) [
  | inl small ↦ rw (small, hex_digits) (hex_digit-Plain n (ground (arith, small)), tt)
  | inr large ↦
      rw (large, hex_digits)
        (All-append Plain (hex_digits fuel (n / 16)) (hex_digit (n % 16) ∷ [])
          (hex_digits-Plain fuel (n / 16)) (hex_digit-Plain (n % 16) (omega arith), tt))
]

length-hex_digits :
    (fuel n : ℕ) → (1 ≤ length (hex_digits fuel n)) × (length (hex_digits fuel n) ≤ fuel + 1)
unfolding hex_digits
length-hex_digits zero n = (omega arith, omega arith)
length-hex_digits (suc fuel) n =
    let (low, high) = length-hex_digits fuel (n / 16) in
    let size = length-append (hex_digits fuel (n / 16)) (hex_digit (n % 16) ∷ []) in
    elim (Bool-cases (ltb n 16)) [
      | inl small ↦ rw (small, hex_digits) (omega arith, omega arith)
      | inr large ↦ rw (large, hex_digits) (omega (arith, size), omega (arith, size, high))
    ]

-- A token that the registration makes has 34 to 49 bytes, each a digit, a letter or `-`, whatever the
-- time, the seed and the random numbers.
pub generate_session_token-Plain :
    (rand_r : ℕ → ℕ × ℕ) (now seed : ℕ)
    → (token : Str) × (generate_session_token rand_r now seed token_size ≡ some token)
      × All Plain token
      × (34 ≤ length token)
      × (length token ≤ 49)
unfolding generate_session_token random_len
generate_session_token-Plain rand_r now seed =
    let token = print_hex now ++ codes "-" ++ random_part rand_r 32 seed in
    let (low, high) = length-hex_digits 15 now in
    let front = length-append (print_hex now) (codes "-") in
    let size = length-append (print_hex now ++ codes "-") (random_part rand_r 32 seed) in
    let random = length-random_part rand_r 32 seed in
    let short : length token ≤ 49 = omega (arith, front, size, random, high) in
    (
      token,
      ap some (take_of_length-le 256 token (omega (arith, short))),
      All-append Plain (print_hex now ++ codes "-") (random_part rand_r 32 seed)
          (All-append Plain (print_hex now) (codes "-") (hex_digits-Plain 15 now) (refl, tt))
          (random_part-Plain rand_r 32 seed),
      omega (arith, front, size, random, low),
      short,
    )
