-- ===== src/Base/Decimal.antt =====
-- Numbers as decimal text: the `%u` and `%llu` of `snprintf`, and `atoi`.
use Prim.Native.Nat.{ℕ, zero, suc, ◌+◌, ◌-◌, ◌*◌, ◌/◌, ◌%◌, ◌^◌, ◌≤◌, ◌<◌}
use mathlib.Core.Path.{◌≡◌, refl}
use mathlib.Core.Bool.{Bool, false, ◌&&◌, ◌||◌}
use mathlib.Core.Logic.{inl, inr}
use mathlib.Core.List.{[], ◌∷◌, ◌++◌}
use native.Mathlib.Omega.{arith}
use native.Mathlib.Nat.{pow-suc}
use net_port.Base.Tests.{ltb, leb, ◌==◌, if◌then◌else◌, Bool-cases}
use net_port.Base.Lists.{All, All-append, length, length-append}
use net_port.Base.Text.{Str}

-- `fuel` bounds the number of digits after the first one.
unfoldable pub digits : ℕ → ℕ → Str
digits zero n = (48 + n) ∷ []
digits (suc fuel) n =
    let front = digits fuel (n / 10) in
    if ltb n 10 then (48 + n) ∷ [] else front ++ (48 + n % 10) ∷ []

-- A number below 2^64 has at most 20 digits.
abbrev pub print_decimal : ℕ → Str
print_decimal n = digits 19 n

abbrev pub is_digit : ℕ → Bool
is_digit c = leb 48 c && leb c 57

unfoldable pub read_digits : ℕ → Str → ℕ
read_digits n [] = n
read_digits n (c ∷ s) =
    let more = read_digits (n * 10 + (c - 48)) s in if is_digit c then more else n

abbrev pub is_space : ℕ → Bool
is_space c = (c == 32) || (leb 9 c && leb c 13)

-- `atoi` and `atoll` cast to an unsigned type with `modulus` values.
unfoldable pub atoi : ℕ → Str → ℕ
atoi modulus [] = 0
atoi modulus (c ∷ s) =
    let after_space = atoi modulus s in
    if is_space c
    then after_space
    else if c == 45
    then (modulus - read_digits 0 s % modulus) % modulus
    else if c == 43
    then read_digits 0 s % modulus
    else read_digits 0 (c ∷ s) % modulus

abbrev Digit : ℕ → Type 0
Digit c = (48 ≤ c) × (c ≤ 57)

-- At most 20 digits are printed.
pub length-digits : (fuel n : ℕ) → length (digits fuel n) ≤ fuel + 1
unfolding digits
length-digits zero n = omega arith
length-digits (suc fuel) n =
    let size = length-append (digits fuel (n / 10)) ((48 + n % 10) ∷ []) in
    ground (arith, size, length-digits fuel (n / 10))

read_digits-append :
    (xs : Str) (n d : ℕ)
    → All Digit xs
    → d < 10
    → read_digits n (xs ++ (48 + d) ∷ []) ≡ read_digits n xs * 10 + d
unfolding read_digits
read_digits-append [] n d h small = ground arith
read_digits-append (x ∷ xs) n d h small =
    ground (arith, read_digits-append xs (n * 10 + (x - 48)) d h.1 small, h.0)

tenth : (fuel n : ℕ) → n < 10 ^ suc (suc fuel) → n / 10 < 10 ^ suc fuel
tenth fuel n h = let e = pow-suc 10 (suc fuel) in omega (arith, e)

digits-Digit : (fuel n : ℕ) → n < 10 ^ suc fuel → All Digit (digits fuel n)
unfolding digits
digits-Digit zero n h = ((omega arith, omega arith), tt)
digits-Digit (suc fuel) n h = elim (Bool-cases (ltb n 10)) [
  | inl small ↦ rw (small, digits) ((omega arith, ground (arith, small)), tt)
  | inr large ↦
      rw (large, digits)
        (All-append Digit (digits fuel (n / 10)) ((48 + n % 10) ∷ [])
          (digits-Digit fuel (n / 10) (tenth fuel n h)) ((omega arith, omega arith), tt))
]

read_digits-digits : (fuel n : ℕ) → n < 10 ^ suc fuel → read_digits 0 (digits fuel n) ≡ n
unfolding digits read_digits
read_digits-digits zero n h = ground arith
read_digits-digits (suc fuel) n h = elim (Bool-cases (ltb n 10)) [
  | inl small ↦ ground (arith, small)
  | inr large ↦
      rw
        (
          large,
          read_digits-append (digits fuel (n / 10)) 0 (n % 10)
              (digits-Digit fuel (n / 10) (tenth fuel n h)) (omega arith),
          read_digits-digits fuel (n / 10) (tenth fuel n h),
        )
        (omega arith)
]

atoi-Digit : (modulus : ℕ) (s : Str) → All Digit s → atoi modulus s ≡ read_digits 0 s % modulus
unfolding atoi read_digits
atoi-Digit modulus [] h = omega arith
atoi-Digit modulus (c ∷ s) h =
    let no_space : is_space c ≡ false = ground (arith, h.0) in
    let no_minus : (c == 45) ≡ false = ground (arith, h.0) in
    let no_plus : (c == 43) ≡ false = ground (arith, h.0) in rw (no_space, no_minus, no_plus) refl

-- A number below 2^64 is read back from its text, cut to the type it is read into.
pub atoi-print_decimal : (modulus n : ℕ) → n < 2 ^ 64 → atoi modulus (print_decimal n) ≡ n % modulus
atoi-print_decimal modulus n h =
    rw
      (
        atoi-Digit modulus (print_decimal n) (digits-Digit 19 n (omega arith)),
        read_digits-digits 19 n (omega arith),
      )
      refl
