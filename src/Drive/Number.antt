-- ===== src/Drive/Number.antt =====
-- Decimal numbers as Rust prints and reads a `u64`.
use nubisync.Base.{
  Bool, Option, Text, [], if◌then◌else◌, int_eq, is_empty, leb, ltb, nat_eq, none, not, option_eq,
  some, suc, text_eq, zero, ℕ, ◌&&◌, ◌*◌, ◌+◌, ◌-◌, ◌==◌, ◌||◌, ◌∷◌,
}
use Prim.Native.Nat.{◌/◌, ◌%◌}
pub mod Decimal

abbrev pub u64_bound : ℕ
u64_bound = 18446744073709551616

abbrev pub zero_digit : ℕ
zero_digit = 48

-- `Display`: the last digit is found first. A digit more of fuel than there are is enough.
unfoldable pub print_digits : ℕ → ℕ → Text → Text
print_digits zero n printed = printed
print_digits (suc fuel) n printed =
    let longer = print_digits fuel (n / 10) ((zero_digit + n % 10) ∷ printed) in
    if ltb n 10 then (zero_digit + n) ∷ printed else longer

-- A `u64` has at most 20 digits.
unfoldable pub print_u64 : ℕ → Text
print_u64 n = print_digits 20 n []

abbrev pub is_digit : ℕ → Bool
is_digit c = leb zero_digit c && leb c 57

-- `checked_mul` by ten and `checked_add` of the digit: `none` on overflow.
unfoldable pub parse_digits : ℕ → Text → Option ℕ
parse_digits value [] = some value
parse_digits value (c ∷ s) =
    let next = value * 10 + (c - zero_digit) in
    let rest = parse_digits next s in if not (is_digit c) || leb u64_bound next then none else rest

abbrev pub plus_sign : ℕ
plus_sign = 43

abbrev strip_plus : Text → Text
strip_plus [] = []
strip_plus (c ∷ s) = if c == plus_sign then s else c ∷ s

-- `str::parse::<u64>`: a plus sign may stand before the digits, of which there is at least one.
unfoldable pub parse_u64 : Text → Option ℕ
parse_u64 s = if is_empty (strip_plus s) then none else parse_digits 0 (strip_plus s)
