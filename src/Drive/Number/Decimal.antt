-- ===== src/Drive/Number/Decimal.antt =====
-- What is printed as a `u64` is read back.
use nubisync.Base.{
  Text, suc, zero, ℕ, ◌*◌, ◌<◌, ◌≡◌, Bool-cases, [], ap, arith, inl, inr, ltb, refl, some, true,
  ◌+◌, ◌-◌, ◌∙◌, ◌∷◌,
}
use Prim.Native.Nat.{◌/◌, ◌%◌}
use nubisync.Drive.Number.{
  u64_bound, zero_digit, print_digits, print_u64, is_digit, parse_digits, parse_u64,
}

-- Ten to a power.
power : ℕ → ℕ
power zero = 1
power (suc n) = power n * 10

parse_digits-step :
    (value digit : ℕ) (s : Text)
    → digit < 10
    → value * 10 + digit < u64_bound
    → parse_digits value ((zero_digit + digit) ∷ s) ≡ parse_digits (value * 10 + digit) s
unfolding parse_digits
parse_digits-step value digit s small fits =
    let good : is_digit (zero_digit + digit) ≡ true = ground arith in
    let same : zero_digit + digit - zero_digit ≡ digit = omega arith in
    rw (good, same) (ground arith)

parse-print_digits :
    (fuel n : ℕ) (printed : Text)
    → n < power fuel
    → n < u64_bound
    → parse_digits 0 (print_digits fuel n printed) ≡ parse_digits n printed
unfolding print_digits power
parse-print_digits zero n printed h k = let none_left : n ≡ 0 = omega arith in rw none_left refl
parse-print_digits (suc fuel) n printed h k = elim (Bool-cases (ltb n 10)) [
  | inl small ↦
      let below : n < 10 = ground (arith, small) in
      let step = parse_digits-step 0 n printed below (omega arith) in
      let same : 0 * 10 + n ≡ n = omega arith in
      rw small (step ∙ ap (λ x. parse_digits x printed) same)
  | inr large ↦
      let less : n / 10 < power fuel = omega arith in
      let less' : n / 10 < u64_bound = omega arith in
      let digit : n % 10 < 10 = omega arith in
      let same : n / 10 * 10 + n % 10 ≡ n = omega arith in
      let fits : n / 10 * 10 + n % 10 < u64_bound = omega arith in
      rw large (
        parse-print_digits fuel (n / 10) ((zero_digit + n % 10) ∷ printed) less less'
        ∙ parse_digits-step (n / 10) (n % 10) printed digit fits
        ∙ ap (λ x. parse_digits x printed) same)
]

-- The first character printed is a digit, and there is one.
pub IsNumeral : Text → Type 0
IsNumeral [] = ⊥
IsNumeral (c ∷ s) = is_digit c ≡ true

print_digits-IsNumeral :
    (fuel n : ℕ) (printed : Text) → IsNumeral printed → IsNumeral (print_digits fuel n printed)
unfolding print_digits IsNumeral
print_digits-IsNumeral zero n printed h = h
print_digits-IsNumeral (suc fuel) n printed h = elim (Bool-cases (ltb n 10)) [
  | inl small ↦ rw small (ground arith)
  | inr large ↦ rw large (print_digits-IsNumeral fuel (n / 10) _ (ground arith))
]

print_u64-IsNumeral : (n : ℕ) → IsNumeral (print_u64 n)
unfolding print_u64 print_digits IsNumeral
print_u64-IsNumeral n = elim (Bool-cases (ltb n 10)) [
  | inl small ↦ rw small (ground arith)
  | inr large ↦ rw large (print_digits-IsNumeral 19 (n / 10) _ (ground arith))
]

parse_numeral : (s : Text) → IsNumeral s → parse_u64 s ≡ parse_digits 0 s
unfolding parse_u64 IsNumeral
parse_numeral [] h = absurd h
parse_numeral (c ∷ s) h = ground arith

-- Every `u64` that is printed in decimal is read back as itself.
pub parse-print_u64 : (n : ℕ) → n < u64_bound → parse_u64 (print_u64 n) ≡ some n
unfolding print_u64
parse-print_u64 n h =
    let room : n < power 20 = unfold power in omega arith in
    parse_numeral (print_u64 n) (print_u64-IsNumeral n)
    ∙ parse-print_digits 20 n [] room h
    ∙ unfold parse_digits in refl
