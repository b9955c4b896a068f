-- ===== src/Kvstore/Decimal.antt =====
-- `snprintf(..., "%d", count)` for a count that is not negative.
use kvstore_epoll.Prelude.{
  ◌≢◌, ap, length, length-append, ℕ, zero, suc, ◌+◌, ◌-◌, ◌*◌, ◌/◌, ◌%◌, ◌<◌, ◌≤◌, ◌≡◌, [], ◌∷◌,
  ◌++◌, Bytes, All, All-append, arith, if◌then◌else◌, ltb, Bool-cases, inl, inr,
}

-- The decimal digits of a number below 10 ^ fuel, most significant first.
unfoldable pub print_digits : ℕ → ℕ → Bytes
print_digits zero n = []
print_digits (suc fuel) n =
    let front = print_digits fuel (n / 10) in
    if ltb n 10 then (n + b'0') ∷ [] else front ++ ((n % 10 + b'0') ∷ [])

unfoldable pub print_decimal : ℕ → Bytes
unfolding print_digits
print_decimal n = print_digits (suc n) n

-- The number that a text of decimal digits stands for.
unfoldable pub read_digits : ℕ → Bytes → ℕ
read_digits acc [] = acc
read_digits acc (b ∷ bs) = read_digits (acc * 10 + b - b'0') bs

read_digits-snoc :
    (acc : ℕ) (bs : Bytes) (d : ℕ)
    → read_digits acc (bs ++ ((d + b'0') ∷ [])) ≡ read_digits acc bs * 10 + d
unfolding read_digits
read_digits-snoc acc [] d = omega arith
read_digits-snoc acc (b ∷ bs) d = read_digits-snoc (acc * 10 + b - b'0') bs d

read-print_digits : (fuel n : ℕ) → n < fuel → read_digits 0 (print_digits fuel n) ≡ n
unfolding print_digits read_digits
read-print_digits zero n h = absurd (omega arith)
read-print_digits (suc fuel) n h = elim (Bool-cases (ltb n 10)) [
  | inl small ↦ rw small (omega arith)
  | inr large ↦
      let big : 10 ≤ n = ground arith in
      rw
        (
          large,
          read_digits-snoc 0 (print_digits fuel (n / 10)) (n % 10),
          read-print_digits fuel (n / 10) (omega arith),
        )
        (omega arith)
]

-- The decimal text of a number is read back as that number: the fuel is enough.
pub read-print_decimal : (n : ℕ) → read_digits 0 (print_decimal n) ≡ n
unfolding print_decimal
read-print_decimal n = read-print_digits (suc n) n (omega arith)

-- It consists of the digits 0 to 9.
pub print_digits-IsDecimal : (fuel n : ℕ) → All (λ b. (b'0' ≤ b) × (b ≤ b'9')) (print_digits fuel n)
unfolding print_digits
print_digits-IsDecimal zero n = tt
print_digits-IsDecimal (suc fuel) n = elim (Bool-cases (ltb n 10)) [
  | inl small ↦ let less : n < 10 = ground arith in rw small ((omega arith, omega arith), tt)
  | inr large ↦ rw large (
      All-append (λ b. (b'0' ≤ b) × (b ≤ b'9')) (print_digits fuel (n / 10)) _
        (print_digits-IsDecimal fuel (n / 10)) ((omega arith, omega arith), tt))
]

-- It has a digit at least.
pub print_decimal-ne-nil : (n : ℕ) → print_decimal n ≢ []
unfolding print_decimal print_digits
print_decimal-ne-nil n e = elim (Bool-cases (ltb n 10)) [
  | inl small ↦ cc (small, e)
  | inr large ↦
      ground (arith, ap length e, length-append (print_digits n (n / 10)) ((n % 10 + b'0') ∷ []))
]
