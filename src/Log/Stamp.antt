-- ===== src/Log/Stamp.antt =====
-- How long a line may be.
use kvstore_epoll.Prelude.{
  ℕ, zero, suc, ◌+◌, ◌-◌, ◌/◌, ◌≤◌, ◌<◌, ◌^◌, ◌≡◌, [], ◌∷◌, ◌++◌, Bytes, false, length,
  length-append, if◌then◌else◌, ltb, leb, Bool-cases, inl, inr, ok, fault, out_of_bounds, arith,
}
use kvstore_epoll.Kvstore.Decimal.{print_digits, print_decimal}
use kvstore_epoll.Log.Format.{Moment, zeros, padded, label_of, stamp}
use kvstore_epoll.Log.Write.{log_buffer_size, log_line}

-- A time of day in a year of four digits.
pub record IsMoment (m : Moment) : Type 0 where
  pub year_long : m.year + 1900 < 10000
  pub month_in : m.month < 12
  pub day_in : m.day < 32
  pub hour_in : m.hour < 24
  pub minute_in : m.minute < 60
  pub second_in : m.second < 61
  pub micros_in : m.micros < 1000000

-- The digits of `n` are `k`, or at most `k`, if the fuel is enough.
abbrev HasDigits : ℕ → ℕ → Type 0
HasDigits k n = (fuel : ℕ) → n < fuel → length (print_digits fuel n) ≡ k

abbrev AtMost : ℕ → ℕ → Type 0
AtMost k n = (fuel : ℕ) → n < fuel → length (print_digits fuel n) ≤ k

one_digit : (n : ℕ) → n < 10 → HasDigits 1 n
unfolding print_digits
one_digit n h zero lt = absurd (omega arith)
one_digit n h (suc fuel) lt = ground arith

more_digits : (k n : ℕ) → 10 ≤ n → HasDigits k (n / 10) → HasDigits (suc k) n
unfolding print_digits
more_digits k n h rest zero lt = absurd (omega arith)
more_digits k n h rest (suc fuel) lt =
    let front = rest fuel (omega arith) in
    let large : ltb n 10 ≡ false = ground arith in
    rw (large, length-append {0}, front) (omega arith)

small-AtMost : (n : ℕ) → n < 10 → AtMost 1 n
small-AtMost n h fuel lt = omega (arith, one_digit n h fuel lt)

more-AtMost : (k n : ℕ) → AtMost k (n / 10) → AtMost (suc k) n
unfolding print_digits
more-AtMost k n rest zero lt = absurd (omega arith)
more-AtMost k n rest (suc fuel) lt = elim (Bool-cases (ltb n 10)) [
  | inl small ↦ rw small (omega arith)
  | inr large ↦
      let far : 10 ≤ n = ground arith in
      rw (large, length-append {0}) (omega (arith, rest fuel (omega arith)))
]

-- A number below 2 ^ 32 has at most ten digits.
pub ten_digits : (n : ℕ) → n < 2 ^ 32 → length (print_decimal n) ≤ 10
unfolding print_decimal
ten_digits n h =
    more-AtMost 9 n
      (more-AtMost 8 (n / 10) (
        more-AtMost 7 (n / 10 / 10) (
          more-AtMost 6 (n / 10 / 10 / 10) (
            more-AtMost 5 (n / 10 / 10 / 10 / 10) (
              more-AtMost 4 (n / 10 / 10 / 10 / 10 / 10) (
                more-AtMost 3 (n / 10 / 10 / 10 / 10 / 10 / 10) (
                  more-AtMost 2 (n / 10 / 10 / 10 / 10 / 10 / 10 / 10) (
                    more-AtMost 1 (n / 10 / 10 / 10 / 10 / 10 / 10 / 10 / 10)
                      (small-AtMost _ (omega arith))))))))))
      (suc n) (omega arith)

length-zeros : (n : ℕ) → length (zeros n) ≡ n
unfolding zeros
length-zeros zero = omega arith
length-zeros (suc n) = omega (arith, length-zeros n)

length-padded : (width n : ℕ) → AtMost width n → length (padded width n) ≡ width
unfolding padded print_decimal
length-padded width n few =
    let short = few (suc n) (omega arith) in
    omega (
      arith,
      length-append (zeros (width - length (print_digits (suc n) n))) (print_digits (suc n) n),
      length-zeros (width - length (print_digits (suc n) n)),
    )

two_digits : (n : ℕ) → n < 100 → length (padded 2 n) ≡ 2
two_digits n h = length-padded 2 n (more-AtMost 1 n (small-AtMost (n / 10) (omega arith)))

six_digits : (n : ℕ) → n < 1000000 → length (padded 6 n) ≡ 6
six_digits n h = length-padded 6 n (
    more-AtMost 5 n (
      more-AtMost 4 (n / 10) (
        more-AtMost 3 (n / 10 / 10) (
          more-AtMost 2 (n / 10 / 10 / 10) (
            more-AtMost 1 (n / 10 / 10 / 10 / 10)
              (small-AtMost (n / 10 / 10 / 10 / 10 / 10) (omega arith)))))))

length-year : (n : ℕ) → 1000 ≤ n → n < 10000 → length (print_decimal n) ≡ 4
unfolding print_decimal
length-year n low high =
    more_digits 3 n (omega arith)
      (more_digits 2 (n / 10) (omega arith)
        (more_digits 1 (n / 10 / 10) (omega arith) (one_digit (n / 10 / 10 / 10) (omega arith))))
      (suc n) (omega arith)

-- The stamp has 27 bytes and the label.
length-stamp :
    (m : Moment) (level : ℕ) → IsMoment m → length (stamp m level) ≡ 27 + length (label_of level)
unfolding stamp
length-stamp m level h =
    simp
      (
        length-append,
        length-year (m.year + 1900) (omega arith) h.year_long,
        two_digits (m.month + 1) (omega (arith, h.month_in)),
        two_digits m.day (omega (arith, h.day_in)),
        two_digits m.hour (omega (arith, h.hour_in)),
        two_digits m.minute (omega (arith, h.minute_in)),
        two_digits m.second (omega (arith, h.second_in)),
        six_digits m.micros h.micros_in,
      )
      (omega arith)

pub length-label : (level : ℕ) → length (label_of level) ≤ 11
unfolding label_of
length-label level = ground arith

-- With a year of at most four digits and the buffer of the server, a message that has at most 995
-- bytes together with its label is put on one line behind its stamp; a longer one makes the code
-- write behind the end of the buffer.
pub log_line-fits :
    (m : Moment) (level : ℕ) (message : Bytes)
    → IsMoment m
    → log_line log_buffer_size (stamp m level) message ≡ (
        if leb (length (label_of level) + length message) 995
        then ok (stamp m level ++ (message ++ (10 ∷ [])))
        else fault out_of_bounds)
unfolding log_line
log_line-fits m level message h = ground (arith, length-stamp m level h, length-label level)
