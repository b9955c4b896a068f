-- ===== src/Log/Format.antt =====
-- The texts that `kv_log` prints: the conversions of `snprintf` that it uses, the stamp before each
-- line and the names of the files.
use kvstore_epoll.Prelude.{
  ℕ, zero, suc, ◌+◌, ◌-◌, Option, none, some, [], ◌∷◌, ◌++◌, Bytes, codes, length, take,
  if◌then◌else◌, ◌==◌,
}
use kvstore_epoll.Kvstore.Decimal.{print_decimal}

-- `struct tm` and `tv_usec`: `year` counts from 1900, `month` from 0.
pub record Moment : Type 0 where
  pub year : ℕ
  pub month : ℕ
  pub day : ℕ
  pub hour : ℕ
  pub minute : ℕ
  pub second : ℕ
  pub micros : ℕ

unfoldable pub zeros : ℕ → Bytes
zeros zero = []
zeros (suc n) = b'0' ∷ zeros n

-- `%0<width>d`
unfoldable pub padded : ℕ → ℕ → Bytes
unfolding zeros
padded width n = let digits = print_decimal n in zeros (width - length digits) ++ digits

-- `snprintf(buffer, size, ...)`: the text that stands in the buffer
abbrev pub printed : ℕ → Bytes → Bytes
printed size text = take (size - 1) text

-- `lable`
unfoldable pub label_of : ℕ → Bytes
label_of level =
    if level == 0
    then codes "[debug]: "
    else if level == 1
    then codes "[info]: "
    else if level == 2
    then codes "[warning]: "
    else if level == 3
    then codes "[error]: "
    else codes "[info]: "

-- "%d-%02d_%02d %02d:%02d:%02d.%06ld %s"
unfoldable pub stamp : Moment → ℕ → Bytes
stamp m level =
    print_decimal (m.year + 1900)
    ++ (b'-'
        ∷ (padded 2 (m.month + 1)
            ++ (b'_'
                ∷ (padded 2 m.day
                    ++ (b' '
                        ∷ (padded 2 m.hour
                            ++ (b':'
                                ∷ (padded 2 m.minute
                                    ++ (b':'
                                        ∷ (padded 2 m.second
                                            ++ (b'.'
                                                ∷ (padded 6 m.micros
                                                    ++ (b' ' ∷ label_of level)))))))))))))

-- "%d_%02d_%02d"
unfoldable pub date_of : Moment → Bytes
date_of m =
    print_decimal (m.year + 1900) ++ (b'_' ∷ (padded 2 (m.month + 1) ++ (b'_' ∷ padded 2 m.day)))

-- `strrchr(file_name, '/')`: the text up to the last slash with it, and the text behind it.
unfoldable pub last_slash : Bytes → Option (Bytes × Bytes)
last_slash [] = none
last_slash (b ∷ bs) = elim (last_slash bs) [
  | some (front, back) ↦ some (b ∷ front, back)
  | none ↦ if b == b'/' then some (b ∷ [], bs) else none
]
