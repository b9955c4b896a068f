-- ===== src/Hash/Index.antt =====
-- `_hash` of kv_core/hash.cpp: which keys get an index inside the array of buckets.
use kvstore_epoll.Prelude.{
  ℕ, suc, ◌+◌, ◌*◌, ◌%◌, ◌^◌, ◌≤◌, ◌<◌, ◌≡◌, refl, ap, [], ◌∷◌, Bytes, All, arith, length, ℤ, pos,
  negsuc, pos_part, neg_part, ◌+ℤ◌, ◌%ℤ◌, +ℤ_parts,
}
use kvstore_epoll.Hash.Table.{max_table_size, char_value, sum_from, hash_of}

-- The bucket of a key whose hash is not negative.
abbrev pub slot : Bytes → ℕ
slot key = pos_part (hash_of key max_table_size)

-- The hash of the key is an index of the array.
abbrev pub IsIndexed : Bytes → Type 0
IsIndexed key = hash_of key max_table_size ≡ pos (slot key)

abbrev pub IsAscii : Bytes → Type 0
IsAscii = All (λ b. b < 128)

abbrev pub IsHigh : Bytes → Type 0
IsHigh = All (λ b. (128 ≤ b) × (b < 256))

abbrev pub IsBytes : Bytes → Type 0
IsBytes = All (λ b. b < 256)

pub slot-lt : (key : Bytes) → slot key < max_table_size
unfolding hash_of ◌%ℤ◌
slot-lt key = go (sum_from (pos 0) key)
  where
    go : (s : ℤ) → pos_part (s %ℤ max_table_size) < max_table_size
    go (pos n) = omega arith
    go (negsuc n) = ground arith

pub sum_bytes : Bytes → ℕ
sum_bytes [] = 0
sum_bytes (b ∷ bs) = b + sum_bytes bs

sum_from-ascii :
    (s : ℕ) (key : Bytes) → IsAscii key → sum_from (pos s) key ≡ pos (s + sum_bytes key)
unfolding sum_from sum_bytes char_value ◌+ℤ◌
sum_from-ascii s [] h = ap pos (omega arith)
sum_from-ascii s (b ∷ bs) h = ground (arith, sum_from-ascii (s + b) bs h.1)

-- The hash of a key of ASCII bytes is its byte sum modulo the size.
pub hash_of-ascii :
    (key : Bytes) (size : ℕ) → IsAscii key → hash_of key size ≡ pos (sum_bytes key % size)
unfolding hash_of ◌%ℤ◌
hash_of-ascii key size h = ground (arith, sum_from-ascii 0 key h)

-- Every key of ASCII bytes has an index of the array, below MAX_TABLE_SIZE.
pub ascii-IsIndexed : (key : Bytes) → IsAscii key → IsIndexed key × (slot key < max_table_size)
ascii-IsIndexed key h = (rw (hash_of-ascii key max_table_size h) refl, slot-lt key)

char_value-high :
    (b : ℕ)
    → (128 ≤ b) × (b < 256)
    → (pos_part (char_value b) ≡ 0)
      × (1 ≤ neg_part (char_value b))
      × (neg_part (char_value b) ≤ 128)
unfolding char_value
char_value-high b h = ground arith

-- What a run of high bytes does to the running sum.
sum_from-high :
    (s : ℤ) (key : Bytes)
    → IsHigh key
    → (pos_part (sum_from s key) + neg_part s + length key ≤ neg_part (sum_from s key) + pos_part s)
      × (neg_part (sum_from s key) + pos_part s
          ≤ pos_part (sum_from s key) + neg_part s + 128 * length key)
unfolding sum_from
sum_from-high s [] h = omega arith
sum_from-high s (b ∷ bs) h = omega (
  arith,
  sum_from-high (s +ℤ char_value b) bs h.1,
  +ℤ_parts s (char_value b),
  char_value-high b h.0,
)

negative_rem :
    (s : ℤ) (len : ℕ)
    → 0 < len
    → len < 800
    → (pos_part s + len ≤ neg_part s) × (neg_part s ≤ pos_part s + 128 * len)
    → (n : ℕ) × (s %ℤ max_table_size ≡ negsuc n)
unfolding ◌%ℤ◌
negative_rem (pos n) len h short b = absurd (omega arith)
negative_rem (negsuc n) len h short b =
    let small : suc n % max_table_size ≡ suc n = omega arith in (n, rw small (ground arith))

-- A nonempty key of bytes above 127 only, shorter than 800 bytes, has a negative hash.
pub hash_of-high :
    (b : ℕ) (bs : Bytes)
    → IsHigh (b ∷ bs)
    → length (b ∷ bs) < 800
    → (n : ℕ) × (hash_of (b ∷ bs) max_table_size ≡ negsuc n)
unfolding hash_of
hash_of-high b bs h short =
    let range = sum_from-high (pos 0) (b ∷ bs) h in
    negative_rem (sum_from (pos 0) (b ∷ bs)) (length (b ∷ bs)) (omega arith) short (omega arith)

char_value-bound :
    (b : ℕ) → b < 256 → (pos_part (char_value b) ≤ 127) × (neg_part (char_value b) ≤ 128)
unfolding char_value
char_value-bound b h = ground arith

sum_from-bound :
    (s : ℤ) (key : Bytes)
    → IsBytes key
    → (pos_part (sum_from s key) + neg_part s
        ≤ neg_part (sum_from s key) + pos_part s + 127 * length key)
      × (neg_part (sum_from s key) + pos_part s
          ≤ pos_part (sum_from s key) + neg_part s + 128 * length key)
unfolding sum_from
sum_from-bound s [] h = omega arith
sum_from-bound s (b ∷ bs) h = omega (
  arith,
  sum_from-bound (s +ℤ char_value b) bs h.1,
  +ℤ_parts s (char_value b),
  char_value-bound b h.0,
)

-- The running sum of `_hash` stays within 32 bits for every key of bytes that is shorter than 2 ^
-- 24.
pub sum_from-fits :
    (key : Bytes)
    → IsBytes key
    → length key < 2 ^ 24
    → (pos_part (sum_from (pos 0) key) < 2 ^ 31) × (neg_part (sum_from (pos 0) key) ≤ 2 ^ 31)
sum_from-fits key h short = go (sum_from (pos 0) key) (sum_from-bound (pos 0) key h)
  where
    go :
        (s : ℤ)
        → (pos_part s + 0 ≤ neg_part s + 0 + 127 * length key)
          × (neg_part s + 0 ≤ pos_part s + 0 + 128 * length key)
        → (pos_part s < 2 ^ 31) × (neg_part s ≤ 2 ^ 31)
    go (pos n) r = omega arith
    go (negsuc n) r = omega arith
