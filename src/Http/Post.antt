-- ===== src/Http/Post.antt =====
-- What the parser makes of a POST to the store as a client writes it.
use kvstore_epoll.Prelude.{
  ℕ, suc, ◌+◌, ◌-◌, ◌*◌, ◌≤◌, ◌<◌, ◌≡◌, ◌≢◌, refl, ap, sym, ◌∙◌, some, [], ◌∷◌, ◌++◌, Bytes, codes,
  true, false, All, All-map, length, length-append, drop, ok, leb, le→leb, arith, append_assoc,
  ◌==◌,
}
use kvstore_epoll.Kvstore.Decimal.{
  print_decimal, read_digits, read-print_decimal, print_digits-IsDecimal, print_decimal-ne-nil,
}
use kvstore_epoll.Http.View.{
  is_prefix, find, find_at, substr, trim_left, trim_right, stoul, skip_white, signed_value,
  unsigned_value, digits_value, is_digit, ulong_mod,
}
use kvstore_epoll.Http.Parser.{
  crlf, blank_line, content_length, header_value, parse, body_present, handle, get_key_url, data_of,
}
use kvstore_epoll.Http.Complete.{HasLength, complete-length}
use kvstore_epoll.Http.Find.{HasNo, take-append, drop-append, key-line}

-- The request line, and the request with so many bytes of body announced.
abbrev pub request_line : Bytes
request_line = codes "POST /usr/kvstore HTTP/1.1"

abbrev pub field_name : Bytes
field_name = codes "Content-Length: "

abbrev pub with_length : ℕ → Bytes → Bytes
with_length n behind =
    request_line ++ (13 ∷ 10 ∷ (field_name ++ (print_decimal n ++ (blank_line ++ behind))))

-- `find` of a pattern behind bytes that its first byte is not among.
find-plain :
    (c : ℕ) (ps a text : Bytes) (k : ℕ)
    → HasNo c a
    → find (c ∷ ps) text ≡ some k
    → find (c ∷ ps) (a ++ text) ≡ some (length a + k)
unfolding find is_prefix
find-plain c ps [] text k h e = e ∙ ap some (omega arith)
find-plain c ps (b ∷ a) text k h e =
    let later = find-plain c ps a text k h.1 e in
    let other : (c == b) ≡ false = ground (arith, h.0) in rw (other, later) (ap some (omega arith))

find-step :
    (pattern_ : Bytes) (b : ℕ) (bs : Bytes) (k : ℕ)
    → is_prefix pattern_ (b ∷ bs) ≡ false
    → find pattern_ bs ≡ some k
    → find pattern_ (b ∷ bs) ≡ some (k + 1)
unfolding find
find-step pattern_ b bs k other later = rw (other, later) refl

find-here :
    (pattern_ : Bytes) (b : ℕ) (bs : Bytes)
    → is_prefix pattern_ (b ∷ bs) ≡ true
    → find pattern_ (b ∷ bs) ≡ some 0
unfolding find
find-here pattern_ b bs here = rw here refl

IsDecimal-HasNo :
    (c : ℕ) (bs : Bytes) → c < b'0' → All (λ b. (b'0' ≤ b) × (b ≤ b'9')) bs → HasNo c bs
IsDecimal-HasNo c bs low h = All-map _ (λ b. b ≢ c) bs (λ b d e. omega (arith, d.0, e)) h

decimal : (n : ℕ) → All (λ b. (b'0' ≤ b) × (b ≤ b'9')) (print_decimal n)
unfolding print_decimal
decimal n = print_digits-IsDecimal (suc n) n

-- Digits are not trimmed, and `stoul` reads them all.
trim_left-decimal : (bs : Bytes) → All (λ b. (b'0' ≤ b) × (b ≤ b'9')) bs → trim_left bs ≡ bs
unfolding trim_left
trim_left-decimal [] h = refl
trim_left-decimal (b ∷ bs) h = ground (arith, h.0.0)

trim_right-decimal : (bs : Bytes) → All (λ b. (b'0' ≤ b) × (b ≤ b'9')) bs → trim_right bs ≡ bs
unfolding trim_right
trim_right-decimal [] h = refl
trim_right-decimal (b ∷ []) h = ground (arith, h.0.0)
trim_right-decimal (b ∷ c ∷ bs) h = rw (trim_right-decimal (c ∷ bs) h.1) refl

digits_value-read :
    (acc : ℕ) (bs : Bytes)
    → All (λ b. (b'0' ≤ b) × (b ≤ b'9')) bs
    → digits_value acc bs ≡ read_digits acc bs
unfolding digits_value read_digits
digits_value-read acc [] h = refl
digits_value-read acc (b ∷ bs) h =
    let digit : is_digit b ≡ true = ground (arith, h.0.0, h.0.1) in
    let same : acc * 10 + (b - b'0') ≡ acc * 10 + b - b'0' = omega (arith, h.0.0) in
    rw (digit, same) (digits_value-read (acc * 10 + b - b'0') bs h.1)

stoul-digits :
    (n : ℕ) (b : ℕ) (bs : Bytes)
    → All (λ b. (b'0' ≤ b) × (b ≤ b'9')) (b ∷ bs)
    → read_digits 0 (b ∷ bs) ≡ n
    → n < ulong_mod
    → stoul (b ∷ bs) ≡ ok n
unfolding stoul skip_white signed_value unsigned_value
stoul-digits n b bs h value small =
    let read_all = digits_value-read 0 (b ∷ bs) h ∙ value in ground (arith, h.0.0, h.0.1, read_all)

print_decimal-cons : (n : ℕ) → (b : ℕ) × (bs : Bytes) × (print_decimal n ≡ b ∷ bs)
print_decimal-cons n = go (print_decimal n) (read-print_decimal n) (print_decimal-ne-nil n)
  where
    go : (bs : Bytes) → read_digits 0 bs ≡ n → bs ≢ [] → (b : ℕ) × (r : Bytes) × (bs ≡ b ∷ r)
    go [] e h = absurd (h refl)
    go (b ∷ r) e h = (b, r, refl)

data_of-find : (text : Bytes) (k : ℕ) → find blank_line text ≡ some k → data_of text ≡ some (k + 4)
unfolding data_of
data_of-find text k e = rw (data_of, e) refl

module _ (n : ℕ) (behind : Bytes) where
  abbrev digits : ℕ
  digits = length (print_decimal n)

  abbrev pub end_of_headers : ℕ
  end_of_headers = 44 + digits

  abbrev field_line : Bytes
  field_line = field_name ++ (print_decimal n ++ (blank_line ++ behind))

  decimal-HasNo : (c : ℕ) → c < b'0' → HasNo c (print_decimal n)
  decimal-HasNo c low = IsDecimal-HasNo c (print_decimal n) low (decimal n)

  -- A pattern that begins with a carriage return, and stands behind the digits.
  find-behind :
      (ps : Bytes)
      → is_prefix (13 ∷ ps) (blank_line ++ behind) ≡ true
      → find (13 ∷ ps) field_line ≡ some (16 + digits)
  find-behind ps here =
      find-plain 13 ps field_name _ (digits + 0) (omega arith) (
        find-plain 13 ps (print_decimal n) _ 0 (decimal-HasNo 13 (omega arith))
          (find-here _ _ _ here))
      ∙ ap some (omega arith)

  find-headers : find blank_line (with_length n behind) ≡ some end_of_headers
  unfolding is_prefix
  find-headers =
      find-plain 13 (10 ∷ 13 ∷ 10 ∷ []) request_line _ (16 + digits + 1 + 1) (omega arith)
        (find-step _ _ _ _ refl (find-step _ _ _ _ refl (find-behind (10 ∷ 13 ∷ 10 ∷ []) refl)))
      ∙ ap some (omega arith)

  find-field : find content_length (with_length n behind) ≡ some 28
  unfolding is_prefix
  find-field =
      find-plain b'C' (codes "ontent-Length:") request_line _ 2 (omega arith)
        (find-step _ _ _ 1 refl (find-step _ _ _ 0 refl (find-here _ _ _ refl)))

  find-line : find_at crlf 28 (with_length n behind) ≡ some end_of_headers
  unfolding find_at is_prefix
  find-line = rw (find-behind (10 ∷ []) refl) (ap some (omega arith))

  with_length-HasLength : HasLength (with_length n behind) end_of_headers 28 end_of_headers
  with_length-HasLength = record {
    headers = find-headers;
    field = find-field;
    inside = omega arith;
    line = find-line;
  }

  value-digits : header_value (with_length n behind) 28 end_of_headers ≡ print_decimal n
  unfolding header_value substr trim_left
  value-digits =
      let count : 44 + digits - 43 ≡ suc digits = omega arith in
      rw
        (
          header_value,
          count,
          take-append (print_decimal n) (blank_line ++ behind),
          trim_left-decimal (print_decimal n) (decimal n),
          trim_right-decimal (print_decimal n) (decimal n),
        )
        refl

  stoul-value : n < ulong_mod → stoul (header_value (with_length n behind) 28 end_of_headers) ≡ ok n
  stoul-value small =
      let (b, bs, e) = print_decimal-cons n in
      rw (value-digits, e)
        (stoul-digits n b bs (rw e at (decimal n)) (rw e at (read-print_decimal n)) small)

  pub parse-announced :
      end_of_headers + 4 + n < ulong_mod → parse (with_length n behind) ≡ ok (leb n (length behind))
  unfolding parse body_present
  parse-announced small =
      let size : length (with_length n behind) ≡ end_of_headers + 4 + length behind =
        omega (arith, length-append (print_decimal n) (blank_line ++ behind)) in
      rw (complete-length with_length-HasLength, stoul-value (omega arith)) (ground (arith, size))

  pub parse-with_length :
      n ≤ length behind
      → end_of_headers + 4 + n < ulong_mod
      → parse (with_length n behind) ≡ ok true
  parse-with_length there small = parse-announced small ∙ ap ok (le→leb n (length behind) there)

  pub route-with_length : get_key_url (handle (with_length n behind)) ≡ codes "POST/usr/kvstore"
  route-with_length =
      key-line (codes "POST") (codes "/usr/kvstore") (codes "HTTP/1.1" ++ (13 ∷ 10 ∷ field_line))
        (omega arith) (omega arith)

  pub data-with_length : (handle (with_length n behind)).request_data ≡ some (end_of_headers + 4)
  unfolding handle
  data-with_length = data_of-find (with_length n behind) end_of_headers find-headers

  pub body-with_length : drop (end_of_headers + 4) (with_length n behind) ≡ behind
  body-with_length =
      let front = request_line ++ (13 ∷ 10 ∷ (field_name ++ (print_decimal n ++ blank_line))) in
      let whole : with_length n behind ≡ front ++ behind =
        ap (λ t. request_line ++ (13 ∷ 10 ∷ (field_name ++ t)))
          (sym (append_assoc (print_decimal n) blank_line behind)) in
      let size : end_of_headers + 4 ≡ length front =
        omega (arith, length-append (print_decimal n) blank_line) in
      ap (drop (end_of_headers + 4)) whole
      ∙ ap (λ k. drop k (front ++ behind)) size
      ∙ drop-append front behind
