-- ===== src/Http/Find.antt =====
-- What `find` promises, and what the parser makes of a request line.
use kvstore_epoll.Prelude.{
  ℕ, zero, suc, ◌+◌, ◌-◌, ◌<◌, ◌≡◌, ◌≢◌, refl, ap, some, [], ◌∷◌, ◌++◌, Bytes, true, false, All,
  length, take, drop, arith,
}
use native.Mathlib.Numerals.{add-one}
use kvstore_epoll.Http.View.{is_prefix, find, find_at, substr}
use kvstore_epoll.Http.Parser.{method_of, url_of, handle, get_key_url}

not_before :
    (pattern_ : Bytes) (b : ℕ) (bs : Bytes) (n : ℕ)
    → is_prefix pattern_ (b ∷ bs) ≡ false
    → ((m : ℕ) → m < n → is_prefix pattern_ (drop m bs) ≡ false)
    → (m : ℕ) → m < suc n
    → is_prefix pattern_ (drop m (b ∷ bs)) ≡ false
not_before pattern_ b bs n first before zero lt = first
not_before pattern_ b bs n first before (suc m) lt = before m (omega arith)

-- Where `find` returns a place, the pattern stands there and at no earlier place.
pub find-first :
    (pattern_ text : Bytes) (n : ℕ)
    → find pattern_ text ≡ some n
    → (is_prefix pattern_ (drop n text) ≡ true)
      × ((m : ℕ) → m < n → is_prefix pattern_ (drop m text) ≡ false)
unfolding find
find-first pattern_ [] zero h = (ground arith, λ m lt. absurd (omega arith))
find-first pattern_ [] (suc n) h = absurd (ground arith)
find-first pattern_ (b ∷ bs) zero h = (ground arith, λ m lt. absurd (omega arith))
find-first pattern_ (b ∷ bs) (suc n) h =
    let later : find pattern_ bs ≡ some n = ground arith in
    let (here, before) = find-first pattern_ bs n later in
    (here, not_before pattern_ b bs n (ground arith) before)

abbrev pub HasNo : ℕ → Bytes → Type 0
HasNo c = All (λ b. b ≢ c)

find-byte : (c : ℕ) (a rest : Bytes) → HasNo c a → find (c ∷ []) (a ++ (c ∷ rest)) ≡ some (length a)
unfolding find is_prefix
find-byte c [] rest h = ground arith
find-byte c (b ∷ a) rest h = ground (arith, find-byte c a rest h.1)

pub take-append : (a rest : Bytes) → take (length a) (a ++ rest) ≡ a
take-append [] rest = refl
take-append (b ∷ a) rest = ap (λ t. b ∷ t) (take-append a rest)

pub drop-append : (a rest : Bytes) → drop (length a) (a ++ rest) ≡ rest
drop-append [] rest = refl
drop-append (b ∷ a) rest = drop-append a rest

drop-append_suc :
    (a : Bytes) (c n : ℕ) (rest : Bytes) → n ≡ length a + 1 → drop n (a ++ (c ∷ rest)) ≡ rest
drop-append_suc a c n rest e = rw (e, add-one) (go a)
  where
    go : (x : Bytes) → drop (suc (length x)) (x ++ (c ∷ rest)) ≡ rest
    go [] = refl
    go (b ∷ x) = go x

module _ (m u rest : Bytes) (plain_m : HasNo b' ' m) (plain_u : HasNo b' ' u) where
  abbrev request_line : Bytes
  request_line = m ++ (b' ' ∷ (u ++ (b' ' ∷ rest)))

  method-line : method_of request_line ≡ m
  unfolding method_of substr
  method-line =
      rw (method_of, substr, find-byte b' ' m (u ++ (b' ' ∷ rest)) plain_m)
        (take-append m (b' ' ∷ (u ++ (b' ' ∷ rest))))

  url-line : url_of request_line ≡ u
  unfolding url_of substr find_at
  url-line =
      let dropped = drop-append_suc m b' ' (length m + 1) (u ++ (b' ' ∷ rest)) refl in
      let small : length u + (length m + 1) - length m - 1 ≡ length u = omega arith in
      rw
        (
          url_of,
          substr,
          find_at,
          find-byte b' ' m (u ++ (b' ' ∷ rest)) plain_m,
          dropped,
          find-byte b' ' u rest plain_u,
          dropped,
          small,
        )
        (take-append u (b' ' ∷ rest))

  -- Of a request line `M U ...`, without spaces in M and U, the parser takes M for the method and U
  -- for the URL; the key of the route is the two together.
  pub key-line : get_key_url (handle request_line) ≡ m ++ u
  unfolding get_key_url handle
  key-line = rw (method-line, url-line)
