-- ===== src/Http/Select.antt =====
-- Which requests `get_parser` accepts.
use kvstore_epoll.Prelude.{
  ℕ, zero, suc, ◌≤◌, ◌≡◌, refl, none, some, [], ◌∷◌, Bytes, codes, Bool, true, false, ◌||◌, ◌&&◌,
  leb, length, ◌==◌, if◌then◌else◌, take, arith, strcmp_eq, min,
}
use kvstore_epoll.Http.View.{is_prefix}
use kvstore_epoll.Http.Factory.{
  http_parser, find_parser, registrations, max_signature_length, try_prefixes, get_parser,
}

-- Some prefix of the text, no longer than `len`, is the name.
prefix_upto : ℕ → Bytes → Bytes → Bool
prefix_upto zero name text = false
prefix_upto (suc len) name text = strcmp_eq name (take (suc len) text) || prefix_upto len name text

find_parser-registrations :
    (name : Bytes)
    → find_parser name registrations ≡ (
        if strcmp_eq (codes "POST") name || strcmp_eq (codes "GET") name
        then some http_parser
        else none)
unfolding find_parser registrations strcmp_eq
find_parser-registrations name = ground arith

try_prefixes-registrations :
    (len : ℕ) (text : Bytes)
    → try_prefixes len text registrations ≡ (
        if prefix_upto len (codes "POST") text || prefix_upto len (codes "GET") text
        then some http_parser
        else none)
unfolding try_prefixes prefix_upto
try_prefixes-registrations zero text = refl
try_prefixes-registrations (suc len) text =
    ground
      (arith, find_parser-registrations (take (suc len) text), try_prefixes-registrations len text)

strcmp_eq-take :
    (name : Bytes) (k : ℕ) (text : Bytes)
    → k ≤ length text
    → strcmp_eq name (take k text) ≡ (is_prefix name text && (length name == k))
unfolding strcmp_eq is_prefix
strcmp_eq-take [] zero text h = refl
strcmp_eq-take [] (suc k) [] h = absurd (omega arith)
strcmp_eq-take [] (suc k) (b ∷ bs) h = ground arith
strcmp_eq-take (c ∷ name) zero [] h = refl
strcmp_eq-take (c ∷ name) zero (b ∷ bs) h = ground arith
strcmp_eq-take (c ∷ name) (suc k) [] h = absurd (omega arith)
strcmp_eq-take (c ∷ name) (suc k) (b ∷ bs) h = ground (arith, strcmp_eq-take name k bs)

prefix_upto-is_prefix :
    (len : ℕ) (name text : Bytes)
    → len ≤ length text
    → prefix_upto len name text
      ≡ (is_prefix name text && (leb 1 (length name) && leb (length name) len))
unfolding prefix_upto
prefix_upto-is_prefix zero name text h = ground arith
prefix_upto-is_prefix (suc len) name text h =
    rw (strcmp_eq-take name (suc len) text h, prefix_upto-is_prefix len name text (omega arith))
      (ground arith)

is_prefix-le : (name text : Bytes) → is_prefix name text ≡ true → length name ≤ length text
unfolding is_prefix
is_prefix-le [] text h = omega arith
is_prefix-le (c ∷ name) [] h = cc
is_prefix-le (c ∷ name) (b ∷ bs) h = ground (arith, is_prefix-le name bs)

-- The factory finds the HTTP parser exactly for the buffers that begin with POST or with GET, and
-- no parser for any other.
pub get_parser-registrations :
    (buffer : Bytes)
    → get_parser buffer registrations ≡ (
        if is_prefix (codes "POST") buffer || is_prefix (codes "GET") buffer
        then some http_parser
        else none)
unfolding get_parser
get_parser-registrations [] = unfold is_prefix in refl
get_parser-registrations (b ∷ bs) =
    let len = min (length (b ∷ bs)) max_signature_length in
    rw
      (
        get_parser,
        try_prefixes-registrations len (b ∷ bs),
        prefix_upto-is_prefix len (codes "POST") (b ∷ bs) (omega arith),
        prefix_upto-is_prefix len (codes "GET") (b ∷ bs) (omega arith),
      )
      (ground (arith, is_prefix-le (codes "POST") (b ∷ bs), is_prefix-le (codes "GET") (b ∷ bs)))
