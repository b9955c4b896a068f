-- ===== src/Http/View.antt =====
-- The operations of `std::string_view` and `std::string` that the parser calls. A view is its
-- bytes; `npos` is `none`.
use mathlib.Core.Option as Opt
use kvstore_epoll.Prelude.{
  ℕ, ◌+◌, ◌-◌, ◌*◌, ◌%◌, ◌^◌, Option, none, some, [], ◌∷◌, Bytes, Bool, true, false, ◌&&◌, ◌||◌,
  leb, ◌==◌, if◌then◌else◌, take, drop, Run, ok, fault, uncaught,
}

unfoldable pub is_prefix : Bytes → Bytes → Bool
is_prefix [] text = true
is_prefix (p ∷ ps) [] = false
is_prefix (p ∷ ps) (b ∷ bs) = (p == b) && is_prefix ps bs

-- `find(pattern)`
unfoldable pub find : Bytes → Bytes → Option ℕ
find pattern_ [] = if is_prefix pattern_ [] then some 0 else none
find pattern_ (b ∷ bs) =
    if is_prefix pattern_ (b ∷ bs) then some 0 else Opt.map (λ i. i + 1) (find pattern_ bs)

-- `find(pattern, from)`, for a pattern that is not empty
unfoldable pub find_at : Bytes → ℕ → Bytes → Option ℕ
find_at pattern_ from text = Opt.map (λ i. i + from) (find pattern_ (drop from text))

-- `substr(from, count)`, for a start inside the view
unfoldable pub substr : ℕ → ℕ → Bytes → Bytes
substr from count text = take count (drop from text)

abbrev pub is_blank : ℕ → Bool
is_blank b = (b == b' ') || (b == 9)

-- `erase(0, find_first_not_of(" \t"))`
unfoldable pub trim_left : Bytes → Bytes
trim_left [] = []
trim_left (b ∷ bs) = if is_blank b then trim_left bs else b ∷ bs

abbrev keep : ℕ → Bytes → Bytes
keep b [] = if is_blank b then [] else b ∷ []
keep b (c ∷ cs) = b ∷ c ∷ cs

-- `erase(find_last_not_of(" \t") + 1)`
unfoldable pub trim_right : Bytes → Bytes
trim_right [] = []
trim_right (b ∷ bs) = keep b (trim_right bs)

abbrev pub is_digit : ℕ → Bool
is_digit b = leb b'0' b && leb b b'9'

-- `isspace` in the C locale
abbrev pub is_white : ℕ → Bool
is_white b = (b == b' ') || (leb 9 b && leb b 13)

unfoldable pub skip_white : Bytes → Bytes
skip_white [] = []
skip_white (b ∷ bs) = if is_white b then skip_white bs else b ∷ bs

-- The value of the leading digits.
unfoldable pub digits_value : ℕ → Bytes → ℕ
digits_value acc [] = acc
digits_value acc (b ∷ bs) =
    let rest = digits_value (acc * 10 + (b - b'0')) bs in if is_digit b then rest else acc

abbrev pub ulong_mod : ℕ
ulong_mod = 2 ^ 64

-- The digits after the sign; a minus negates modulo 2 ^ 64.
unfoldable pub unsigned_value : Bool → Bytes → Run ℕ
unsigned_value negative [] = fault uncaught
unsigned_value negative (b ∷ bs) =
    let value = digits_value 0 (b ∷ bs) in
    if is_digit b
    then (if leb ulong_mod value
        then fault uncaught
        else ok (if negative then (ulong_mod - value) % ulong_mod else value))
    else fault uncaught

-- `std::stoul`, which throws where there is no number or it is too large; nothing catches.
unfoldable pub signed_value : Bytes → Run ℕ
signed_value [] = fault uncaught
signed_value (b ∷ bs) =
    if b == b'-'
    then unsigned_value true bs
    else if b == b'+'
    then unsigned_value false bs
    else unsigned_value false (b ∷ bs)

unfoldable pub stoul : Bytes → Run ℕ
stoul text = signed_value (skip_white text)
