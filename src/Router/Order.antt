-- ===== src/Router/Order.antt =====
-- task_and_router/Router.h and network/protocol_parser/protocol_parser.h: the `operator<` by which the
-- two `std::map`s order their keys. A `std::string` is compared byte by byte, as `char_traits<char>`
-- does it.
use kvstore_epoll.Prelude.{
  ◌≡◌, refl, sym, subst, fun_ext, [], ◌∷◌, Bytes, Bool, true, false, not, ◌||◌, ◌&&◌, if◌then◌else◌,
  ltb, ◌==◌, strcmp_eq, strcmp_eq_iff, arith, Bool-cases, inl, inr,
}

-- `<` of `std::string`
unfoldable pub string_less : Bytes → Bytes → Bool
string_less [] [] = false
string_less [] (y ∷ ys) = true
string_less (x ∷ xs) [] = false
string_less (x ∷ xs) (y ∷ ys) = ltb x y || ((x == y) && string_less xs ys)

-- `operator<` of `router_t`, on `_key`
unfoldable pub router_less : Bytes → Bytes → Bool
unfolding string_less
router_less key other = if not (strcmp_eq key other) then string_less key other else false

-- The key of the registry of requests.
pub record HttpMethodUrl : Type 0 where
  pub method : Bytes
  pub url : Bytes

-- `operator<` of `http_method_Url`
unfoldable pub method_url_less : HttpMethodUrl → HttpMethodUrl → Bool
unfolding string_less
method_url_less a b =
    if not (strcmp_eq a.method b.method)
    then string_less a.method b.method
    else string_less a.url b.url

-- What `std::map` asks of a comparison, and that only equal keys are equivalent.
pub record IsStrictOrder {ℓ} {Key : Type ℓ} (less : Key → Key → Bool) : Type ℓ where
  pub irreflexive : (a : Key) → less a a ≡ false
  pub transitive : (a b c : Key) → less a b ≡ true → less b c ≡ true → less a c ≡ true
  pub connected : (a b : Key) → less a b ≡ false → less b a ≡ false → a ≡ b

string_less_irrefl : (a : Bytes) → string_less a a ≡ false
unfolding string_less
string_less_irrefl [] = refl
string_less_irrefl (x ∷ xs) = ground (arith, string_less_irrefl xs)

string_less_trans :
    (a b c : Bytes) → string_less a b ≡ true → string_less b c ≡ true → string_less a c ≡ true
unfolding string_less
string_less_trans [] [] c ab bc = absurd (ground arith)
string_less_trans [] (y ∷ ys) [] ab bc = absurd (ground arith)
string_less_trans [] (y ∷ ys) (z ∷ zs) ab bc = refl
string_less_trans (x ∷ xs) [] c ab bc = absurd (ground arith)
string_less_trans (x ∷ xs) (y ∷ ys) [] ab bc = absurd (ground arith)
string_less_trans (x ∷ xs) (y ∷ ys) (z ∷ zs) ab bc = ground (arith, string_less_trans xs ys zs)

string_less-connected : (a b : Bytes) → string_less a b ≡ false → string_less b a ≡ false → a ≡ b
unfolding string_less
string_less-connected [] [] ab ba = refl
string_less-connected [] (y ∷ ys) ab ba = absurd (ground arith)
string_less-connected (x ∷ xs) [] ab ba = absurd (ground arith)
string_less-connected (x ∷ xs) (y ∷ ys) ab ba = ground (arith, string_less-connected xs ys)

string_less-IsStrictOrder : IsStrictOrder string_less
string_less-IsStrictOrder = record {
  irreflexive = string_less_irrefl;
  transitive = string_less_trans;
  connected = string_less-connected;
}

router_less-string_less : (a b : Bytes) → router_less a b ≡ string_less a b
unfolding router_less
router_less-string_less a b = ground (arith, strcmp_eq_iff a b, string_less_irrefl a)

method_url_less_trans :
    (a b c : HttpMethodUrl)
    → method_url_less a b ≡ true
    → method_url_less b c ≡ true
    → method_url_less a c ≡ true
unfolding method_url_less
method_url_less_trans a b c ab bc = ground (
  arith,
  strcmp_eq_iff a.method b.method,
  strcmp_eq_iff b.method c.method,
  strcmp_eq_iff a.method c.method,
  string_less_trans a.method b.method c.method,
  string_less_trans a.url b.url c.url,
  string_less-connected a.method b.method,
  string_less_irrefl a.method,
  string_less_irrefl b.method,
)

method_url_less-connected :
    (a b : HttpMethodUrl) → method_url_less a b ≡ false → method_url_less b a ≡ false → a ≡ b
unfolding method_url_less
method_url_less-connected a b ab ba = elim (Bool-cases (strcmp_eq a.method b.method)) [
  | inl same ↦
      let methods : a.method ≡ b.method = (strcmp_eq_iff a.method b.method).0 same in
      let back : strcmp_eq b.method a.method ≡ true =
        (strcmp_eq_iff b.method a.method).1 (sym methods) in
      let urls =
        string_less-connected a.url b.url (ground (arith, ab, same)) (ground (arith, ba, back)) in
      cc (methods, urls)
  | inr other ↦
      let methods =
        string_less-connected a.method b.method (ground (arith, ab, other))
          (ground (arith, ba, strcmp_eq_iff b.method a.method, strcmp_eq_iff a.method b.method)) in
      absurd (ground (arith, other, strcmp_eq_iff a.method b.method, methods))
]

router_less-IsStrictOrder : IsStrictOrder router_less
router_less-IsStrictOrder =
    subst IsStrictOrder (sym (fun_ext λ a. fun_ext λ b. router_less-string_less a b))
      string_less-IsStrictOrder

method_url_less_irrefl : (a : HttpMethodUrl) → method_url_less a a ≡ false
unfolding method_url_less
method_url_less_irrefl a = ground (arith, string_less_irrefl a.method, string_less_irrefl a.url)

-- Both maps compare their keys by a strict order in which no two keys are equivalent: the test is
-- irreflexive and transitive, and of two different keys one comes before the other.
pub keys_are_ordered : IsStrictOrder router_less × IsStrictOrder method_url_less
keys_are_ordered = (
  router_less-IsStrictOrder,
  record {
    irreflexive = method_url_less_irrefl;
    transitive = method_url_less_trans;
    connected = method_url_less-connected;
  },
)
