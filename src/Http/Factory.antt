-- ===== src/Http/Factory.antt =====
-- network/protocol_parser: `parserFactory` and its registrations.
use kvstore_epoll.Prelude.{
  ℕ, zero, suc, Option, none, some, List, [], ◌∷◌, Bytes, codes, length, min, strcmp_eq,
  if◌then◌else◌, take,
}

-- What a registered creator makes.
pub data ProtocolParser : Type 0 where
  http_parser : ProtocolParser

-- `_registry_map_`
abbrev pub Registry : Type 0
Registry = List (Bytes × ProtocolParser)

-- `_registry_map_[protocol_name] = creator`
unfoldable pub register_parser : Bytes → ProtocolParser → Registry → Registry
register_parser name creator [] = (name, creator) ∷ []
register_parser name creator ((n, c) ∷ rest) =
    if strcmp_eq n name then (name, creator) ∷ rest else (n, c) ∷ register_parser name creator rest

unfoldable pub find_parser : Bytes → Registry → Option ProtocolParser
find_parser name [] = none
find_parser name ((n, c) ∷ rest) = if strcmp_eq n name then some c else find_parser name rest

-- REGISTER_PARSER(POST, HttpParser), REGISTER_PARSER(GET, HttpParser)
unfoldable pub registrations : Registry
unfolding register_parser
registrations =
    register_parser (codes "GET") http_parser (register_parser (codes "POST") http_parser [])

abbrev pub max_signature_length : ℕ
max_signature_length = 20

-- `for (; len > 0; --len)`
unfoldable pub try_prefixes : ℕ → Bytes → Registry → Option ProtocolParser
try_prefixes zero buffer registry = none
try_prefixes (suc len) buffer registry =
    let shorter = try_prefixes len buffer registry in
    elim (find_parser (take (suc len) buffer) registry) [ some p ↦ some p | none ↦ shorter ]

unfoldable pub get_parser : Bytes → Registry → Option ProtocolParser
unfolding try_prefixes
get_parser [] registry = none
get_parser (b ∷ bs) registry =
    try_prefixes (min (length (b ∷ bs)) max_signature_length) (b ∷ bs) registry
