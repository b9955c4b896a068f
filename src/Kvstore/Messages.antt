-- ===== src/Kvstore/Messages.antt =====
-- What the words of a message ask of the store.
use kvstore_epoll.Prelude.{
  ℕ, zero, suc, ◌+◌, ◌≤◌, ◌<◌, ◌≡◌, ◌≢◌, refl, Option, none, some, List, [], ◌∷◌, ◌++◌, Bytes,
  codes, Bool, true, false, ◌||◌, All, arith, length, if◌then◌else◌, Run, ok, fault, out_of_bounds,
  wild_pointer, ◌>>=◌, strcmp_eq, strcmp_eq_iff, Returns, leb, get_elem?,
}
use kvstore_epoll.Hash.Table.{Engine}
use kvstore_epoll.Hash.View.{view}
use kvstore_epoll.Kvstore.Split.{max_tokens}
use kvstore_epoll.Kvstore.Tokens.{words_in}
use kvstore_epoll.Kvstore.Commands.{Command, hset, hget, hdel, hmod, hcount, Serves}
use kvstore_epoll.Kvstore.Protocol.{commands, command_from, kvstore_parser_protocol}
use kvstore_epoll.Kvstore.Switch.{written_text}

-- What the words of a message ask for.
pub data Request : Type 0 where
  nothing too_many bare unimplemented unknown : Request
  asked : Command → Request
  hset_key hmod_key : Bytes → Request

-- The names that have no branch of their own.
abbrev pub unimplemented_names : List Bytes
unimplemented_names =
    codes "SET"
    ∷ codes "GET"
    ∷ codes "DEL"
    ∷ codes "MOD"
    ∷ codes "COUNT"
    ∷ codes "RSET"
    ∷ codes "RGET"
    ∷ codes "RDEL"
    ∷ codes "RMOD"
    ∷ codes "RCOUNT"
    ∷ []

abbrev pub served_names : List Bytes
served_names = codes "HSET" ∷ codes "HGET" ∷ codes "HDEL" ∷ codes "HMOD" ∷ codes "HCOUNT" ∷ []

abbrev pub member : Bytes → List Bytes → Bool
member w [] = false
member w (c ∷ cs) = strcmp_eq c w || member w cs

abbrev pub with_key : (Bytes → Command) → List Bytes → Request
with_key command [] = bare
with_key command (k ∷ ws) = asked (command k)

abbrev pub with_value : (Bytes → Bytes → Command) → (Bytes → Request) → List Bytes → Request
with_value command half [] = bare
with_value command half (k ∷ []) = half k
with_value command half (k ∷ v ∷ ws) = asked (command k v)

-- The words behind the operands are ignored.
abbrev pub request_of : List Bytes → Request
request_of [] = nothing
request_of (w ∷ ws) =
    if strcmp_eq (codes "HSET") w
    then with_value hset hset_key ws
    else if strcmp_eq (codes "HGET") w
    then with_key hget ws
    else if strcmp_eq (codes "HDEL") w
    then with_key hdel ws
    else if strcmp_eq (codes "HMOD") w
    then with_value hmod hmod_key ws
    else if strcmp_eq (codes "HCOUNT") w
    then asked hcount
    else if member w unimplemented_names
    then unimplemented
    else unknown

abbrev pub message_request : Bytes → Request
message_request msg =
    if leb (length (words_in msg)) max_tokens then request_of (words_in msg) else too_many

pub command_from-found :
    (cmd : ℕ) (cs ds : List Bytes) (w : Bytes)
    → member w cs ≡ true
    → (cmd ≤ command_from cmd (cs ++ ds) w) × (command_from cmd (cs ++ ds) w < cmd + length cs)
unfolding command_from
command_from-found cmd [] ds w h = absurd (ground arith)
command_from-found cmd (c ∷ cs) ds w h = ground (arith, command_from-found (cmd + 1) cs ds w)

pub get_elem-there :
    (cs : List Bytes) (i : ℕ) → i < length cs → (c : Bytes) × (get_elem? cs i ≡ some c)
get_elem-there [] i h = absurd (omega arith)
get_elem-there (c ∷ cs) zero h = (c, refl)
get_elem-there (c ∷ cs) (suc i) h = get_elem-there cs i (omega arith)

pub member-commands :
    (w : Bytes)
    → member w unimplemented_names ≡ false
    → strcmp_eq (codes "HSET") w ≡ false
    → strcmp_eq (codes "HGET") w ≡ false
    → strcmp_eq (codes "HDEL") w ≡ false
    → strcmp_eq (codes "HMOD") w ≡ false
    → strcmp_eq (codes "HCOUNT") w ≡ false
    → member w commands ≡ false
member-commands w n n0 n1 n2 n3 n4 = ground arith

pub member-All : (w : Bytes) (cs : List Bytes) → member w cs ≡ false → All (λ c. c ≢ w) cs
member-All w [] h = tt
member-All w (c ∷ cs) h = ground (arith, strcmp_eq_iff c w, member-All w cs)

-- What the call of `kvstore_request` does with each.
abbrev pub Does : Engine → Request → Run (Option Bytes × Engine) → Type 0
Does e nothing run = run ≡ ok (none, e)
Does e bare run = run ≡ fault wild_pointer
Does e unimplemented run = run ≡ ok (some (codes "ERROR"), e)
Does e unknown run = run ≡ fault out_of_bounds
Does e too_many run = run ≡ fault out_of_bounds
Does e (asked c) run = Returns run (Serves e c)
Does e (hset_key k) run =
    run
    ≡ elim (view e.hash k) [ some old ↦ ok (some (codes "EXISTS"), e) | none ↦ fault wild_pointer ]
Does e (hmod_key k) run =
    run
    ≡ elim (view e.hash k) [ none ↦ ok (some (codes "ERROR"), e) | some old ↦ fault wild_pointer ]

-- The call on the words of the message.
abbrev pub on_words : List Bytes → Engine → Run (Option Bytes × Engine)
on_words ws e = kvstore_parser_protocol ws e >>= written_text
