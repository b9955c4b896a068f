-- ===== src/Kvstore/Abstract.antt =====
-- The store as its clients see it: a valid table up to the order of its chains and its memory.
use mathlib.Core.Quot
use mathlib.Core.Quot.{Quot, Quot-set}
use kvstore_epoll.Prelude.{
  ℕ, ◌≡◌, ◌≢◌, sym, ap, ◌∙◌, Option, some, Bytes, fun_ext, arith, strcmp_eq_iff, Returns,
}
use kvstore_epoll.Memory.{NeverFails}
use kvstore_epoll.Hash.Table.{Engine}
use kvstore_epoll.Hash.View.{view, IsValid}
use kvstore_epoll.Hash.Same.{total-view}
use kvstore_epoll.Kvstore.Commands.{
  Command, Serves, words, hset, IsCommand, spec_map, spec_reply, size,
}
use kvstore_epoll.Kvstore.Refine.{serve}
use kvstore_epoll.Kvstore.Words.{join}
use kvstore_epoll.Kvstore.Protocol.{kvstore_request}

-- A valid table with memory at hand.
abbrev pub Table : Type 0
Table = (e : Engine) × IsValid e × NeverFails e.heap

abbrev pub SameMap : Table → Table → Type 0
SameMap a b = (j : Bytes) → view a.0.hash j ≡ view b.0.hash j

abbrev pub Store : Type 0
Store = Quot SameMap

view_of : Table → Bytes → Option Bytes
view_of a = view a.0.hash

SameMap-view : (a b : Table) → SameMap a b → view_of a ≡ view_of b
unfolding view_of
SameMap-view a b same = fun_ext same

map_set : IsSet (Bytes → Option Bytes)
map_set = hlevel

-- What the clients can know of the store: its map, and the number of its pairs.
pub map_of : Store → Bytes → Option Bytes
unfolding view_of
map_of = Quot.lift map_set view_of SameMap-view

size-SameMap : (a b : Table) → SameMap a b → size a.0 ≡ size b.0
size-SameMap a b same = total-view a.1 b.1 same

pub count_of : Store → ℕ
count_of = Quot.lift (hlevel) (λ (a : Table). size a.0) size-SameMap

module _ (c : Command) (is : IsCommand c) where
  -- The table that a request leaves, and the answer to it.
  abbrev answered : (a : Table) → Returns (kvstore_request (join (words c)) a.0) (Serves a.0 c)
  answered a = serve a.1 a.2 c is

  table_after : Table → Table
  table_after a = let (r, run, p) = answered a in (r.1, p.valid, p.memory)

  table_after-SameMap : (a b : Table) → SameMap a b → SameMap (table_after a) (table_after b)
  unfolding table_after
  table_after-SameMap a b same j =
      (answered a).2.map j
      ∙ ap (λ (m : Bytes → Option Bytes). spec_map m c j) (fun_ext same)
      ∙ sym ((answered b).2.map j)

  -- The request on the store.
  pub store_after : Store → Store
  unfolding table_after
  store_after =
      Quot.lift Quot-set (λ (a : Table). Quot.mk (table_after a))
        (λ a b same. Quot.sound (table_after-SameMap a b same))

  reply_text : Table → Option Bytes
  reply_text a = (answered a).0.0

  reply_text-SameMap : (a b : Table) → SameMap a b → reply_text a ≡ reply_text b
  unfolding reply_text view_of view
  reply_text-SameMap a b same =
      (answered a).2.reply
      ∙ ap some (
          ap (λ m. spec_reply m (size a.0) c) (SameMap-view a b same)
          ∙ ap (λ n. spec_reply (view b.0.hash) n c) (size-SameMap a b same))
      ∙ sym ((answered b).2.reply)

  pub store_reply : Store → Option Bytes
  store_reply = Quot.lift (hlevel) reply_text reply_text-SameMap

  -- The answer to a command, and the map after it, are those of the specification, on the store as its clients see it.
  pub store_reply-spec_reply :
      (s : Store)
      → (store_reply s ≡ some (spec_reply (map_of s) (count_of s) c))
        × (map_of (store_after s) ≡ spec_map (map_of s) c)
  unfolding store_reply store_after map_of count_of table_after reply_text view_of
  store_reply-spec_reply =
      Quot.ind (λ s. hlevel) (λ a. ((answered a).2.reply, fun_ext ((answered a).2.map)))

-- Stores, which are valid tables up to the order of the nodes in their chains and the state of the
-- memory, are equal when their maps are.
pub map_of-injective : (s t : Store) → map_of s ≡ map_of t → s ≡ t
unfolding map_of
map_of-injective =
    Quot.ind (λ s. hlevel (Quot-set))
      λ a.
        Quot.ind (λ t. hlevel (Quot-set))
          λ b e. Quot.sound (λ j. ap (λ (m : Bytes → Option Bytes). m j) e)

or_insert_comm :
    (m : Bytes → Option Bytes) (k v j w : Bytes)
    → k ≢ j
    → (x : Bytes)
    → spec_map (spec_map m (hset k v)) (hset j w) x ≡ spec_map (spec_map m (hset j w)) (hset k v) x
or_insert_comm m k v j w apart x =
    ground (arith, strcmp_eq_iff k j, strcmp_eq_iff j k, strcmp_eq_iff k x, strcmp_eq_iff j x)

-- Two HSET of different keys that have an index, with words for keys and values, may be served in
-- either order on any store: the stores behind them are equal, as valid tables up to the order of the
-- nodes in their chains and the state of the memory.
pub hset_comm :
    (k v j w : Bytes) (first : IsCommand (hset k v)) (second : IsCommand (hset j w))
    → k ≢ j
    → (s : Store)
    → store_after (hset j w) second (store_after (hset k v) first s)
      ≡ store_after (hset k v) first (store_after (hset j w) second s)
hset_comm k v j w first second apart s = map_of-injective _ _ (
    (store_reply-spec_reply (hset j w) second _).1
    ∙ ap (λ m. spec_map m (hset j w)) (store_reply-spec_reply (hset k v) first s).1
    ∙ fun_ext (or_insert_comm (map_of s) k v j w apart)
    ∙ ap (λ m. spec_map m (hset k v)) (sym (store_reply-spec_reply (hset j w) second s).1)
    ∙ sym (store_reply-spec_reply (hset k v) first _).1)
