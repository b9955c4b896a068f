-- ===== src/Hash/Put.antt =====
-- `put_kv_hashtable` and `get_kv_hashtable` against a map.
use kvstore_epoll.Prelude.{
  ◌+◌, ◌≡◌, refl, ap, ◌∙◌, Option, none, some, ◌∷◌, Bytes, arith, length, ℤ, pos, strcmp_eq,
  if◌then◌else◌, ok, fault, null_pointer, deref, ◌>>=◌, inl, inr, Option-cases, Returns, pos-+ℤ,
  ◌+ℤ◌, false,
}
use kvstore_epoll.Memory.{Heap, NeverFails, Ptr, to, load_string, kvstore_malloc}
use kvstore_epoll.Hash.Chain.{Node, find}
use kvstore_epoll.Hash.Table.{Engine, node_size, create_node}
use kvstore_epoll.Hash.Ops.{insert_front, put_kv_hashtable, get_kv_hashtable}
use kvstore_epoll.Hash.Index.{slot, IsIndexed}
use kvstore_epoll.Hash.View.{chain_at, view, IsValid, read_bucket-valid}
use kvstore_epoll.Hash.Write.{
  written, write_bucket-valid, view-written, written-IsValid, total-written,
}

-- `m` with `v` at a key that it does not hold yet.
abbrev pub or_insert : (Bytes → Option Bytes) → Bytes → Bytes → Bytes → Option Bytes
or_insert m k v j = elim (m k) [ some old ↦ m j | none ↦ if strcmp_eq k j then some v else m j ]

-- What `put_kv_hashtable` has done when it returns `r`.
pub record Puts (e : Engine) (key value : Bytes) (r : ℤ × Engine) : Type 0 where
  pub valid : IsValid r.1
  pub code : r.0 ≡ elim (view e.hash key) [ some old ↦ pos 1 | none ↦ pos 0 ]
  pub map : (j : Bytes) → view r.1.hash j ≡ or_insert (view e.hash) key value j
  pub count :
      r.1.hash.count
      ≡ elim (view e.hash key) [ some old ↦ e.hash.count | none ↦ e.hash.count +ℤ pos 1 ]
  pub memory : NeverFails r.1.heap

abbrev grown : Heap → Heap
grown h = record h { calls = h.calls + 1 + 1 + 1; allocated = h.allocated + 1 + 1 + 1 }

create_node-granted :
    (key value : Bytes) (h : Heap)
    → NeverFails h
    → create_node key (to value) h ≡ ok (some (record { key = key; value = value }), grown h)
unfolding create_node kvstore_malloc load_string
create_node-granted key value h memory = simp (
  memory h.calls node_size,
  memory (h.calls + 1) (length key + 1),
  memory (h.calls + 1 + 1) (length value + 1),
)

create_node-refused :
    (key : Bytes) (value : Ptr) (h : Heap)
    → h.grants h.calls node_size ≡ false
    → create_node key value h ≡ ok (none, record h { calls = h.calls + 1 })
unfolding create_node kvstore_malloc
create_node-refused key value h refused = simp refused

module _ {e : Engine} (valid : IsValid e) (key : Bytes) (indexed : IsIndexed key) where
  -- `get_kv_hashtable` returns the value of the map.
  pub get-view : get_kv_hashtable (to key) e ≡ ok (view e.hash key)
  unfolding get_kv_hashtable view
  get-view = rw (read_bucket-valid valid key indexed)

  module _ (value : Bytes) where
    fresh : Node
    fresh = record { key = key; value = value }

    put-exists :
        (old : Bytes)
        → view e.hash key ≡ some old
        → put_kv_hashtable (to key) (to value) e ≡ ok (pos 1, e)
    unfolding put_kv_hashtable view
    put-exists old h = rw (read_bucket-valid valid key indexed, ◌>>=◌, h)

    inserted : Engine
    inserted = written e key (fresh ∷ chain_at e.hash key) (e.hash.count +ℤ pos 1) (grown e.heap)

    put-new :
        NeverFails e.heap
        → view e.hash key ≡ none
        → put_kv_hashtable (to key) (to value) e ≡ ok (pos 0, inserted)
    unfolding put_kv_hashtable view inserted fresh
    put-new memory h = rw (
      read_bucket-valid valid key indexed,
      ◌>>=◌,
      h,
      insert_front,
      create_node-granted key value e.heap memory,
      ◌>>=◌,
      deref,
      write_bucket-valid e key (record { key = key; value = value } ∷ chain_at e.hash key) valid
          indexed,
    )

    inserted-IsValid : view e.hash key ≡ none → IsValid inserted
    unfolding inserted fresh view
    inserted-IsValid h =
        let grows =
          total-written e key (record { key = key; value = value } ∷ chain_at e.hash key) in
        written-IsValid e key _ _ _ valid (h, valid.distinct (slot key))
          (indexed, valid.home (slot key)) (rw valid.counted (pos-+ℤ _ 1 ∙ ap pos (omega arith)))
          (omega (arith, valid.blocks))

    -- On a valid table, with memory at hand and for a key that has an index, `put_kv_hashtable`
    -- returns 1 and changes nothing where the key is there, and else returns 0, adds the pair and
    -- counts it; the table stays valid.
    pub put-Puts :
        NeverFails e.heap → Returns (put_kv_hashtable (to key) (to value) e) (Puts e key value)
    unfolding inserted fresh find
    put-Puts memory = elim (Option-cases (view e.hash key)) [
      | inl h ↦ (
        (pos 0, inserted),
        put-new memory h,
        record {
          valid = inserted-IsValid h;
          code = rw h;
          map = λ j.
              rw (or_insert, h)
                (view-written e key _ (e.hash.count +ℤ pos 1) (grown e.heap) j (some value) refl);
          count = rw h;
          memory = memory;
        },
      )
      | inr (old, h) ↦ (
        (pos 1, e),
        put-exists old h,
        record {
          valid = valid;
          code = rw h;
          map = λ j. rw (or_insert, h);
          count = rw h;
          memory = memory;
        },
      )
    ]

    -- On a valid table, where the key has an index and is not there and the first `malloc` returns
    -- null, `put_kv_hashtable` writes through that pointer.
    pub put-out_of_memory :
        view e.hash key ≡ none
        → e.heap.grants e.heap.calls node_size ≡ false
        → put_kv_hashtable (to key) (to value) e ≡ fault null_pointer
    unfolding put_kv_hashtable view
    put-out_of_memory h refused = rw (
      read_bucket-valid valid key indexed,
      ◌>>=◌,
      h,
      insert_front,
      create_node-refused key (to value) e.heap refused,
    )
