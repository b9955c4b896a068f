-- ===== src/Hash/Modify.antt =====
-- `kvs_hash_modify` against a map.
use kvstore_epoll.Prelude.{
  ℕ, ◌+◌, ◌≡◌, refl, ap, Option, none, some, List, [], ◌∷◌, Bytes, All, arith, length, ℤ, pos,
  negsuc, strcmp_eq, if◌then◌else◌, ok, fault, assertion, ◌>>=◌, inl, inr, Option-cases, Returns,
  false,
}
use kvstore_epoll.Memory.{Heap, NeverFails, to, load_string, kvstore_malloc, kvstore_free}
use kvstore_epoll.Hash.Chain.{Node, assign, length-assign, assign-Distinct, find-assign}
use kvstore_epoll.Hash.Table.{Engine}
use kvstore_epoll.Hash.Ops.{replace_value, kvs_hash_modify}
use kvstore_epoll.Hash.Index.{slot, IsIndexed}
use kvstore_epoll.Hash.View.{chain_at, view, HasHome, IsValid, read_bucket-valid}
use kvstore_epoll.Hash.Write.{
  written, write_bucket-valid, view-written, written-IsValid, total-written,
}

-- `m` with `v` at a key that it holds.
abbrev pub replace : (Bytes → Option Bytes) → Bytes → Bytes → Bytes → Option Bytes
replace m k v j = elim (m k) [ none ↦ m j | some old ↦ if strcmp_eq k j then some v else m j ]

-- What `kvs_hash_modify` has done when it returns `r`.
pub record Modifies (e : Engine) (key value : Bytes) (r : ℤ × Engine) : Type 0 where
  pub valid : IsValid r.1
  pub code : r.0 ≡ elim (view e.hash key) [ some old ↦ pos 0 | none ↦ negsuc 0 ]
  pub map : (j : Bytes) → view r.1.hash j ≡ replace (view e.hash) key value j
  pub count : r.1.hash.count ≡ e.hash.count
  pub memory : NeverFails r.1.heap

assign-HasHome :
    (i : ℕ) (key v : Bytes) (ns : List Node)
    → All (HasHome i) ns
    → All (HasHome i) (assign key v ns)
unfolding assign
assign-HasHome i key v [] h = tt
assign-HasHome i key v (n ∷ ns) h = ground (arith, assign-HasHome i key v ns h.1)

abbrev recycled : Heap → Heap
recycled h = record h { calls = h.calls + 1; allocated = h.allocated + 1; freed = h.freed + 1 }

module _ {e : Engine} (valid : IsValid e) (key : Bytes) (indexed : IsIndexed key)
    (value : Bytes) where
  modified : Engine
  modified = written e key (assign key value (chain_at e.hash key)) e.hash.count (recycled e.heap)

  modify-found :
      (old : Bytes)
      → view e.hash key ≡ some old
      → NeverFails e.heap
      → kvs_hash_modify (to key) (to value) e ≡ ok (pos 0, modified)
  unfolding kvs_hash_modify view modified load_string kvstore_malloc kvstore_free
  modify-found old h memory = rw (
    read_bucket-valid valid key indexed,
    ◌>>=◌,
    h,
    replace_value,
    memory e.heap.calls (length value + 1),
    write_bucket-valid e key (assign key value (chain_at e.hash key)) valid indexed,
  )

  -- The old value is gone by then: where `malloc` returns null the code runs into `assert(0)`.
  pub modify-out_of_memory :
      (old : Bytes)
      → view e.hash key ≡ some old
      → e.heap.grants e.heap.calls (length value + 1) ≡ false
      → kvs_hash_modify (to key) (to value) e ≡ fault assertion
  unfolding kvs_hash_modify view load_string kvstore_malloc kvstore_free
  modify-out_of_memory old h refused =
      rw (read_bucket-valid valid key indexed, ◌>>=◌, h, replace_value, refused)

  modify-missing : view e.hash key ≡ none → kvs_hash_modify (to key) (to value) e ≡ ok (negsuc 0, e)
  unfolding kvs_hash_modify view
  modify-missing h = rw (read_bucket-valid valid key indexed, ◌>>=◌, h)

  modified-IsValid : IsValid modified
  unfolding modified
  modified-IsValid =
      let ns = chain_at e.hash key in
      let same = total-written e key (assign key value ns) in
      let long = length-assign key value ns in
      written-IsValid e key _ _ _ valid (assign-Distinct key value ns (valid.distinct (slot key)))
        (assign-HasHome (slot key) key value ns (valid.home (slot key)))
        (rw valid.counted (ap pos (omega arith))) (omega (arith, valid.blocks))

  -- On a valid table, with memory at hand and for a key that has an index, `kvs_hash_modify` returns
  -- 0 and puts the value in place where the key is there, and else returns -1 and keeps the map; the
  -- table stays valid.
  pub modify-Modifies :
      NeverFails e.heap → Returns (kvs_hash_modify (to key) (to value) e) (Modifies e key value)
  unfolding modified view
  modify-Modifies memory = elim (Option-cases (view e.hash key)) [
    | inl h ↦ (
      (negsuc 0, e),
      modify-missing h,
      record {
        valid = valid;
        code = rw h;
        map = λ j. rw (replace, h);
        count = refl;
        memory = memory;
      },
    )
    | inr (old, h) ↦ (
      (pos 0, modified),
      modify-found old h memory,
      record {
        valid = modified-IsValid;
        code = rw h;
        map = λ j.
            rw (replace, h)
              (view-written e key _ e.hash.count (recycled e.heap) j (some value)
                (find-assign key j value (chain_at e.hash key) old h));
        count = refl;
        memory = memory;
      },
    )
  ]
