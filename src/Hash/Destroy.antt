-- ===== src/Hash/Destroy.antt =====
-- `init_hashtable` and `dest_hashtable`: a fresh table, and what is left of the heap at the end.
use kvstore_epoll.Prelude.{
  ℕ, zero, suc, ◌+◌, ◌*◌, ◌≤◌, ◌<◌, ◌≡◌, refl, ap, ◌∙◌, sym, none, List, [], ◌∷◌, Bytes, arith,
  length, pos, pos_part, if◌then◌else◌, lt→ltb, ok, fault, wild_pointer, ◌>>=◌, Returns, false,
  true, Bool,
}
use native.Mathlib.Numerals.{add-one}
use kvstore_epoll.Memory.{Heap, NeverFails, to, kvstore_malloc, kvstore_free}
use kvstore_epoll.Hash.Chain.{Node, find}
use kvstore_epoll.Hash.Table.{
  Bucket, chain, garbage, Hashtable, Engine, max_table_size, bucket_at, read_bucket, init_hashtable,
}
use kvstore_epoll.Hash.Ops.{
  put_kv_hashtable, get_kv_hashtable, free_chain, free_buckets, dest_hashtable,
}
use kvstore_epoll.Hash.Index.{slot, IsIndexed, slot-lt}
use kvstore_epoll.Hash.View.{chain_of, nodes_of, view, total, IsValid, read_bucket-index}

-- The bytes that `init_hashtable` asks for.
abbrev pub array_size : ℕ
array_size = 8 * max_table_size

total-fresh_nodes :
    (cleared : ℕ → Bool) (n : ℕ) → total (λ i. if cleared i then chain [] else garbage) n ≡ 0
unfolding total
total-fresh_nodes cleared zero = refl
total-fresh_nodes cleared (suc n) = ground (arith, total-fresh_nodes cleared n)

module _ (e : Engine) (granted : e.heap.grants e.heap.calls array_size ≡ true) where
  -- Where `malloc` gives the array, every pointer in it happens to be null and no block is in use,
  -- `init_hashtable` returns 0 and the table is valid and empty.
  pub init-IsValid :
      ((i : ℕ) → i < max_table_size → e.heap.cleared e.heap.calls i ≡ true)
      → e.heap.allocated ≡ e.heap.freed
      → let (code, e') = init_hashtable e in
        (code ≡ pos 0) × IsValid e' × ((key : Bytes) → view e'.hash key ≡ none)
  unfolding init_hashtable kvstore_malloc view find
  init-IsValid cleared balanced =
      let empty = total-fresh_nodes (e.heap.cleared e.heap.calls) max_table_size in
      rw granted (
        refl,
        record {
          array = refl;
          slots = refl;
          filled = λ i h. rw (cleared i h);
          distinct = λ i. ground arith;
          home = λ i. ground arith;
          counted = ap pos (sym empty);
          blocks = omega arith;
        },
        λ key. ground arith,
      )

  -- Where `malloc` gives the array and the pointer at the index of a key is not null in it, the
  -- first put or get of that key on the new table follows that pointer.
  pub init_uncleared :
      (key value : Bytes)
      → IsIndexed key
      → e.heap.cleared e.heap.calls (slot key) ≡ false
      → let e' = (init_hashtable e).1 in
        (put_kv_hashtable (to key) (to value) e' ≡ fault wild_pointer)
        × (get_kv_hashtable (to key) e' ≡ fault wild_pointer)
  unfolding init_hashtable kvstore_malloc put_kv_hashtable get_kv_hashtable read_bucket bucket_at
  init_uncleared key value indexed dirty =
      rw (granted, indexed, lt→ltb (slot key) max_table_size (slot-lt key), dirty) (refl, refl)

freed-free_chain :
    (ns : List Node) (h : Heap)
    → ((free_chain ns h).freed ≡ h.freed + length ns) × ((free_chain ns h).allocated ≡ h.allocated)
unfolding free_chain kvstore_free
freed-free_chain [] h = (omega arith, refl)
freed-free_chain (n ∷ ns) h = let ih = freed-free_chain ns (kvstore_free h) in (omega arith, ih.1)

-- The loop frees one block for each node of the buckets that it passes.
free_buckets-freed :
    (t : Hashtable)
    → ((i : ℕ) → i < max_table_size → read_bucket t (pos i) ≡ ok (chain_of (nodes_of t i)))
    → (first count end_ : ℕ) (h : Heap) → first + count ≡ end_
    → end_ ≤ max_table_size
    → Returns (free_buckets t first count h) λ r.
      (r.freed + total (nodes_of t) first ≡ h.freed + total (nodes_of t) end_)
      × (r.allocated ≡ h.allocated)
unfolding free_buckets total
free_buckets-freed t reads first zero end_ h e small =
    let same : first ≡ end_ = omega arith in
    (h, refl, (ap (λ i. h.freed + total (nodes_of t) i) same, refl))
free_buckets-freed t reads first (suc count) end_ h e small =
    let ns = chain_of (nodes_of t first) in
    let (r, run, (f, a)) =
      free_buckets-freed t reads (first + 1) count end_ (free_chain ns h) (omega arith) small in
    let step : total (nodes_of t) (first + 1) ≡ total (nodes_of t) first + length ns =
      rw add-one refl in
    (
      r,
      rw (reads first (omega arith), ◌>>=◌) run,
      (omega (arith, freed-free_chain ns h), a ∙ (freed-free_chain ns h).1),
    )

total-zero : (nodes : ℕ → Bucket) → total nodes 0 ≡ 0
unfolding total
total-zero nodes = refl

-- `dest_hashtable` on a valid table runs to its end and leaves two blocks of each node allocated:
-- the key and the value.
pub dest-leaks :
    {e : Engine}
    → IsValid e
    → Returns (dest_hashtable e) (λ h. h.allocated ≡ h.freed + 2 * pos_part e.hash.count)
unfolding dest_hashtable kvstore_free
dest-leaks {e} valid =
    let (h, run, (f, a)) =
      free_buckets-freed e.hash (read_bucket-index valid) 0 e.hash.max_slots max_table_size e.heap
        (rw valid.slots (omega arith)) (omega arith) in
    (
      record h { freed = h.freed + 1 },
      rw (run, ◌>>=◌, valid.array),
      omega (arith, valid.blocks, total-zero (nodes_of e.hash), ap pos_part valid.counted),
    )

pub init-memory : (e : Engine) → NeverFails e.heap → NeverFails (init_hashtable e).1.heap
unfolding init_hashtable kvstore_malloc
init-memory e memory = rw (memory e.heap.calls array_size) memory
