-- ===== src/Hash/Table.antt =====
-- kv_core/hash.cpp, as it is compiled with ENABLE_POINTER_KEY: the types of the hash table, `_hash`,
-- the access to buckets, new nodes and `init_hashtable`.
-- Every caller passes the address of the global `Hash`, so the test `!hash` never holds and the
-- table is passed as a value. The array of buckets is a function on its indices; an index outside
-- MAX_TABLE_SIZE is a fault.
use kvstore_epoll.Prelude.{
  ℕ, ◌+◌, ◌-◌, ◌*◌, Option, none, some, List, [], ◌∷◌, Bytes, length, if◌then◌else◌, ◌==◌, ltb, ℤ,
  pos, negsuc, ◌+ℤ◌, ◌%ℤ◌, Run, ok, fault, out_of_bounds, wild_pointer, deref, ◌>>=◌,
}
use kvstore_epoll.Memory.{Heap, Ptr, load_string, kvstore_malloc, kvstore_free}
use kvstore_epoll.Hash.Chain.{Node}

abbrev pub max_table_size : ℕ
max_table_size = 102400

-- The head pointer of a bucket: a chain, which may be empty, or what `malloc` left in the cell.
pub data Bucket : Type 0 where
  chain : List Node → Bucket
  garbage : Bucket

-- `hashtable_t`; `count` and `max_slots` are C's `int`
pub record Hashtable : Type 0 where
  pub nodes : Option (ℕ → Bucket)
  pub max_slots : ℕ
  pub count : ℤ

-- The global `Hash` with the heap that its nodes live in.
pub record Engine : Type 0 where
  pub hash : Hashtable
  pub heap : Heap

-- A plain `char` is signed: a byte above 127 counts as negative.
unfoldable pub char_value : ℕ → ℤ
char_value b = if ltb b 128 then pos b else negsuc (255 - b)

-- `while (key[i] != 0) sum += key[i]`
unfoldable pub sum_from : ℤ → Bytes → ℤ
sum_from sum [] = sum
sum_from sum (b ∷ bs) = sum_from (sum +ℤ char_value b) bs

-- `_hash` of a key that is not null
unfoldable pub hash_of : Bytes → ℕ → ℤ
hash_of key size = sum_from (pos 0) key %ℤ size

-- `hash->nodes[idx]`, followed by the first use of the pointer found there
unfoldable pub bucket_at : (ℕ → Bucket) → ℤ → Run (List Node)
bucket_at nodes (negsuc n) = fault out_of_bounds
bucket_at nodes (pos i) =
    if ltb i max_table_size
    then (elim (nodes i) [ chain ns ↦ ok ns | garbage ↦ fault wild_pointer ])
    else fault out_of_bounds

unfoldable pub read_bucket : Hashtable → ℤ → Run (List Node)
read_bucket t idx = do nodes ← deref t.nodes; bucket_at nodes idx

unfoldable pub update : (ℕ → Bucket) → ℤ → List Node → ℕ → Bucket
update nodes (negsuc n) ns j = nodes j
update nodes (pos i) ns j = if i == j then chain ns else nodes j

-- `hash->nodes[idx] = ...`, after a read of the same bucket
unfoldable pub write_bucket : Hashtable → ℤ → List Node → Run Hashtable
write_bucket t idx ns = do
  nodes ← deref t.nodes
  ok (record t { nodes = some (update nodes idx ns) })

-- `sizeof(hashnode_t)`: three pointers
abbrev pub node_size : ℕ
node_size = 24

unfoldable pub create_node : Bytes → Ptr → Heap → Run (Option Node × Heap)
create_node key value h =
    let (got_node, h₁) = kvstore_malloc node_size h in
    if got_node
    then (let (got_key, h₂) = kvstore_malloc (length key + 1) h₁ in
        if got_key
        then (do
          v ← load_string value
          let (got_value, h₃) = kvstore_malloc (length v + 1) h₂
          if got_value
              then ok (some (record { key = key; value = v }), h₃)
              else ok (none, kvstore_free (kvstore_free h₃)))
        else ok (none, kvstore_free h₂))
    else ok (none, h₁)

-- `malloc` leaves the pointers of a fresh array as they are.
unfoldable pub init_hashtable : Engine → ℤ × Engine
init_hashtable e =
    let call = e.heap.calls in
    let (granted, h) = kvstore_malloc (8 * max_table_size) e.heap in
    if granted
    then (
      pos 0,
      record {
        hash = record {
          nodes = some (λ i. if e.heap.cleared call i then chain [] else garbage);
          max_slots = max_table_size;
          count = pos 0;
        };
        heap = h;
      },
    )
    else (negsuc 0, record { hash = record (e.hash) { nodes = none }; heap = h })
