-- ===== src/Hash/Ops.antt =====
-- kv_core/hash.cpp: the operations on the table.
use kvstore_epoll.Prelude.{
  ℕ, zero, suc, ◌+◌, Option, none, some, List, [], ◌∷◌, Bytes, strcmp_eq, length, if◌then◌else◌, ℤ,
  pos, negsuc, ◌+ℤ◌, ◌-ℤ◌, Run, ok, fault, wild_pointer, assertion, deref, ◌>>=◌,
}
use kvstore_epoll.Memory.{Heap, Ptr, null, to, wild, load_string, kvstore_malloc, kvstore_free}
use kvstore_epoll.Hash.Chain.{Node, find, unlink_after, assign}
use kvstore_epoll.Hash.Table.{
  Hashtable, Engine, max_table_size, hash_of, read_bucket, write_bucket, create_node,
  init_hashtable,
}

-- `if (strcmp(...) == 0) return 1;` for some node, else a new node in front
unfoldable pub insert_front : Bytes → Ptr → ℤ → List Node → Engine → Run (ℤ × Engine)
insert_front key value idx ns e = do
  (made, h) ← create_node key value e.heap
  node ← deref made
  t ← write_bucket e.hash idx (node ∷ ns)
  ok (pos 0, record { hash = record t { count = t.count +ℤ pos 1 }; heap = h })

unfoldable pub put_key : Bytes → Ptr → Engine → Run (ℤ × Engine)
unfolding insert_front
put_key key value e =
    let idx = hash_of key max_table_size in
    do
      ns ← read_bucket e.hash idx
      elim (find key ns) [ some old ↦ ok (pos 1, e) | none ↦ insert_front key value idx ns e ]

unfoldable pub put_kv_hashtable : Ptr → Ptr → Engine → Run (ℤ × Engine)
unfolding put_key
put_kv_hashtable null value e = ok (negsuc 0, e)
put_kv_hashtable wild null e = ok (negsuc 0, e)
put_kv_hashtable wild value e = fault wild_pointer
put_kv_hashtable (to key) null e = ok (negsuc 0, e)
put_kv_hashtable (to key) value e = put_key key value e

unfoldable pub get_kv_hashtable : Ptr → Engine → Run (Option Bytes)
get_kv_hashtable null e = ok none
get_kv_hashtable wild e = fault wild_pointer
get_kv_hashtable (to key) e = do
  ns ← read_bucket e.hash (hash_of key max_table_size)
  ok (find key ns)

-- The three `kvstore_free` of a node, `nodes[idx]` or `cur->next` already past it.
unfoldable pub drop_node : ℤ → List Node → Engine → Run (ℤ × Engine)
drop_node idx rest e = do
  t ← write_bucket e.hash idx rest
  ok (
    pos 0,
    record {
      hash = record t { count = t.count -ℤ pos 1 };
      heap = kvstore_free (kvstore_free (kvstore_free e.heap));
    },
  )

unfoldable pub delete_from : Bytes → ℤ → List Node → Engine → Run (ℤ × Engine)
unfolding drop_node
delete_from key idx [] e = ok (negsuc 0, e)
delete_from key idx (head ∷ ns) e =
    if strcmp_eq head.key key then drop_node idx ns e else elim (unlink_after key head ns) [
      | none ↦ ok (negsuc 0, e)
      | some rest ↦ drop_node idx rest e
    ]

unfoldable pub delete_kv_hashtable : Ptr → Engine → Run (ℤ × Engine)
unfolding delete_from
delete_kv_hashtable null e = ok (negsuc 1, e)
delete_kv_hashtable wild e = fault wild_pointer
delete_kv_hashtable (to key) e =
    let idx = hash_of key max_table_size in do ns ← read_bucket e.hash idx; delete_from key idx ns e

-- `if (value)` of the pointer that `get_kv_hashtable` returns
unfoldable pub exist_kv_hashtable : Ptr → Engine → Run ℤ
unfolding get_kv_hashtable
exist_kv_hashtable key e = do
  value ← get_kv_hashtable key e
  ok (elim value [ some v ↦ pos 1 | none ↦ pos 0 ])

-- The old value is freed before the new block is asked for.
unfoldable pub replace_value : Bytes → Ptr → ℤ → List Node → Engine → Run (ℤ × Engine)
replace_value key value idx ns e = do
  v ← load_string value
  let (got, h) = kvstore_malloc (length v + 1) (kvstore_free e.heap)
  if got
      then (do
        t ← write_bucket e.hash idx (assign key v ns)
        ok (pos 0, record { hash = t; heap = h }))
      else fault assertion

unfoldable pub modify_key : Bytes → Ptr → Engine → Run (ℤ × Engine)
unfolding replace_value
modify_key key value e =
    let idx = hash_of key max_table_size in
    do
      ns ← read_bucket e.hash idx
      elim (find key ns) [ some old ↦ replace_value key value idx ns e | none ↦ ok (negsuc 0, e) ]

unfoldable pub kvs_hash_modify : Ptr → Ptr → Engine → Run (ℤ × Engine)
unfolding modify_key
kvs_hash_modify null value e = ok (negsuc 0, e)
kvs_hash_modify wild null e = ok (negsuc 0, e)
kvs_hash_modify wild value e = fault wild_pointer
kvs_hash_modify (to key) null e = ok (negsuc 0, e)
kvs_hash_modify (to key) value e = modify_key key value e

abbrev pub kvs_hash_count : Engine → ℤ
kvs_hash_count e = e.hash.count

-- `while (node != NULL)` of `dest_hashtable`: the node alone is freed.
unfoldable pub free_chain : List Node → Heap → Heap
free_chain [] h = h
free_chain (n ∷ ns) h = free_chain ns (kvstore_free h)

-- `for (i = first; i < first + count; i++)`
unfoldable pub free_buckets : Hashtable → ℕ → ℕ → Heap → Run Heap
unfolding free_chain
free_buckets t first zero h = ok h
free_buckets t first (suc count) h = do
  ns ← read_bucket t (pos first)
  free_buckets t (first + 1) count (free_chain ns h)

-- `free` of a null pointer does nothing. The pointer `hash->nodes` is left dangling; nothing uses
-- the table afterwards.
unfoldable pub dest_hashtable : Engine → Run Heap
dest_hashtable e = do
  h ← free_buckets e.hash 0 e.hash.max_slots e.heap
  ok (elim e.hash.nodes [ none ↦ h | some nodes ↦ kvstore_free h ])

-- The second layer of names, which the protocol calls.
abbrev pub kvstore_hash_create : Engine → ℤ × Engine
kvstore_hash_create = init_hashtable

abbrev pub kvstore_hash_destory : Engine → Run Heap
kvstore_hash_destory = dest_hashtable

abbrev pub kvs_hash_set : Ptr → Ptr → Engine → Run (ℤ × Engine)
kvs_hash_set = put_kv_hashtable

abbrev pub kvs_hash_get : Ptr → Engine → Run (Option Bytes)
kvs_hash_get = get_kv_hashtable

abbrev pub kvs_hash_delete : Ptr → Engine → Run (ℤ × Engine)
kvs_hash_delete = delete_kv_hashtable
