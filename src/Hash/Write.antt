-- ===== src/Hash/Write.antt =====
-- A write to one bucket: the invariant and the map after it.
use kvstore_epoll.Prelude.{
  ℕ, ◌+◌, ◌*◌, ◌≡◌, refl, Option, some, List, Bytes, All, arith, length, ℤ, pos, strcmp_eq,
  strcmp_eq_iff, if◌then◌else◌, ok, ◌>>=◌,
}
use kvstore_epoll.Memory.{Heap}
use kvstore_epoll.Hash.Chain.{Node, find, Distinct}
use kvstore_epoll.Hash.Table.{Bucket, Engine, max_table_size, hash_of, update, write_bucket}
use kvstore_epoll.Hash.Index.{slot, IsIndexed, slot-lt}
use kvstore_epoll.Hash.View.{nodes_of, chain_at, view, total, HasHome, IsValid, total-update_lt}

module _ (e : Engine) (key : Bytes) (ns : List Node) where
  abbrev pub written_nodes : ℕ → Bucket
  written_nodes = update (nodes_of e.hash) (pos (slot key)) ns

  -- The engine after `nodes[slot key] = ns`, with a new count and a new heap.
  abbrev pub written : ℤ → Heap → Engine
  written count heap = record {
    hash = record (e.hash) { nodes = some written_nodes; count = count };
    heap = heap;
  }

  pub write_bucket-valid :
      IsValid e
      → IsIndexed key
      → write_bucket e.hash (hash_of key max_table_size) ns
        ≡ ok (record (e.hash) { nodes = some written_nodes })
  unfolding write_bucket
  write_bucket-valid valid indexed = rw (valid.array, ◌>>=◌, indexed)

  pub view-written :
      (count : ℤ) (heap : Heap) (j : Bytes) (r : Option Bytes)
      → find j ns ≡ (if strcmp_eq key j then r else find j (chain_at e.hash key))
      → view (written count heap).hash j ≡ (if strcmp_eq key j then r else view e.hash j)
  unfolding view update
  view-written count heap j r h = ground (arith, strcmp_eq_iff key j)

  pub written-IsValid :
      (count : ℤ) (heap : Heap)
      → IsValid e
      → Distinct ns
      → All (HasHome (slot key)) ns
      → count ≡ pos (total written_nodes max_table_size)
      → heap.allocated ≡ heap.freed + 1 + 3 * total written_nodes max_table_size
      → IsValid (written count heap)
  unfolding update
  written-IsValid count heap valid apart homes counted blocks = record {
    array = refl;
    slots = valid.slots;
    filled = λ i h. ground (arith, valid.filled i h);
    distinct = λ i. ground (arith, valid.distinct i);
    home = λ i. ground (arith, valid.home i);
    counted = counted;
    blocks = blocks;
  }

  -- How the number of nodes changes.
  pub total-written :
      total written_nodes max_table_size + length (chain_at e.hash key)
      ≡ total (nodes_of e.hash) max_table_size + length ns
  total-written = total-update_lt (nodes_of e.hash) (slot key) ns max_table_size (slot-lt key)
