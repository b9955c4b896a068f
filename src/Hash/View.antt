-- ===== src/Hash/View.antt =====
-- What the table means, and when its representation is in order.
use kvstore_epoll.Prelude.{
  ℕ, zero, suc, ◌+◌, ◌*◌, ◌<◌, ◌≡◌, Option, none, some, List, [], Bytes, All, arith, length, pos,
  if◌then◌else◌, ltb, lt→ltb, ok, ◌>>=◌,
}
use kvstore_epoll.Hash.Chain.{Node, find, Distinct}
use kvstore_epoll.Hash.Table.{
  Bucket, chain, garbage, Hashtable, Engine, max_table_size, hash_of, bucket_at, read_bucket,
  update,
}
use kvstore_epoll.Hash.Index.{slot, IsIndexed, slot-lt}

abbrev pub chain_of : Bucket → List Node
chain_of (chain ns) = ns
chain_of garbage = []

abbrev pub nodes_of : Hashtable → ℕ → Bucket
nodes_of t = elim t.nodes [ some f ↦ f | none ↦ (λ _. garbage) ]

-- The chain that a key belongs to.
abbrev pub chain_at : Hashtable → Bytes → List Node
chain_at t key = chain_of (nodes_of t (slot key))

-- The table as a map from keys to values.
unfoldable pub view : Hashtable → Bytes → Option Bytes
view t key = find key (chain_at t key)

-- The nodes in the first `n` buckets.
unfoldable pub total : (ℕ → Bucket) → ℕ → ℕ
total nodes zero = 0
total nodes (suc n) = total nodes n + length (chain_of (nodes n))

abbrev pub HasHome : ℕ → Node → Type 0
HasHome i n = hash_of n.key max_table_size ≡ pos i

pub record IsValid (e : Engine) : Type 0 where
  pub array : e.hash.nodes ≡ some (nodes_of e.hash)
  pub slots : e.hash.max_slots ≡ max_table_size
  pub filled :
      (i : ℕ) → i < max_table_size → nodes_of e.hash i ≡ chain (chain_of (nodes_of e.hash i))
  pub distinct : (i : ℕ) → Distinct (chain_of (nodes_of e.hash i))
  pub home : (i : ℕ) → All (HasHome i) (chain_of (nodes_of e.hash i))
  pub counted : e.hash.count ≡ pos (total (nodes_of e.hash) max_table_size)
  -- the array, and three blocks for each node
  pub blocks : e.heap.allocated ≡ e.heap.freed + 1 + 3 * total (nodes_of e.hash) max_table_size

pub total-update :
    (nodes : ℕ → Bucket) (i : ℕ) (ns : List Node) (n : ℕ)
    → (total (update nodes (pos i) ns) n + (if ltb i n then length (chain_of (nodes i)) else 0))
      ≡ (total nodes n + (if ltb i n then length ns else 0))
unfolding total update
total-update nodes i ns zero = ground arith
total-update nodes i ns (suc n) = ground (arith, total-update nodes i ns n)

-- A write to bucket `i` changes the number of nodes by the change of that bucket.
pub total-update_lt :
    (nodes : ℕ → Bucket) (i : ℕ) (ns : List Node) (n : ℕ)
    → i < n
    → total (update nodes (pos i) ns) n + length (chain_of (nodes i)) ≡ total nodes n + length ns
total-update_lt nodes i ns n h = ground (arith, total-update nodes i ns n)

-- A valid table is read without a fault at every index of the array.
pub read_bucket-index :
    {e : Engine}
    → IsValid e
    → (i : ℕ) → i < max_table_size
    → read_bucket e.hash (pos i) ≡ ok (chain_of (nodes_of e.hash i))
unfolding read_bucket bucket_at
read_bucket-index valid i h = rw (valid.array, ◌>>=◌, lt→ltb i max_table_size h, valid.filled i h)

module _ {e : Engine} (valid : IsValid e) (key : Bytes) (indexed : IsIndexed key) where
  -- A valid table is read without a fault at every key that has an index.
  pub read_bucket-valid : read_bucket e.hash (hash_of key max_table_size) ≡ ok (chain_at e.hash key)
  read_bucket-valid = rw indexed (read_bucket-index valid (slot key) (slot-lt key))
