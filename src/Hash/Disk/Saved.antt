-- ===== src/Hash/Disk/Saved.antt =====
-- What `save_to_disk` writes, and that a search of all the nodes is a search of one bucket.
use mathlib.Core.Option.{or_else}
use kvstore_epoll.Prelude.{
  ℕ, zero, suc, ◌+◌, ◌≤◌, ◌≡◌, ◌≢◌, refl, none, List, [], ◌∷◌, ◌++◌, Bytes, All, arith, All-append,
  if◌then◌else◌, leb, ltb, ◌&&◌, append_assoc, ok, ◌>>=◌, pos, strcmp_eq_iff,
}
use kvstore_epoll.Hash.Chain.{Node, find}
use kvstore_epoll.Hash.Table.{Bucket, Engine, max_table_size, hash_of}
use kvstore_epoll.Hash.Index.{slot, slot-lt}
use kvstore_epoll.Hash.View.{chain_of, nodes_of, HasHome, IsValid, read_bucket-index}
use kvstore_epoll.Hash.Disk.{print_node, print_chain, print_buckets}

-- The nodes of `count` buckets from `first` on.
pub nodes_from : (ℕ → Bucket) → ℕ → ℕ → List Node
nodes_from nodes first zero = []
nodes_from nodes first (suc count) = chain_of (nodes first) ++ nodes_from nodes (first + 1) count

print_chain-append : (a b : List Node) → print_chain (a ++ b) ≡ print_chain a ++ print_chain b
unfolding print_chain
print_chain-append [] b = refl
print_chain-append (n ∷ a) b =
    rw (print_chain-append a b, append_assoc (print_node n) (print_chain a) (print_chain b))

pub print_buckets-nodes :
    {e : Engine}
    → IsValid e
    → (first count : ℕ) → first + count ≤ max_table_size
    → print_buckets e.hash first count ≡ ok (print_chain (nodes_from (nodes_of e.hash) first count))
unfolding print_buckets nodes_from print_chain
print_buckets-nodes valid first zero h = refl
print_buckets-nodes {e} valid first (suc count) h = rw (
  read_bucket-index valid first (omega arith),
  ◌>>=◌,
  print_buckets-nodes valid (first + 1) count (omega arith),
  print_chain-append (chain_of (nodes_of e.hash first))
      (nodes_from (nodes_of e.hash) (first + 1) count),
)

find-append : (j : Bytes) (a b : List Node) → find j (a ++ b) ≡ or_else (find j a) (find j b)
unfolding find or_else
find-append j [] b = refl
find-append j (n ∷ a) b = rw (find-append j a b) (ground arith)

-- A chain of another bucket does not hold the key.
pub find-home :
    (j : Bytes) (i : ℕ) (ns : List Node)
    → All (HasHome i) ns
    → hash_of j max_table_size ≢ pos i
    → find j ns ≡ none
unfolding find
find-home j i [] h away = refl
find-home j i (n ∷ ns) h away = ground (arith, find-home j i ns h.1 away, strcmp_eq_iff n.key j)

module _ (nodes : ℕ → Bucket) (home : (i : ℕ) → All (HasHome i) (chain_of (nodes i)))
    (j : Bytes) where
  find-nodes_from :
      (first count : ℕ)
      → find j (nodes_from nodes first count) ≡ (
          if leb first (slot j) && ltb (slot j) (first + count)
          then find j (chain_of (nodes (slot j)))
          else none)
  unfolding nodes_from find or_else
  find-nodes_from first zero = ground arith
  find-nodes_from first (suc count) =
      rw
        (
          find-append j (chain_of (nodes first)) (nodes_from nodes (first + 1) count),
          find-nodes_from (first + 1) count,
        )
        (ground (arith, find-home j first (chain_of (nodes first)) (home first)))

  -- A search of all the nodes is a search of the key's bucket.
  pub find-all_nodes :
      find j (nodes_from nodes 0 max_table_size) ≡ find j (chain_of (nodes (slot j)))
  find-all_nodes = rw (find-nodes_from 0 max_table_size) (ground (arith, slot-lt j))

-- What holds of the nodes of every bucket holds of them all.
pub All-nodes_from {κ} :
    (P : Node → Type κ) (nodes : ℕ → Bucket) (first count : ℕ)
    → ((i : ℕ) → All P (chain_of (nodes i)))
    → All P (nodes_from nodes first count)
unfolding nodes_from
All-nodes_from P nodes first zero h = tt
All-nodes_from P nodes first (suc count) h =
    All-append P (chain_of (nodes first)) (nodes_from nodes (first + 1) count) (h first)
      (All-nodes_from P nodes (first + 1) count h)
