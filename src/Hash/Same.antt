-- ===== src/Hash/Same.antt =====
-- What the map that a table stands for says of its chains.
use kvstore_epoll.Prelude.{
  ℕ, zero, suc, ◌≡◌, refl, sym, ap, ◌∙◌, none, some, List, [], ◌∷◌, Bytes, All, arith, length, ℤ,
  pos, negsuc, inl, inr, ◌≢◌, ◌⊎◌, ◌==◌, Bool-cases, strcmp_eq, strcmp_eq_iff, if◌then◌else◌, true,
}
use kvstore_epoll.Hash.Chain.{
  Node, find, without, Distinct, find-without, without-Distinct, length-without,
}
use kvstore_epoll.Hash.Table.{Bucket, Engine, max_table_size, hash_of}
use kvstore_epoll.Hash.View.{chain_of, nodes_of, view, total, HasHome, IsValid}
use kvstore_epoll.Hash.Disk.Saved.{find-home}

strcmp_eq_refl : (k : Bytes) → strcmp_eq k k ≡ true
strcmp_eq_refl k = (strcmp_eq_iff k k).1 refl

find-tail :
    (n : Node) (ns : List Node) (j : Bytes)
    → Distinct (n ∷ ns)
    → find j ns ≡ (if strcmp_eq n.key j then none else find j (n ∷ ns))
unfolding find
find-tail n ns j h = ground (arith, h.0, strcmp_eq_iff n.key j)

find-nil : (j : Bytes) → find j [] ≡ none
unfolding find
find-nil j = refl

find-head : (n : Node) (ns : List Node) → find n.key (n ∷ ns) ≡ some n.value
unfolding find
find-head n ns = rw (find, strcmp_eq_refl n.key) refl

-- Two chains without double keys, in which every key is found alike, are equally long.
length-alike :
    (ns ms : List Node)
    → Distinct ns
    → Distinct ms
    → ((j : Bytes) → find j ns ≡ find j ms)
    → length ns ≡ length ms
length-alike [] [] d e same = refl
length-alike [] (m ∷ ms) d e same = ground (arith, same m.key, find-head m ms, find-nil m.key)
length-alike (n ∷ ns) ms d e same =
    let there : find n.key ms ≡ some n.value = sym (same n.key) ∙ find-head n ns in
    let rest : (j : Bytes) → find j ns ≡ find j (without n.key ms) =
      λ j. find-tail n ns j d ∙ rw (same j) (sym (find-without n.key j ms e)) in
    omega (
      arith,
      length-alike ns (without n.key ms) d.1 (without-Distinct n.key ms e) rest,
      length-without n.key ms n.value there,
    )

total-alike :
    (f g : ℕ → Bucket)
    → ((i : ℕ) → length (chain_of (f i)) ≡ length (chain_of (g i)))
    → (n : ℕ) → total f n ≡ total g n
unfolding total
total-alike f g same zero = refl
total-alike f g same (suc n) = rw (total-alike f g same n, same n) refl

-- A key whose hash is the index is looked up in that chain.
view-chain :
    (e : Engine) (i : ℕ) (j : Bytes)
    → hash_of j max_table_size ≡ pos i
    → view e.hash j ≡ find j (chain_of (nodes_of e.hash i))
unfolding view
view-chain e i j h = rw h refl

index-or : (z : ℤ) (i : ℕ) → (z ≡ pos i) ⊎ (z ≢ pos i)
index-or (pos n) i = elim (Bool-cases (n == i)) [
  | inl e ↦ inl (ap pos (ground (arith, e)))
  | inr e ↦ inr (λ q. ground (arith, e, q))
]
index-or (negsuc n) i = inr (λ q. cc)

-- Two valid tables that are the same map have the same number of pairs.
pub total-view :
    {e f : Engine}
    → IsValid e
    → IsValid f
    → ((j : Bytes) → view e.hash j ≡ view f.hash j)
    → total (nodes_of e.hash) max_table_size ≡ total (nodes_of f.hash) max_table_size
total-view {e} {f} valid_e valid_f same =
    total-alike (nodes_of e.hash) (nodes_of f.hash)
      (λ i.
        length-alike (chain_of (nodes_of e.hash i)) (chain_of (nodes_of f.hash i))
          (valid_e.distinct i) (valid_f.distinct i) (chains i))
      max_table_size
  where
    chains :
        (i : ℕ) (j : Bytes)
        → find j (chain_of (nodes_of e.hash i)) ≡ find j (chain_of (nodes_of f.hash i))
    chains i j = elim (index-or (hash_of j max_table_size) i) [
      | inl at_ ↦ sym (view-chain e i j at_) ∙ same j ∙ view-chain f i j at_
      | inr away ↦
          find-home j i (chain_of (nodes_of e.hash i)) (valid_e.home i) away
          ∙ sym (find-home j i (chain_of (nodes_of f.hash i)) (valid_f.home i) away)
    ]

-- A property of every pair of the map holds of every node.
All-found :
    (P : Node → Type 0) (i : ℕ) (ns : List Node)
    → All (HasHome i) ns
    → Distinct ns
    → ((k v : Bytes)
        → hash_of k max_table_size ≡ pos i
        → find k ns ≡ some v
        → P (record { key = k; value = v }))
    → All P ns
All-found P i [] home d h = tt
All-found P i (n ∷ ns) home d h = (
  h n.key n.value home.0 (find-head n ns),
  All-found P i ns home.1 d.1 λ k v at_ e. h k v at_ (found k v e),
)
  where
    found : (k v : Bytes) → find k ns ≡ some v → find k (n ∷ ns) ≡ some v
    found k v e = ground (arith, find-tail n ns k d, e)

-- Whatever is shown of every pair of the map holds of every node of a valid table.
pub All-view :
    (P : Node → Type 0) {e : Engine}
    → IsValid e
    → ((k v : Bytes) → view e.hash k ≡ some v → P (record { key = k; value = v }))
    → (i : ℕ) → All P (chain_of (nodes_of e.hash i))
All-view P {e} valid h i =
    All-found P i (chain_of (nodes_of e.hash i)) (valid.home i) (valid.distinct i)
      (λ k v at_ found. h k v (view-chain e i k at_ ∙ found))
