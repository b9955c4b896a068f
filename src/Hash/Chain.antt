-- ===== src/Hash/Chain.antt =====
-- kv_core/hash.cpp: one bucket. A chain of `hashnode_t` is owned by its bucket alone, so it is a
-- list of its nodes; the loops over `node->next` are recursions on it.
use mathlib.Core.Option as Opt
use kvstore_epoll.Prelude.{
  ◌+◌, ◌≡◌, refl, Option, none, some, List, [], ◌∷◌, Bytes, strcmp_eq, strcmp_eq_iff, arith, length,
  if◌then◌else◌,
}

-- `hashnode_t` with ENABLE_POINTER_KEY; `next` is the rest of the list.
pub record Node : Type 0 where
  pub key : Bytes
  pub value : Bytes

-- The value of the first node with the key.
unfoldable pub find : Bytes → List Node → Option Bytes
find k [] = none
find k (n ∷ ns) = if strcmp_eq n.key k then some n.value else find k ns

-- `while (cur->next != NULL)`, with `cur` in hand: unlinks the first node behind it with the key.
unfoldable pub unlink_after : Bytes → Node → List Node → Option (List Node)
unlink_after k cur [] = none
unlink_after k cur (n ∷ ns) =
    let rest = Opt.map (λ t. cur ∷ t) (unlink_after k n ns) in
    if strcmp_eq n.key k then some (cur ∷ ns) else rest

-- `node->value = value` at the first node with the key.
unfoldable pub assign : Bytes → Bytes → List Node → List Node
assign k v [] = []
assign k v (n ∷ ns) = if strcmp_eq n.key k then record n { value = v } ∷ ns else n ∷ assign k v ns

-- The chain without the first node that has the key.
unfoldable pub without : Bytes → List Node → List Node
without k [] = []
without k (n ∷ ns) = if strcmp_eq n.key k then ns else n ∷ without k ns

-- No key stands twice.
abbrev pub Distinct : List Node → Type 0
Distinct [] = Unit {0}
Distinct (n ∷ ns) = (find n.key ns ≡ none) × Distinct ns

module _ (k : Bytes) where
  -- The loop of `delete_kv_hashtable` unlinks what `without` leaves out.
  pub unlink_after-without :
      (cur : Node) (ns : List Node)
      → unlink_after k cur ns ≡ Opt.map (λ (_ : Bytes). cur ∷ without k ns) (find k ns)
  unfolding unlink_after find without
  unlink_after-without cur [] = refl
  unlink_after-without cur (n ∷ ns) = ground (arith, unlink_after-without n ns)

  pub length-without :
      (ns : List Node) (v : Bytes) → find k ns ≡ some v → length (without k ns) + 1 ≡ length ns
  unfolding find without
  length-without [] v h = cc
  length-without (n ∷ ns) v h = ground (arith, length-without ns v)

  pub length-assign : (v : Bytes) (ns : List Node) → length (assign k v ns) ≡ length ns
  unfolding assign
  length-assign v [] = refl
  length-assign v (n ∷ ns) = ground (arith, length-assign v ns)

  pub find-assign :
      (j v : Bytes) (ns : List Node) (old : Bytes)
      → find k ns ≡ some old
      → find j (assign k v ns) ≡ (if strcmp_eq k j then some v else find j ns)
  unfolding find assign
  find-assign j v [] old h = cc
  find-assign j v (n ∷ ns) old h = ground (
    arith,
    find-assign j v ns old,
    strcmp_eq_iff n.key k,
    strcmp_eq_iff n.key j,
    strcmp_eq_iff k j,
  )

  pub find-without :
      (j : Bytes) (ns : List Node)
      → Distinct ns
      → find j (without k ns) ≡ (if strcmp_eq k j then none else find j ns)
  unfolding find without
  find-without j [] h = ground arith
  find-without j (n ∷ ns) h =
      ground
        (arith, find-without j ns, strcmp_eq_iff n.key k, strcmp_eq_iff n.key j, strcmp_eq_iff k j)

  pub without-Distinct : (ns : List Node) → Distinct ns → Distinct (without k ns)
  unfolding without
  without-Distinct [] h = tt
  without-Distinct (n ∷ ns) h = ground (arith, without-Distinct ns, find-without n.key ns h.1)

  find-assign-none :
      (j v : Bytes) (ns : List Node) → find j ns ≡ none → find j (assign k v ns) ≡ none
  unfolding find assign
  find-assign-none j v [] h = refl
  find-assign-none j v (n ∷ ns) h = ground (arith, find-assign-none j v ns)

  pub assign-Distinct : (v : Bytes) (ns : List Node) → Distinct ns → Distinct (assign k v ns)
  unfolding assign
  assign-Distinct v [] h = tt
  assign-Distinct v (n ∷ ns) h = ground (arith, assign-Distinct v ns, find-assign-none n.key v ns)
