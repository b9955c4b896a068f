-- ===== src/Hash/Delete.antt =====
-- `delete_kv_hashtable` against a map.
use kvstore_epoll.Prelude.{
  ℕ, suc, ◌+◌, ◌≡◌, refl, none, some, List, [], ◌∷◌, Bytes, All, arith, ℤ, pos, negsuc, strcmp_eq,
  strcmp_eq_iff, if◌then◌else◌, ok, ◌>>=◌, inl, inr, Option-cases, Returns, pos-suc--ℤ, ◌-ℤ◌,
  Bool-cases,
}
use kvstore_epoll.Memory.{to, kvstore_free}
use kvstore_epoll.Hash.Chain.{
  Node, find, without, unlink_after-without, length-without, without-Distinct, find-without,
}
use kvstore_epoll.Hash.Table.{Engine, max_table_size}
use kvstore_epoll.Hash.Ops.{drop_node, delete_from, delete_kv_hashtable}
use kvstore_epoll.Hash.Index.{slot, IsIndexed}
use kvstore_epoll.Hash.View.{nodes_of, chain_at, view, total, HasHome, IsValid, read_bucket-valid}
use kvstore_epoll.Hash.Write.{
  written, written_nodes, write_bucket-valid, view-written, written-IsValid, total-written,
}

-- What `delete_kv_hashtable` has done when it returns `r`.
pub record Deletes (e : Engine) (key : Bytes) (r : ℤ × Engine) : Type 0 where
  pub valid : IsValid r.1
  pub code : r.0 ≡ elim (view e.hash key) [ some old ↦ pos 0 | none ↦ negsuc 0 ]
  pub map : (j : Bytes) → view r.1.hash j ≡ (if strcmp_eq key j then none else view e.hash j)
  pub count :
      r.1.hash.count
      ≡ elim (view e.hash key) [ some old ↦ e.hash.count -ℤ pos 1 | none ↦ e.hash.count ]
  pub freed :
      r.1.heap.freed ≡ elim (view e.hash key) [ some old ↦ e.heap.freed + 3 | none ↦ e.heap.freed ]
  pub grants : r.1.heap.grants ≡ e.heap.grants

without-HasHome :
    (i : ℕ) (key : Bytes) (ns : List Node) → All (HasHome i) ns → All (HasHome i) (without key ns)
unfolding without
without-HasHome i key [] h = tt
without-HasHome i key (n ∷ ns) h = ground (arith, without-HasHome i key ns h.1)

-- The search from the head on is one search of the chain.
delete_from-find :
    (key : Bytes) (idx : ℤ) (ns : List Node) (e : Engine)
    → delete_from key idx ns e
      ≡ elim (find key ns) [ some old ↦ drop_node idx (without key ns) e | none ↦ ok (negsuc 0, e) ]
unfolding delete_from find without
delete_from-find key idx [] e = refl
delete_from-find key idx (head ∷ ns) e = elim (Bool-cases (strcmp_eq head.key key)) [
  | inl same ↦ ground arith
  | inr other ↦ rw (other, unlink_after-without key head ns) (ground arith)
]

module _ {e : Engine} (valid : IsValid e) (key : Bytes) (indexed : IsIndexed key) where
  removed : Engine
  removed =
      written e key (without key (chain_at e.hash key)) (e.hash.count -ℤ pos 1)
        (kvstore_free (kvstore_free (kvstore_free e.heap)))

  delete-found :
      (old : Bytes)
      → view e.hash key ≡ some old
      → delete_kv_hashtable (to key) e ≡ ok (pos 0, removed)
  unfolding delete_kv_hashtable view removed drop_node
  delete-found old h = rw (
    read_bucket-valid valid key indexed,
    ◌>>=◌,
    delete_from-find,
    h,
    drop_node,
    write_bucket-valid e key (without key (chain_at e.hash key)) valid indexed,
  )

  delete-missing : view e.hash key ≡ none → delete_kv_hashtable (to key) e ≡ ok (negsuc 0, e)
  unfolding delete_kv_hashtable view
  delete-missing h = rw (read_bucket-valid valid key indexed, ◌>>=◌, delete_from-find, h)

  removed-IsValid : (old : Bytes) → view e.hash key ≡ some old → IsValid removed
  unfolding removed view kvstore_free
  removed-IsValid old h =
      let ns = chain_at e.hash key in
      let shrinks = total-written e key (without key ns) in
      let shorter = length-without key ns old h in
      let t = total (written_nodes e key (without key ns)) max_table_size in
      let step : total (nodes_of e.hash) max_table_size ≡ suc t = omega arith in
      written-IsValid e key _ _ _ valid (without-Distinct key ns (valid.distinct (slot key)))
        (without-HasHome (slot key) key ns (valid.home (slot key)))
        (rw (valid.counted, step) (pos-suc--ℤ _)) (omega (arith, valid.blocks))

  -- On a valid table, for a key that has an index, `delete_kv_hashtable` returns 0, removes the key,
  -- counts it off and frees its three blocks where the key is there, and else returns -1 and changes
  -- nothing; the table stays valid.
  pub delete-Deletes : Returns (delete_kv_hashtable (to key) e) (Deletes e key)
  unfolding removed kvstore_free
  delete-Deletes = elim (Option-cases (view e.hash key)) [
    | inl h ↦ (
      (negsuc 0, e),
      delete-missing h,
      record {
        valid = valid;
        code = rw h;
        map = λ j. ground (arith, h, strcmp_eq_iff key j);
        count = rw h;
        freed = rw h;
        grants = refl;
      },
    )
    | inr (old, h) ↦ (
      (pos 0, removed),
      delete-found old h,
      record {
        valid = removed-IsValid old h;
        code = rw h;
        map = λ j.
            view-written e key _ (e.hash.count -ℤ pos 1) removed.heap j none
              (find-without key j (chain_at e.hash key) (valid.distinct (slot key)));
        count = rw h;
        freed = rw h (omega arith);
        grants = refl;
      },
    )
  ]
