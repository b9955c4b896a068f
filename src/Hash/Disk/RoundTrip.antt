-- ===== src/Hash/Disk/RoundTrip.antt =====
-- Saving a table and loading the file again, and the pairs for which that fails.
use mathlib.Core.Option.{or_else}
use kvstore_epoll.Prelude.{
  ℕ, ◌≡◌, refl, sym, subst, ◌∙◌, none, some, List, [], ◌∷◌, Bytes, All, arith, length, ok, ◌>>=◌,
  pos, Returns, true,
}
use kvstore_epoll.Memory.{NeverFails}
use kvstore_epoll.Hash.Chain.{Node}
use kvstore_epoll.Hash.Table.{Engine, max_table_size}
use kvstore_epoll.Hash.Index.{IsIndexed}
use kvstore_epoll.Hash.View.{view, IsValid, nodes_of, chain_of, HasHome}
use kvstore_epoll.Hash.Disk.{Disk, print_chain, print_buckets, save_to_disk, load_from_disk}
use kvstore_epoll.Hash.Disk.Saved.{nodes_from, print_buckets-nodes, find-all_nodes, All-nodes_from}
use kvstore_epoll.Hash.Disk.Loaded.{IsStorable, load_lines-pairs, put_all-view}

abbrev pub all_nodes : Engine → List Node
all_nodes e = nodes_from (nodes_of e.hash) 0 max_table_size

abbrev pub AllStorable : Engine → Type 0
AllStorable e = (i : ℕ) → All IsStorable (chain_of (nodes_of e.hash i))

HasHome-IsIndexed : (i : ℕ) (ns : List Node) → All (HasHome i) ns → All (λ n. IsIndexed n.key) ns
HasHome-IsIndexed i [] h = tt
HasHome-IsIndexed i (n ∷ ns) h = (rw h.0, HasHome-IsIndexed i ns h.1)

-- The file that `save_to_disk` writes holds the pairs of all buckets in order.
pub save-file :
    {e : Engine} (d : Disk)
    → IsValid e
    → d.writable ≡ true
    → save_to_disk e d ≡ ok (pos 0, record d { file = some (print_chain (all_nodes e)) })
unfolding save_to_disk
save-file {e} d valid w =
    let text : print_buckets e.hash 0 e.hash.max_slots ≡ ok (print_chain (all_nodes e)) =
      subst (λ n. print_buckets e.hash 0 n ≡ ok (print_chain (all_nodes e))) (sym valid.slots)
        (print_buckets-nodes valid 0 max_table_size (omega arith)) in
    simp (w, text, ◌>>=◌)

-- Where the data file opens for writing and for reading, a valid table of storable pairs that is
-- saved, and then loaded into a valid empty table with memory at hand, gives a valid table that is
-- the same map, with memory still at hand; both calls return 0.
pub load-save :
    {e f : Engine} (d : Disk)
    → IsValid e
    → AllStorable e
    → IsValid f
    → NeverFails f.heap
    → ((key : Bytes) → view f.hash key ≡ none)
    → d.writable ≡ true
    → d.readable ≡ true
    → Returns (save_to_disk e d) λ saved.
      (saved.0 ≡ pos 0)
      × Returns (load_from_disk f saved.1) λ loaded.
        (loaded.0 ≡ pos 0)
        × IsValid loaded.1
        × ((key : Bytes) → view loaded.1.hash key ≡ view e.hash key)
        × NeverFails loaded.1.heap
unfolding load_from_disk view or_else
load-save {e} {f} d valid storable valid_f memory empty w r =
    let indexed =
      All-nodes_from (λ n. IsIndexed n.key) (nodes_of e.hash) 0 max_table_size
        (λ i. HasHome-IsIndexed i (chain_of (nodes_of e.hash i)) (valid.home i)) in
    let pairs =
      load_lines-pairs (all_nodes e) (length (print_chain (all_nodes e))) f
        (All-nodes_from IsStorable (nodes_of e.hash) 0 max_table_size storable) (omega arith) in
    let (g, run, (valid_g, memory_g, map)) = put_all-view (all_nodes e) f valid_f memory indexed in
    (
      (pos 0, record d { file = some (print_chain (all_nodes e)) }),
      save-file d valid w,
      (
        refl,
        (
          (pos 0, g),
          rw (r, pairs, run),
          (
            refl,
            valid_g,
            λ j. map j ∙ rw (empty j) (find-all_nodes (nodes_of e.hash) valid.home j),
            memory_g,
          ),
        ),
      ),
    )
