-- ===== src/Tests/Files.antt =====
-- The file of the store, and the end of a process.
use kvstore_epoll.Prelude.{◌+◌, ◌≡◌, refl, ap, none, [], ◌∷◌, codes, true, arith, pos, Returns}
use kvstore_epoll.Memory.{kvstore_malloc}
use kvstore_epoll.Hash.Chain.{Node, find}
use kvstore_epoll.Hash.Table.{Engine, init_hashtable, max_table_size, update}
use kvstore_epoll.Hash.Ops.{dest_hashtable}
use kvstore_epoll.Hash.View.{IsValid, nodes_of, total}
use kvstore_epoll.Hash.Write.{written, written-IsValid, total-written}
use kvstore_epoll.Hash.Destroy.{dest-leaks}
use kvstore_epoll.Hash.Disk.{Disk, load_lines}
use kvstore_epoll.Hash.Disk.Lines.{load_lines-fuel}
use kvstore_epoll.Hash.Disk.Loaded.{IsStorable}
use kvstore_epoll.Hash.Disk.RoundTrip.{AllStorable}
use kvstore_epoll.Tests.Sample.{start_heap, empty, empty-IsValid, a-IsIndexed}

abbrev node_a : Node
node_a = record { key = codes "a"; value = codes "1" }

-- The table with one pair.
abbrev pub one_pair : Engine
one_pair =
    written empty (codes "a") (node_a ∷ []) (pos 1) (record start_heap { calls = 4; allocated = 4 })

total-one_pair : total (nodes_of one_pair.hash) max_table_size ≡ 1
unfolding init_hashtable kvstore_malloc
total-one_pair = omega (arith, total-written empty (codes "a") (node_a ∷ []), empty-IsValid.blocks)

pub one_pair-IsValid : IsValid one_pair
unfolding find
one_pair-IsValid =
    written-IsValid empty (codes "a") (node_a ∷ []) (pos 1) _ empty-IsValid (refl, tt)
      (a-IsIndexed, tt) (ap pos (omega (arith, total-one_pair))) (omega (arith, total-one_pair))

pub one_pair-AllStorable : AllStorable one_pair
unfolding update init_hashtable kvstore_malloc
one_pair-AllStorable i = ground (arith, storable)
  where
    storable : IsStorable node_a
    storable = omega arith

abbrev pub disk : Disk
disk = record { file = none; writable = true; readable = true }

load_lines-fuel_example : load_lines 4 (codes "a:1") empty ≡ load_lines 3 (codes "a:1") empty
load_lines-fuel_example = load_lines-fuel 4 3 (codes "a:1") empty (omega arith) (omega arith)

dest-leaks_example : Returns (dest_hashtable one_pair) (λ h. h.allocated ≡ h.freed + 2)
dest-leaks_example = dest-leaks one_pair-IsValid
