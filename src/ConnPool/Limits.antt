-- ===== src/ConnPool/Limits.antt =====
-- What the pool serves, with objects that are larger than its blocks.
use kvstore_epoll.Prelude.{
  ℕ, ◌+◌, ◌*◌, ◌≤◌, ◌<◌, ◌≡◌, refl, some, true, ok, fault, wild_pointer, arith,
}
use kvstore_epoll.ConnPool.Blocks.{
  Block, null, at_, stack, Pool, conn_pool, construct, acquire, find_conn, add_map, get, release,
}

-- The objects in two places share a byte.
abbrev pub Overlap : ℕ → ℕ → ℕ → ℕ → Type 0
Overlap object_size block_size j k =
    (j * block_size < k * block_size + object_size)
    × (k * block_size < j * block_size + object_size)

-- With objects larger than the blocks, an object clears the `next` pointer of the block behind it: a
-- pool of at least three blocks hands out its first two blocks, whose objects share bytes, and then
-- nothing.
pub two_objects :
    (total_blocks block_size object_size : ℕ)
    → 3 ≤ total_blocks
    → 0 < block_size
    → block_size < object_size
    → let serve = acquire object_size in
      (p : Pool) × (q : Pool) × (serve (conn_pool total_blocks block_size true) ≡ ok (at_ 0, p))
      × (serve p ≡ ok (at_ 1, q))
      × (serve q ≡ ok (null, q))
      × Overlap object_size block_size 0 1
unfolding acquire conn_pool construct
two_objects total_blocks block_size object_size many big large =
    let start = conn_pool total_blocks block_size true in
    let p = record start {
      free_list = at_ 1;
      next = construct object_size block_size 0 start.next;
    } in
    let q = record p { free_list = null; next = construct object_size block_size 1 p.next } in
    (p, q, ground arith, ground arith, refl, (omega arith, omega arith))

-- After any `Release` that returns, the next `acquire` builds its object at the address of a dead
-- variable, which `Release` made the head of the free list.
pub acquire-release :
    (object_size : ℕ) (info : Block) (p q : Pool)
    → release info p ≡ ok q
    → acquire object_size q ≡ fault wild_pointer
unfolding acquire release
acquire-release object_size null p q h = cc
acquire-release object_size (at_ k) p q h = ground arith
acquire-release object_size stack p q h = cc

table-release : (info : Block) (p q : Pool) → release info p ≡ ok q → q.table ≡ p.table
unfolding release
table-release null p q h = cc
table-release (at_ k) p q h = ground arith
table-release stack p q h = cc

-- `Release` leaves the entry in the map, and `add_map` does not replace one: when the descriptor of a
-- released object is used again, with another object, `get` still returns the released one.
pub get_stale :
    (id : ℕ) (old new : Block) (p q : Pool)
    → find_conn id p.table ≡ some old
    → release old p ≡ ok q
    → get id (add_map id new q) ≡ ok old
unfolding get add_map
get_stale id old new p q known h =
    let e : find_conn id q.table ≡ some old = rw (table-release old p q h) known in
    rw (add_map, e, get, e)
