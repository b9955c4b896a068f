-- ===== src/ConnPool/Blocks.antt =====
-- utils/memory.h, class Conn_pool. The pool is one block of `total_blocks * block_size` bytes; the
-- k-th block begins at `k * block_size`. A pointer of the free list is the number of a block, or the
-- address of a variable on the stack. `object_size` is `sizeof(ConnectionInfo)`.
use kvstore_epoll.Prelude.{
  ℕ, ◌+◌, ◌-◌, ◌*◌, Option, none, some, List, [], ◌∷◌, Bool, ◌&&◌, if◌then◌else◌, ltb, leb, ◌==◌,
  Run, ok, fault, wild_pointer, null_pointer,
}

-- A `conn_block *`
pub data Block : Type 0 where
  null : Block
  at_ : ℕ → Block
  stack : Block

-- The free list's head and the `next` pointers that stand in the blocks, and the map from
-- descriptors to objects.
pub record Pool : Type 0 where
  pub total_blocks : ℕ
  pub block_size : ℕ
  pub free_list : Block
  pub next : ℕ → Block
  pub table : List (ℕ × Block)

-- The constructor's loop links each block to the next one. `granted` is whether `malloc` gave the
-- memory.
unfoldable pub conn_pool : ℕ → ℕ → Bool → Pool
conn_pool total_blocks block_size granted = record {
  total_blocks = total_blocks;
  block_size = block_size;
  free_list = if granted then at_ 0 else null;
  next = λ k. if ltb k (total_blocks - 1) then at_ (k + 1) else null;
  table = [];
}

-- `new (block->data) ConnectionInfo()` sets the bytes of the object to zero first. The `next`
-- pointer of block `j` is at its start; it is cleared if it lies in the object of block `k`.
unfoldable pub construct : ℕ → ℕ → ℕ → (ℕ → Block) → ℕ → Block
construct object_size block_size k next j =
    if leb (k * block_size) (j * block_size) && ltb (j * block_size) (k * block_size + object_size)
    then null
    else next j

-- `acquire`: the object that is returned, or null.
unfoldable pub acquire : ℕ → Pool → Run (Block × Pool)
acquire object_size p = elim p.free_list [
  | null ↦ ok (null, p)
  | stack ↦ fault wild_pointer
  | at_ k ↦
      ok (
        at_ k,
        record p { free_list = p.next k; next = construct object_size p.block_size k p.next },
      )
]

unfoldable pub find_conn : ℕ → List (ℕ × Block) → Option Block
find_conn id [] = none
find_conn id ((i, b) ∷ rest) = if i == id then some b else find_conn id rest

-- `add_map`: `insert` keeps an entry that is there. The fields of the object are those of
-- `ConnectionInfo`.
unfoldable pub add_map : ℕ → Block → Pool → Pool
add_map id info p = elim (find_conn id p.table) [
  | some old ↦ p
  | none ↦ record p { table = (id, info) ∷ p.table }
]

-- `get` follows the iterator that `find` returns, also the one behind the end.
unfoldable pub get : ℕ → Pool → Run Block
get id p = elim (find_conn id p.table) [ none ↦ fault wild_pointer | some info ↦ ok info ]

-- `Release`: the block that goes on the free list is `&info`, the address of the parameter itself,
-- and `block->next` is written there.
unfoldable pub release : Block → Pool → Run Pool
release null p = fault null_pointer
release (at_ k) p = ok (record p { free_list = stack })
release stack p = fault wild_pointer
