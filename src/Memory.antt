-- ===== src/Memory.antt =====
-- kv_core/kvstore.cpp, `kvstore_malloc` and `kvstore_free`, and the C pointers that they return.
-- The allocator of the C library is the environment: `grants` answers the n-th call for a size,
-- and `cleared` says which pointers of a fresh block read as null. Blocks are counted, so that a
-- leak can be stated.
use kvstore_epoll.Prelude.{
  ℕ, ◌+◌, ◌≡◌, Bool, true, Run, ok, fault, null_pointer, wild_pointer, Bytes, if◌then◌else◌,
}

pub record Heap : Type 0 where
  pub grants : ℕ → ℕ → Bool
  pub cleared : ℕ → ℕ → Bool
  pub calls : ℕ
  pub allocated : ℕ
  pub freed : ℕ

-- A `char *`: null, a string, or an address that nothing has set.
pub data Ptr : Type 0 where
  null : Ptr
  to : Bytes → Ptr
  wild : Ptr

-- Reads the string behind a pointer.
unfoldable pub load_string : Ptr → Run Bytes
load_string null = fault null_pointer
load_string (to s) = ok s
load_string wild = fault wild_pointer

unfoldable pub kvstore_malloc : ℕ → Heap → Bool × Heap
kvstore_malloc size h =
    let granted = h.grants h.calls size in
    (
      granted,
      record h {
        calls = h.calls + 1;
        allocated = if granted then h.allocated + 1 else h.allocated;
      },
    )

unfoldable pub kvstore_free : Heap → Heap
kvstore_free h = record h { freed = h.freed + 1 }

-- The environment has memory for every request.
abbrev pub NeverFails : Heap → Type 0
NeverFails h = (call size : ℕ) → h.grants call size ≡ true
