-- ===== src/Tests/Sample.antt =====
-- A store with one pair, built by the operations of the engine.
use kvstore_epoll.Prelude.{◌≡◌, refl, none, Bytes, codes, true, arith, pos}
use kvstore_epoll.Memory.{Heap, NeverFails}
use kvstore_epoll.Hash.Table.{Engine, init_hashtable}
use kvstore_epoll.Hash.Index.{IsIndexed, ascii-IsIndexed}
use kvstore_epoll.Hash.View.{IsValid, view}
use kvstore_epoll.Hash.Destroy.{init-IsValid, init-memory}
use kvstore_epoll.Hash.Put.{put-Puts}
use kvstore_epoll.Kvstore.Restart.{IsStart}

-- Memory for every request, and fresh memory that reads as null.
abbrev pub start_heap : Heap
start_heap = record {
  grants = λ call size. true;
  cleared = λ call slot. true;
  calls = 0;
  allocated = 0;
  freed = 0;
}

-- The global `Hash` before `main`.
abbrev pub start : Engine
start = record { hash = record { nodes = none; max_slots = 0; count = pos 0 }; heap = start_heap }

pub start-IsStart : IsStart start
start-IsStart = record { memory = λ c s. refl; cleared = λ i h. refl; balanced = refl }

abbrev pub empty : Engine
empty = (init_hashtable start).1

pub empty-IsValid : IsValid empty
empty-IsValid = (init-IsValid start refl (λ i h. refl) refl).1

pub empty-view : (key : Bytes) → view empty.hash key ≡ none
empty-view = (init-IsValid start refl (λ i h. refl) refl).2

pub empty-memory : NeverFails empty.heap
empty-memory = init-memory start (λ c s. refl)

pub a-IsIndexed : IsIndexed (codes "a")
a-IsIndexed = (ascii-IsIndexed (codes "a") (omega arith)).0

-- The engine after `put("a", "1")`.
abbrev pub sample : Engine
sample = (put-Puts empty-IsValid (codes "a") a-IsIndexed (codes "1") empty-memory).0.1

pub sample-IsValid : IsValid sample
sample-IsValid = (put-Puts empty-IsValid (codes "a") a-IsIndexed (codes "1") empty-memory).2.valid

pub sample-memory : NeverFails sample.heap
sample-memory = (put-Puts empty-IsValid (codes "a") a-IsIndexed (codes "1") empty-memory).2.memory
