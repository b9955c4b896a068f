-- ===== src/ThreadPool/Steps.antt =====
-- utils/threads_pool.h and threads_pool.cpp, class pthreads. What a thread does while it holds
-- `_queue_mutex` is one step. A task is named by a number; the threads are counted by where they stand:
-- before the lock or in `wait`, in a task, or behind `return`.
use kvstore_epoll.Prelude.{
  ℕ, suc, ◌≡◌, List, [], ◌∷◌, ◌++◌, Bool, true, false, if◌then◌else◌, ◌==◌, length, not,
}

pub record Threads : Type 0 where
  pub queue : List ℕ
  pub stop : Bool
  pub waiting : ℕ
  pub busy : ℕ
  pub returned : ℕ

-- `pthreads(threadCount)`: no threads asked for make four.
abbrev pub pthreads : ℕ → Threads
pthreads thread_count = record {
  queue = [];
  stop = false;
  waiting = if thread_count == 0 then 4 else thread_count;
  busy = 0;
  returned = 0;
}

-- `pendingTasks`
abbrev pub pending_tasks : Threads → ℕ
pending_tasks s = length s.queue

-- `isRunning`
abbrev pub is_running : Threads → Bool
is_running s = not s.stop

-- What a step does with a task.
pub data Event : Type 0 where
  accepted rejected started : ℕ → Event
  silent : Event

-- `enqueue` puts a task at the end of the queue, or throws. A worker takes the first task, comes back
-- from one, or returns where the pool is stopped and the queue is empty. `shutdown` sets the flag.
pub data Step : Threads → Event → Threads → Type 0 where
  enqueue :
      (s : Threads) (task : ℕ)
      → s.stop ≡ false
      → Step s (accepted task) (record s { queue = s.queue ++ (task ∷ []) })
  throw : (s : Threads) (task : ℕ) → s.stop ≡ true → Step s (rejected task) s
  take_task :
      (s : Threads) (task : ℕ) (tasks : List ℕ) (n : ℕ)
      → s.queue ≡ task ∷ tasks
      → s.waiting ≡ suc n
      → Step s (started task) (record s { queue = tasks; waiting = n; busy = suc s.busy })
  come_back :
      (s : Threads) (n : ℕ)
      → s.busy ≡ suc n
      → Step s silent (record s { busy = n; waiting = suc s.waiting })
  leave :
      (s : Threads) (n : ℕ)
      → s.stop ≡ true
      → s.queue ≡ []
      → s.waiting ≡ suc n
      → Step s silent (record s { waiting = n; returned = suc s.returned })
  shutdown : (s : Threads) → Step s silent (record s { stop = true })

-- The steps of all threads in the order in which they take the lock.
pub data Runs : Threads → List Event → Threads → Type 0 where
  done : {s : Threads} → Runs s [] s
  more :
      {s t u : Threads} {e : Event} {es : List Event} → Step s e t → Runs t es u → Runs s (e ∷ es) u

-- The tasks that `enqueue` took.
unfoldable pub accepted_of : List Event → List ℕ
accepted_of [] = []
accepted_of (accepted task ∷ es) = task ∷ accepted_of es
accepted_of (rejected task ∷ es) = accepted_of es
accepted_of (started task ∷ es) = accepted_of es
accepted_of (silent ∷ es) = accepted_of es

-- The tasks that a worker called.
unfoldable pub started_of : List Event → List ℕ
started_of [] = []
started_of (accepted task ∷ es) = started_of es
started_of (rejected task ∷ es) = started_of es
started_of (started task ∷ es) = task ∷ started_of es
started_of (silent ∷ es) = started_of es
