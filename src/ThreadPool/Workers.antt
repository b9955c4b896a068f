-- ===== src/ThreadPool/Workers.antt =====
-- utils/threads_pool.h and threads_pool.cpp again, with what ThreadPool/Steps leaves out: which workers
-- sleep in `wait`, the notifications, which come after the lock is given back, and the futures.
use kvstore_epoll.Prelude.{
  ℕ, suc, ◌+◌, ◌≡◌, List, [], ◌∷◌, ◌++◌, Bool, true, false, if◌then◌else◌, ◌==◌, length, Option,
  none, some, occurs, refl, Bool-cases, inl, inr, subst, sym, ap,
}
use kvstore_epoll.ThreadPool.Steps.{Threads, Event, accepted, rejected, started, silent}

-- `awake` workers stand before the lock or come from `wait`, `asleep` ones are in it; `running` are the
-- tasks that workers call. `notifying` calls of `enqueue` have pushed a task and not yet called
-- `notify_one`; `notifying_all` calls of `shutdown` have set the flag and not yet called `notify_all`.
-- `finished` are the tasks that have been called, whose futures have their results.
pub record Workers : Type 0 where
  pub queue : List ℕ
  pub stop : Bool
  pub notifying : ℕ
  pub notifying_all : ℕ
  pub awake : ℕ
  pub asleep : ℕ
  pub running : List ℕ
  pub finished : List ℕ
  pub returned : ℕ

-- `pthreads(threadCount)`, before the workers have looked at the queue
abbrev pub workers : ℕ → Workers
workers thread_count = record {
  queue = [];
  stop = false;
  notifying = 0;
  notifying_all = 0;
  awake = if thread_count == 0 then 4 else thread_count;
  asleep = 0;
  running = [];
  finished = [];
  returned = 0;
}

-- `enqueue` under the lock, and its `notify_one`, which wakes a sleeping worker if there is one; a
-- worker that finds no task and no flag goes to sleep, takes the first task, or returns; it may wake up
-- by itself; a task that is over, by a result or an exception, makes its future ready; the two parts
-- of `shutdown`.
pub data Move : Workers → Event → Workers → Type 0 where
  push_task :
      (s : Workers) (task : ℕ)
      → s.stop ≡ false
      → Move s
          (accepted task)
          (record s { queue = s.queue ++ (task ∷ []); notifying = suc s.notifying })
  throw : (s : Workers) (task : ℕ) → s.stop ≡ true → Move s (rejected task) s
  notify_one :
      (s : Workers) (n m : ℕ)
      → s.notifying ≡ suc n
      → s.asleep ≡ suc m
      → Move s silent (record s { notifying = n; asleep = m; awake = suc s.awake })
  notify_none :
      (s : Workers) (n : ℕ)
      → s.notifying ≡ suc n
      → s.asleep ≡ 0
      → Move s silent (record s { notifying = n })
  take_task :
      (s : Workers) (task : ℕ) (tasks : List ℕ) (n : ℕ)
      → s.queue ≡ task ∷ tasks
      → s.awake ≡ suc n
      → Move s (started task) (record s { queue = tasks; awake = n; running = task ∷ s.running })
  fall_asleep :
      (s : Workers) (n : ℕ)
      → s.stop ≡ false
      → s.queue ≡ []
      → s.awake ≡ suc n
      → Move s silent (record s { awake = n; asleep = suc s.asleep })
  wake_up :
      (s : Workers) (n : ℕ)
      → s.asleep ≡ suc n
      → Move s silent (record s { asleep = n; awake = suc s.awake })
  leave :
      (s : Workers) (n : ℕ)
      → s.stop ≡ true
      → s.queue ≡ []
      → s.awake ≡ suc n
      → Move s silent (record s { awake = n; returned = suc s.returned })
  come_back :
      (s : Workers) (before after : List ℕ) (task : ℕ)
      → s.running ≡ before ++ (task ∷ after)
      → Move s silent (record s {
        running = before ++ after;
        finished = task ∷ s.finished;
        awake = suc s.awake;
      })
  set_stop :
      (s : Workers) → Move s silent (record s { stop = true; notifying_all = suc s.notifying_all })
  notify_all :
      (s : Workers) (n : ℕ)
      → s.notifying_all ≡ suc n
      → Move s silent (record s { notifying_all = n; asleep = 0; awake = s.awake + s.asleep })

pub data Moves : Workers → List Event → Workers → Type 0 where
  done : {s : Workers} → Moves s [] s
  more :
      {s t u : Workers} {e : Event} {es : List Event}
      → Move s e t
      → Moves t es u
      → Moves s (e ∷ es) u

-- `~pthreads`, up to the joining of the threads: `shutdown` where the flag is not set yet.
unfoldable pub end_pthreads : Workers → Workers
end_pthreads s = if s.stop then s else record s { stop = true; notifying_all = suc s.notifying_all }

-- The state of a future, where the callable gives `outcome task`: a value, or none for an exception.
-- `none` is a future that is not ready.
abbrev pub future : (ℕ → Option ℕ) → ℕ → Workers → Option (Option ℕ)
future outcome task s = if occurs task s.finished == 0 then none else some (outcome task)

-- `waitAll`, on the sizes of the queue that it sees one after another: whether it is over.
unfoldable pub wait_all : List ℕ → Bool
wait_all [] = false
wait_all (size ∷ sizes) = let rest = wait_all sizes in if size == 0 then true else rest

-- What ThreadPool/Steps sees of the workers.
abbrev pub seen : Workers → Threads
seen s = record {
  queue = s.queue;
  stop = s.stop;
  waiting = s.awake + s.asleep;
  busy = length s.running;
  returned = s.returned;
}

-- The destructor makes the moves of `shutdown` or none, and the flag is set behind it.
pub end_pthreads-Moves :
    (s : Workers) → (es : List Event) × Moves s es (end_pthreads s) × ((end_pthreads s).stop ≡ true)
unfolding end_pthreads
end_pthreads-Moves s =
    let stopped = record s { stop = true; notifying_all = suc s.notifying_all } in
    let Ends : Workers → Type 0 = λ t. (es : List Event) × Moves s es t × (t.stop ≡ true) in
    let after : Bool → Workers = λ b. if b then s else stopped in
    elim (Bool-cases s.stop) [
      | inl set ↦ subst Ends (sym (ap after set)) ([], done, set)
      | inr unset ↦ subst Ends (sym (ap after unset)) (silent ∷ [], more (set_stop s) done, refl)
    ]
