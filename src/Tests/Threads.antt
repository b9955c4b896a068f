-- ===== src/Tests/Threads.antt =====
-- A run of the thread pool.
use kvstore_epoll.Prelude.{
  ◌⊎◌, ◌≤◌, ◌≢◌, length, false, occurs, some, none, arith, ◌+◌, ◌≡◌, refl, List, [], ◌∷◌, true,
}
use kvstore_epoll.ThreadPool.Steps.{
  Threads, pthreads, Event, accepted, rejected, started, silent, enqueue, throw, take_task,
  come_back, leave, shutdown, Runs, done, more, accepted_of, started_of,
}
use kvstore_epoll.ThreadPool.Order.{joined-started}
use kvstore_epoll.ThreadPool.Workers
use kvstore_epoll.ThreadPool.Workers.{Workers, Moves, workers, seen, future}
use kvstore_epoll.ThreadPool.Wakeups.{workers-awake}
use kvstore_epoll.ThreadPool.Simulates.{Moves-Runs}
use kvstore_epoll.ThreadPool.Futures.{joined-future}

-- Two tasks are enqueued, the pool is stopped, a third task is refused, and the one thread calls the
-- two and returns.
abbrev day : List Event
day =
    accepted 7
    ∷ started 7
    ∷ accepted 8
    ∷ silent
    ∷ rejected 9
    ∷ silent
    ∷ started 8
    ∷ silent
    ∷ silent
    ∷ []

abbrev over : Threads
over = record { queue = []; stop = true; waiting = 0; busy = 0; returned = 1 }

day-Runs : Runs (pthreads 1) day over
day-Runs = more (enqueue _ 7 refl) (
    more (take_task _ 7 [] 0 refl refl) (
      more (enqueue _ 8 refl) (
        more (shutdown _) (
          more (throw _ 9 refl) (
            more (come_back _ 0 refl) (
              more (take_task _ 8 [] 0 refl refl)
                (more (come_back _ 0 refl) (more (leave _ 0 refl refl refl) done))))))))

joined-started_example : (accepted_of day ≡ started_of day) × (over.stop ≡ true)
joined-started_example = joined-started 1 day-Runs refl

-- One worker goes to sleep, is woken for a task, and returns when the pool is stopped.
abbrev slept : Workers
slept = record {
  queue = [];
  stop = true;
  notifying = 0;
  notifying_all = 0;
  awake = 0;
  asleep = 0;
  running = [];
  finished = 7 ∷ [];
  returned = 1;
}

abbrev night : List Event
night = silent ∷ accepted 7 ∷ silent ∷ started 7 ∷ silent ∷ silent ∷ silent ∷ silent ∷ []

night-Moves : Moves (workers 1) night slept
night-Moves = Workers.more (Workers.fall_asleep _ 0 refl refl refl) (
    Workers.more (Workers.push_task _ 7 refl) (
      Workers.more (Workers.notify_one _ 0 0 refl refl) (
        Workers.more (Workers.take_task _ 7 [] 0 refl refl) (
          Workers.more (Workers.come_back _ [] [] 7 refl) (
            Workers.more (Workers.set_stop _) (
              Workers.more (Workers.notify_all _ 0 refl)
                (Workers.more (Workers.leave _ 0 refl refl refl) Workers.done)))))))

workers-awake_example :
    ((slept.asleep ≡ 0) ⊎ (length slept.queue ≤ slept.awake + slept.notifying))
    × ((slept.queue ≡ []) ⊎ (slept.awake + slept.notifying + length slept.running ≢ 0))
    × ((slept.stop ≡ false) ⊎ (slept.notifying_all ≢ 0) ⊎ (slept.asleep ≡ 0))
workers-awake_example = workers-awake 1 night-Moves

Moves-Runs_example :
    (es' : List Event) × Runs (seen (workers 1)) es' (seen slept)
    × (accepted_of es' ≡ accepted_of night)
    × (started_of es' ≡ started_of night)
Moves-Runs_example = Moves-Runs night-Moves

taken : occurs 7 (accepted_of night) ≢ 0
unfolding accepted_of
taken e = omega (arith, e)

joined-future_example : future (λ task. none) 7 slept ≡ some none
joined-future_example = joined-future 1 (λ task. none) 7 night-Moves refl taken
