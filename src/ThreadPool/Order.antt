-- ===== src/ThreadPool/Order.antt =====
-- Which tasks are called, and in which order.
use kvstore_epoll.Prelude.{
  ℕ, ◌+◌, ◌≡◌, ◌≢◌, refl, ap, sym, ◌∙◌, List, [], ◌∷◌, ◌++◌, true, if◌then◌else◌, ◌==◌, arith,
  append_assoc, append-nil,
}
use kvstore_epoll.ThreadPool.Steps.{
  Threads, pthreads, Event, Step, enqueue, throw, take_task, come_back, leave, shutdown, Runs, done,
  more, accepted_of, started_of,
}

-- The tasks that stand in the queue, and then those that are accepted, are called in that order,
-- each once; those not yet called stand in the queue at the end.
pub Runs-order :
    {s u : Threads} {es : List Event}
    → Runs s es u
    → s.queue ++ accepted_of es ≡ started_of es ++ u.queue
unfolding accepted_of started_of
Runs-order (done {s}) = append-nil s.queue
Runs-order (more {es = es} (enqueue s task running) rest) =
    sym (append_assoc s.queue (task ∷ []) (accepted_of es)) ∙ Runs-order rest
Runs-order (more (throw s task over) rest) = Runs-order rest
Runs-order (more {es = es} (take_task s task tasks n first free) rest) =
    ap (λ q. q ++ accepted_of es) first ∙ ap (λ ts. task ∷ ts) (Runs-order rest)
Runs-order (more (come_back s n e) rest) = Runs-order rest
Runs-order (more (leave s n over empty e) rest) = Runs-order rest
Runs-order (more (shutdown s) rest) = Runs-order rest

-- Every thread is somewhere, and none has returned before the pool was stopped and its queue empty.
pub record IsPool (size : ℕ) (s : Threads) : Type 0 where
  pub counted : s.waiting + s.busy + s.returned ≡ size
  pub finished : s.returned ≢ 0 → (s.stop ≡ true) × (s.queue ≡ [])

Step-IsPool : {size : ℕ} {s t : Threads} {e : Event} → Step s e t → IsPool size s → IsPool size t
Step-IsPool (enqueue s task running) p = record {
  counted = p.counted;
  finished = λ some_back. absurd (cc (running, (p.finished some_back).0));
}
Step-IsPool (throw s task over) p = p
Step-IsPool (take_task s task tasks n first free) p = record {
  counted = omega (arith, p.counted, free);
  finished = λ some_back. absurd (cc (first, (p.finished some_back).1));
}
Step-IsPool (come_back s n e) p = record {
  counted = omega (arith, p.counted, e);
  finished = p.finished;
}
Step-IsPool (leave s n over empty e) p = record {
  counted = omega (arith, p.counted, e);
  finished = λ some_back. (over, empty);
}
Step-IsPool (shutdown s) p = record {
  counted = p.counted;
  finished = λ some_back. (refl, (p.finished some_back).1);
}

pub Runs-IsPool :
    {size : ℕ} {s u : Threads} {es : List Event} → Runs s es u → IsPool size s → IsPool size u
Runs-IsPool done p = p
Runs-IsPool (more step rest) p = Runs-IsPool rest (Step-IsPool step p)

-- The number of threads of a pool.
abbrev pub pool_size : ℕ → ℕ
pool_size thread_count = if thread_count == 0 then 4 else thread_count

pub pthreads-IsPool : (thread_count : ℕ) → IsPool (pool_size thread_count) (pthreads thread_count)
pthreads-IsPool thread_count = record {
  counted = omega arith;
  finished = λ none_back. absurd (none_back refl);
}

-- Where all threads of a pool are back, it was stopped, and its queue is empty.
pub joined-IsPool :
    (thread_count : ℕ) {u : Threads}
    → IsPool (pool_size thread_count) u
    → u.waiting + u.busy ≡ 0
    → (u.stop ≡ true) × (u.queue ≡ [])
joined-IsPool thread_count pool joined =
    pool.finished (λ none_back. ground (arith, pool.counted, none_back, joined))

-- When all threads of a pool have returned, which is what `shutdown` waits for, every task that
-- `enqueue` accepted has been called, once and in order.
pub joined-started :
    (thread_count : ℕ) {es : List Event} {u : Threads}
    → Runs (pthreads thread_count) es u
    → u.waiting + u.busy ≡ 0
    → (accepted_of es ≡ started_of es) × (u.stop ≡ true)
joined-started thread_count {es} {u} runs joined =
    let (stopped, empty) =
      joined-IsPool thread_count (Runs-IsPool runs (pthreads-IsPool thread_count)) joined in
    (Runs-order runs ∙ ap (λ q. started_of es ++ q) empty ∙ append-nil (started_of es), stopped)
