-- ===== src/ThreadPool/Futures.antt =====
-- Every future becomes ready.
use kvstore_epoll.Prelude.{
  ℕ, ◌+◌, ◌≡◌, ◌≢◌, refl, List, [], ◌∷◌, length, arith, ap, occurs, occurs-append, occurs_mid, some,
  Option,
}
use kvstore_epoll.ThreadPool.Steps.{Event, accepted, rejected, started, silent, accepted_of}
use kvstore_epoll.ThreadPool.Wakeups.{Moves-IsAlert, workers-IsAlert}
use kvstore_epoll.ThreadPool.Workers.{
  Workers, workers, Move, Moves, push_task, throw, notify_one, notify_none, take_task, fall_asleep,
  wake_up, leave, come_back, set_stop, notify_all, done, more, future,
}

-- The number of times that a task was accepted is the number of times that it is somewhere.
abbrev IsKept : Workers → List Event → Workers → Type 0
IsKept s es t =
    (c : ℕ)
    → occurs c (accepted_of es) + (occurs c s.queue + occurs c s.running + occurs c s.finished)
      ≡ occurs c t.queue + occurs c t.running + occurs c t.finished

Move-IsKept : {s t : Workers} {e : Event} → Move s e t → IsKept s (e ∷ []) t
unfolding accepted_of
Move-IsKept (push_task s task running) c = omega (arith, occurs-append c s.queue (task ∷ []))
Move-IsKept (throw s task over) c = omega arith
Move-IsKept (notify_one s n m e f) c = omega arith
Move-IsKept (notify_none s n e f) c = omega arith
Move-IsKept (take_task s task tasks n first free) c = ground (arith, ap (occurs c) first)
Move-IsKept (fall_asleep s n running empty e) c = omega arith
Move-IsKept (wake_up s n e) c = omega arith
Move-IsKept (leave s n over empty e) c = omega arith
Move-IsKept (come_back s before after task e) c =
    ground (arith, ap (occurs c) e, occurs_mid c task before after)
Move-IsKept (set_stop s) c = omega arith
Move-IsKept (notify_all s n e) c = omega arith

accepted-split :
    (c : ℕ) (e : Event) (es : List Event)
    → occurs c (accepted_of (e ∷ es)) ≡ occurs c (accepted_of (e ∷ [])) + occurs c (accepted_of es)
unfolding accepted_of
accepted-split c (accepted task) es = ground arith
accepted-split c (rejected task) es = omega arith
accepted-split c (started task) es = omega arith
accepted-split c silent es = omega arith

Moves-IsKept : {s t : Workers} {es : List Event} → Moves s es t → IsKept s es t
Moves-IsKept done c = unfold accepted_of in omega arith
Moves-IsKept (more {e = e} {es = es} move rest) c =
    omega (arith, Move-IsKept move c, Moves-IsKept rest c, accepted-split c e es)

no_tasks : (xs : List ℕ) → length xs ≡ 0 → xs ≡ []
no_tasks [] h = refl
no_tasks (x ∷ xs) h = absurd (omega arith)

-- When all threads of a pool have returned, which is what `shutdown` waits for, the future of every
-- task that `enqueue` accepted is ready, with the value or the exception of its callable, whatever
-- other tasks have thrown.
pub joined-future :
    (thread_count : ℕ) {es : List Event} {u : Workers} (outcome : ℕ → Option ℕ) (task : ℕ)
    → Moves (workers thread_count) es u
    → u.awake + u.asleep + length u.running ≡ 0
    → occurs task (accepted_of es) ≢ 0
    → future outcome task u ≡ some (outcome task)
joined-future thread_count {es} {u} outcome task moves joined taken =
    let p = Moves-IsAlert moves (workers-IsAlert thread_count) in
    let back : u.returned ≢ 0 = λ z. ground (arith, p.counted, joined, z) in
    let kept = Moves-IsKept moves task in
    let none_queued = ap (occurs task) (p.finished back).1 in
    let none_running = ap (occurs task) (no_tasks u.running (omega (arith, joined))) in
    let ready : occurs task u.finished ≢ 0 =
      omega (arith, kept, none_queued, none_running, taken) in
    ground arith
