-- ===== src/ThreadPool/Simulates.antt =====
-- The workers with their sleep against the steps under the lock.
use kvstore_epoll.Prelude.{
  ℕ, suc, ◌+◌, ◌≡◌, ◌⊎◌, inl, inr, refl, List, [], ◌∷◌, ◌++◌, length, arith, ap, subst, ◌∙◌,
  length_mid,
}
use kvstore_epoll.ThreadPool.Steps
use kvstore_epoll.ThreadPool.Steps.{
  Threads, pthreads, Event, accepted, rejected, started, silent, Step, Runs, accepted_of,
  started_of,
}
use kvstore_epoll.ThreadPool.Workers.{
  Workers, Move, Moves, push_task, throw, notify_one, notify_none, take_task, fall_asleep, wake_up,
  leave, come_back, set_stop, notify_all, done, more, seen,
}

-- One move as ThreadPool/Steps sees it: a step, or nothing.
abbrev Simulates : Workers → Event → Workers → Type 0
Simulates s e t = Step (seen s) e (seen t) ⊎ ((seen t ≡ seen s) × (e ≡ silent))

Move-Simulates : {s t : Workers} {e : Event} → Move s e t → Simulates s e t
Move-Simulates (push_task s task running) = inl (Steps.enqueue (seen s) task running)
Move-Simulates (throw s task over) = inl (Steps.throw (seen s) task over)
Move-Simulates (notify_one s n m e f) =
    inr
      ((ap (λ (w : ℕ). let r : Threads = record (seen s) { waiting = w } in r) (omega arith)), refl)
Move-Simulates (notify_none s n e f) = inr (refl, refl)
Move-Simulates (take_task s task tasks n first free) =
    inl (Steps.take_task (seen s) task tasks (n + s.asleep) first (omega arith))
Move-Simulates (fall_asleep s n running empty e) =
    inr
      ((ap (λ (w : ℕ). let r : Threads = record (seen s) { waiting = w } in r) (omega arith)), refl)
Move-Simulates (wake_up s n e) =
    inr
      ((ap (λ (w : ℕ). let r : Threads = record (seen s) { waiting = w } in r) (omega arith)), refl)
Move-Simulates (leave s n over empty e) =
    inl (Steps.leave (seen s) (n + s.asleep) over empty (omega arith))
Move-Simulates (come_back s before after task e) =
    let back : length s.running ≡ suc (length (before ++ after)) =
      ap length e ∙ length_mid task before after in
    inl (
      subst
        (λ (w : ℕ).
          Step (seen s) silent (record (seen s) { busy = length (before ++ after); waiting = w }))
        (omega arith) (Steps.come_back (seen s) (length (before ++ after)) back))
Move-Simulates (set_stop s) = inl (Steps.shutdown (seen s))
Move-Simulates (notify_all s n e) =
    inr
      ((ap (λ (w : ℕ). let r : Threads = record (seen s) { waiting = w } in r) (omega arith)), refl)

accepted-cons :
    (e : Event) (es es' : List Event)
    → accepted_of es' ≡ accepted_of es
    → accepted_of (e ∷ es') ≡ accepted_of (e ∷ es)
unfolding accepted_of
accepted-cons (accepted task) es es' h = ap (λ ts. task ∷ ts) h
accepted-cons (rejected task) es es' h = h
accepted-cons (started task) es es' h = h
accepted-cons silent es es' h = h

started-cons :
    (e : Event) (es es' : List Event)
    → started_of es' ≡ started_of es
    → started_of (e ∷ es') ≡ started_of (e ∷ es)
unfolding started_of
started-cons (accepted task) es es' h = h
started-cons (rejected task) es es' h = h
started-cons (started task) es es' h = ap (λ ts. task ∷ ts) h
started-cons silent es es' h = h

accepted-silent : (e : Event) (es : List Event) → e ≡ silent → accepted_of es ≡ accepted_of (e ∷ es)
unfolding accepted_of
accepted-silent e es quiet = rw quiet refl

started-silent : (e : Event) (es : List Event) → e ≡ silent → started_of es ≡ started_of (e ∷ es)
unfolding started_of
started-silent e es quiet = rw quiet refl

-- What the workers do, with sleep, notifications and spurious wake-ups, is a run of the steps under the
-- lock, in which the same tasks are accepted and started in the same order.
pub Moves-Runs :
    {s t : Workers} {es : List Event}
    → Moves s es t
    → (es' : List Event) × Runs (seen s) es' (seen t)
      × (accepted_of es' ≡ accepted_of es)
      × (started_of es' ≡ started_of es)
unfolding accepted_of started_of
Moves-Runs done = ([], Runs.done, refl, refl)
Moves-Runs (more {u = u} {e = e} {es = es} move rest) =
    let (es', runs, taken, called) = Moves-Runs rest in
    elim (Move-Simulates move) [
      | inl step ↦
          (e ∷ es', Runs.more step runs, accepted-cons e es es' taken, started-cons e es es' called)
      | inr (same, quiet) ↦ (
        es',
        subst (λ r. Runs r es' (seen u)) same runs,
        taken ∙ accepted-silent e es quiet,
        called ∙ started-silent e es quiet,
      )
    ]
