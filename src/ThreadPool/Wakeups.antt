-- ===== src/ThreadPool/Wakeups.antt =====
-- No wake-up is lost.
use kvstore_epoll.Prelude.{
  Bool-cases, ℕ, ◌+◌, ◌≤◌, ◌≡◌, ◌≢◌, ◌⊎◌, inl, inr, refl, List, [], ◌∷◌, length, true, false, arith,
  ap, length_mid, length-append,
}
use native.Mathlib.Decide.{ℕ_discrete}
use kvstore_epoll.ThreadPool.Steps.{Event}
use kvstore_epoll.ThreadPool.Order.{pool_size}
use kvstore_epoll.ThreadPool.Workers.{
  Workers, workers, Move, Moves, push_task, throw, notify_one, notify_none, take_task, fall_asleep,
  wake_up, leave, come_back, set_stop, notify_all, done, more,
}

-- Workers sleep only while every task in the queue has a worker on the way to it, or a notification,
-- and, once the flag is set, only until `notify_all` comes.
pub record IsAlert (size : ℕ) (s : Workers) : Type 0 where
  pub counted : s.awake + s.asleep + length s.running + s.returned ≡ size
  pub covered : s.asleep ≢ 0 → length s.queue ≤ s.awake + s.notifying
  pub halted : s.asleep ≢ 0 → s.stop ≡ true → s.notifying_all ≢ 0
  pub finished : s.returned ≢ 0 → (s.stop ≡ true) × (s.queue ≡ [])

Move-IsAlert : {size : ℕ} {s t : Workers} {e : Event} → Move s e t → IsAlert size s → IsAlert size t
Move-IsAlert (push_task s task running) p = record {
  counted = p.counted;
  covered = λ a. omega (arith, p.covered a, length-append s.queue (task ∷ []));
  halted = λ a b. cc;
  finished = λ b. absurd (cc (running, (p.finished b).0));
}
Move-IsAlert (throw s task over) p = p
Move-IsAlert (notify_one s n m e f) p = record {
  counted = omega (arith, p.counted, f);
  covered = λ a. omega (arith, p.covered (λ z. omega (arith, z, f)), e);
  halted = λ a b. p.halted (λ z. omega (arith, z, f)) b;
  finished = p.finished;
}
Move-IsAlert (notify_none s n e f) p = record {
  counted = p.counted;
  covered = λ a. absurd (a f);
  halted = p.halted;
  finished = p.finished;
}
Move-IsAlert (take_task s task tasks n first free) p = record {
  counted = omega (arith, p.counted, free);
  covered = λ a. omega (arith, p.covered a, ap length first, free);
  halted = p.halted;
  finished = λ b. absurd (cc (first, (p.finished b).1));
}
Move-IsAlert (fall_asleep s n running empty e) p = record {
  counted = omega (arith, p.counted, e);
  covered = λ a. omega (arith, ap length empty);
  halted = λ a b. cc;
  finished = p.finished;
}
Move-IsAlert (wake_up s n e) p = record {
  counted = omega (arith, p.counted, e);
  covered = λ a. omega (arith, p.covered (λ z. omega (arith, z, e)));
  halted = λ a b. p.halted (λ z. omega (arith, z, e)) b;
  finished = p.finished;
}
Move-IsAlert (leave s n over empty e) p = record {
  counted = omega (arith, p.counted, e);
  covered = λ a. omega (arith, ap length empty);
  halted = p.halted;
  finished = λ b. (over, empty);
}
Move-IsAlert (come_back s before after task e) p = record {
  counted = omega (arith, p.counted, ap length e, length_mid task before after);
  covered = λ a. omega (arith, p.covered a);
  halted = p.halted;
  finished = p.finished;
}
Move-IsAlert (set_stop s) p = record {
  counted = p.counted;
  covered = p.covered;
  halted = λ a b. omega arith;
  finished = λ b. (refl, (p.finished b).1);
}
Move-IsAlert (notify_all s n e) p = record {
  counted = omega (arith, p.counted);
  covered = λ a. absurd (a refl);
  halted = λ a. absurd (a refl);
  finished = p.finished;
}

pub Moves-IsAlert :
    {size : ℕ} {s t : Workers} {es : List Event} → Moves s es t → IsAlert size s → IsAlert size t
Moves-IsAlert done p = p
Moves-IsAlert (more move rest) p = Moves-IsAlert rest (Move-IsAlert move p)

pub workers-IsAlert : (thread_count : ℕ) → IsAlert (pool_size thread_count) (workers thread_count)
workers-IsAlert thread_count = record {
  counted = omega arith;
  covered = λ a. absurd (a refl);
  halted = λ a. absurd (a refl);
  finished = λ a. absurd (a refl);
}

List-cases : (xs : List ℕ) → (xs ≡ []) ⊎ (length xs ≢ 0)
List-cases [] = inl refl
List-cases (x ∷ xs) = inr (λ e. omega (arith, e))

-- A pool with a task in its queue is at work.
busy_or_empty :
    (thread_count : ℕ) {u : Workers}
    → IsAlert (pool_size thread_count) u
    → (u.queue ≡ []) ⊎ (u.awake + u.notifying + length u.running ≢ 0)
busy_or_empty thread_count {u} p = elim (List-cases u.queue) [
  | inl empty ↦ inl empty
  | inr some_task ↦ inr λ idle.
      let none_back : u.returned ≡ 0 = elim (ℕ_discrete u.returned 0) [
        | yes e ↦ e
        | no back ↦ absurd (some_task (ap length (p.finished back).1))
      ] in
      let asleep : u.asleep ≢ 0 = λ z. ground (arith, p.counted) in omega (arith, p.covered asleep)
]

-- In every state that a pool reaches, with the notifications behind the lock and with spurious
-- wake-ups: either no worker sleeps, or each task in the queue has a worker that is awake or a
-- notification on its way; a pool with a task in its queue has a worker awake or in a task, or a
-- notification on its way; and once the flag is set, no worker sleeps but where a `notify_all` is
-- still to come.
pub workers-awake :
    (thread_count : ℕ) {es : List Event} {u : Workers}
    → Moves (workers thread_count) es u
    → ((u.asleep ≡ 0) ⊎ (length u.queue ≤ u.awake + u.notifying))
      × ((u.queue ≡ []) ⊎ (u.awake + u.notifying + length u.running ≢ 0))
      × ((u.stop ≡ false) ⊎ (u.notifying_all ≢ 0) ⊎ (u.asleep ≡ 0))
workers-awake thread_count {es} {u} moves =
    let p = Moves-IsAlert moves (workers-IsAlert thread_count) in
    (
      elim (ℕ_discrete u.asleep 0) [
        | yes none_asleep ↦ inl none_asleep
        | no sleepers ↦ inr (p.covered sleepers)
      ],
      busy_or_empty thread_count p,
      elim (ℕ_discrete u.asleep 0) [
        | yes none_asleep ↦ inr (inr none_asleep)
        | no sleepers ↦ elim (Bool-cases u.stop) [
          | inl set ↦ inr (inl (p.halted sleepers set))
          | inr unset ↦ inl unset
        ]
      ],
    )
