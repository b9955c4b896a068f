-- ===== src/Timer/Stop/Returns.antt =====
-- timer/timer.cpp, `~Thread_clockr`: the thread that it waits for comes to its end.
use kvstore_epoll.Prelude.{ℕ, ◌-◌, ◌≤◌, ◌≡◌, refl, ◌∙◌, List, [], ◌∷◌, Bool, true, false, arith}
use kvstore_epoll.Timer.Stop.{
  Phase, top, locking, peeked, before_wait_for, in_wait_for, before_wait, in_wait, testing,
  handling, returned, Thread, thread_step, Action, step, change, set_stop, notify_all, spurious,
  act, acts, steps,
}

-- How many of its steps the thread has left when the stop flag is set.
steps_left : Phase → ℕ
steps_left top = 1
steps_left locking = 4
steps_left (peeked n) = 3
steps_left before_wait_for = 3
steps_left in_wait_for = 3
steps_left before_wait = 3
steps_left in_wait = 3
steps_left testing = 2
steps_left handling = 2
steps_left returned = 0

is_blocked : Phase → Bool
is_blocked in_wait_for = true
is_blocked in_wait = true
is_blocked other = false

-- The stop flag is set, and the thread has been woken if it is blocked.
record IsTold (t : Thread) : Type 0 where
  stop : t.stop ≡ true
  woken : is_blocked t.phase ≡ true → t.woken ≡ true

thread_step-IsTold :
    (now : ℕ) (late : Bool) (t : Thread)
    → IsTold t
    → IsTold (thread_step now late t)
      × (steps_left (thread_step now late t).phase ≡ steps_left t.phase - 1)
unfolding thread_step steps_left is_blocked
thread_step-IsTold now late t told = from late t.phase t.woken told.woken t.stop told.stop
  where
    from :
        (l : Bool) (p : Phase) (woken : Bool)
        → (is_blocked p ≡ true → woken ≡ true)
        → (stop : Bool) → stop ≡ true
        → let t1 : Thread = record t { phase = p; woken = woken; stop = stop } in
          IsTold (thread_step now l t1)
          × (steps_left (thread_step now l t1).phase ≡ steps_left p - 1)
    from l p woken stirred false set = absurd (ground arith)
    from l top woken stirred true set = (record { stop = refl; woken = stirred }, refl)
    from l locking woken stirred true set = (record { stop = refl; woken = stirred }, refl)
    from l (peeked n) woken stirred true set = (record { stop = refl; woken = stirred }, refl)
    from l before_wait_for woken stirred true set = (record { stop = refl; woken = stirred }, refl)
    from true in_wait_for true stirred true set = (record { stop = refl; woken = λ e. refl }, refl)
    from false in_wait_for true stirred true set = (record { stop = refl; woken = λ e. refl }, refl)
    from l in_wait_for false stirred true set = absurd (ground (arith, stirred refl))
    from l before_wait woken stirred true set = (record { stop = refl; woken = stirred }, refl)
    from l in_wait true stirred true set = (record { stop = refl; woken = λ e. refl }, refl)
    from l in_wait false stirred true set = absurd (ground (arith, stirred refl))
    from l testing woken stirred true set = (record { stop = refl; woken = stirred }, refl)
    from l handling woken stirred true set = (record { stop = refl; woken = stirred }, refl)
    from l returned woken stirred true set = (record { stop = refl; woken = stirred }, refl)

act-IsTold :
    (a : Action) (t : Thread)
    → IsTold t
    → IsTold (act a t) × (steps_left (act a t).phase ≡ steps_left t.phase - steps (a ∷ []))
unfolding act steps
act-IsTold (step now late) t told = thread_step-IsTold now late t told
act-IsTold (change f notifies) t told = (
  record { stop = told.stop; woken = λ blocked. ground (arith, told.woken blocked) },
  omega arith,
)
act-IsTold set_stop t told = (record { stop = refl; woken = told.woken }, omega arith)
act-IsTold notify_all t told = (record { stop = told.stop; woken = λ blocked. refl }, omega arith)
act-IsTold spurious t told = (record { stop = told.stop; woken = λ blocked. refl }, omega arith)

acts-IsTold :
    (actions : List Action) (t : Thread)
    → IsTold t
    → steps_left (acts actions t).phase ≡ steps_left t.phase - steps actions
unfolding acts steps
acts-IsTold [] t told = omega arith
acts-IsTold (a ∷ rest) t told =
    let (told', one) = act-IsTold a t told in
    acts-IsTold rest (act a t) told' ∙ rw one (steps_cons a)
  where
    steps_cons :
        (a : Action)
        → steps_left t.phase - steps (a ∷ []) - steps rest ≡ steps_left t.phase - steps (a ∷ rest)
    steps_cons (step now late) = omega arith
    steps_cons (change f notifies) = omega arith
    steps_cons set_stop = omega arith
    steps_cons notify_all = omega arith
    steps_cons spurious = omega arith

few_left : (p : Phase) → steps_left p ≤ 4
unfolding steps_left
few_left p = elim p as (λ q. steps_left q ≤ 4) [
  | top ↦ omega arith
  | locking ↦ omega arith
  | peeked n ↦ omega arith
  | before_wait_for ↦ omega arith
  | in_wait_for ↦ omega arith
  | before_wait ↦ omega arith
  | in_wait ↦ omega arith
  | testing ↦ omega arith
  | handling ↦ omega arith
  | returned ↦ omega arith
]

none_left : (p : Phase) → steps_left p ≡ 0 → p ≡ returned
unfolding steps_left
none_left returned e = refl
none_left top e = absurd (omega (arith, e))
none_left locking e = absurd (omega (arith, e))
none_left (peeked n) e = absurd (omega (arith, e))
none_left before_wait_for e = absurd (omega (arith, e))
none_left in_wait_for e = absurd (omega (arith, e))
none_left before_wait e = absurd (omega (arith, e))
none_left in_wait e = absurd (omega (arith, e))
none_left testing e = absurd (omega (arith, e))
none_left handling e = absurd (omega (arith, e))

-- The stop flag is never cleared.
act-stop : (a : Action) (t : Thread) → t.stop ≡ true → (act a t).stop ≡ true
unfolding act thread_step
act-stop (step now late) t set = from t.phase
  where
    from : (p : Phase) → (thread_step now late (record t { phase = p })).stop ≡ true
    from top = set
    from locking = set
    from (peeked n) = set
    from before_wait_for = ground arith
    from in_wait_for = ground arith
    from before_wait = ground arith
    from in_wait = ground arith
    from testing = set
    from handling = set
    from returned = set
act-stop (change f notifies) t set = set
act-stop set_stop t set = refl
act-stop notify_all t set = set
act-stop spurious t set = set

acts-stop : (actions : List Action) (t : Thread) → t.stop ≡ true → (acts actions t).stop ≡ true
unfolding acts
acts-stop [] t set = set
acts-stop (a ∷ rest) t set = acts-stop rest (act a t) (act-stop a t set)

-- The destructor's `join` ends. Wherever the thread stands when the stop flag is set, and whatever
-- happens until the thread is notified and after that, it has returned after at most four of its own
-- steps behind the notification: no wake-up is lost.
pub thread_returns :
    (t : Thread) (before after : List Action)
    → 4 ≤ steps after
    → (acts after (act notify_all (acts before (act set_stop t)))).phase ≡ returned
unfolding act
thread_returns t before after enough =
    let t1 = acts before (act set_stop t) in
    let told : IsTold (act notify_all t1) =
      told-after t1 (acts-stop before (act set_stop t) (set-set_stop t)) in
    none_left _ (
      acts-IsTold after (act notify_all t1) told
      ∙ omega (arith, few_left (act notify_all t1).phase))
  where
    set-set_stop : (t : Thread) → (act set_stop t).stop ≡ true
    set-set_stop t = refl

    told-after : (t : Thread) → t.stop ≡ true → IsTold (act notify_all t)
    told-after t set = record { stop = set; woken = λ blocked. refl }
