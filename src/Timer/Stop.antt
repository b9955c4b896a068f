-- ===== src/Timer/Stop.antt =====
-- timer/timer.cpp, the thread of Thread_clockr step by step, with the stop flag and the wake-ups of
-- `_cond_timer`, and the end of `~Thread_clockr`, which waits for the thread.
use kvstore_epoll.Prelude.{
  ℕ, zero, suc, ◌+◌, ◌≤◌, ◌≡◌, refl, List, [], ◌∷◌, ◌++◌, Bool, true, false, ◌||◌, ◌&&◌, not,
  if◌then◌else◌, ltb, arith,
}
use kvstore_epoll.Timer.Clock.{Clock, handle_timer}
use kvstore_epoll.Timer.Thread.{wait_time}
pub mod Returns
pub mod Silent
pub mod Rounds

-- Where the thread stands: before the test of `while`, before the first lock, behind it with the time
-- to wait, before the lock of each wait, blocked in each wait, before the last test of the flag, in
-- `handle_timer`, or at its end.
pub data Phase : Type 0 where
  top locking : Phase
  peeked : ℕ → Phase
  before_wait_for in_wait_for before_wait in_wait : Phase
  testing handling returned : Phase

-- `woken` is whether a notification has reached the thread in the wait that it is blocked in, and
-- `fired` the callbacks that have run.
pub record Thread : Type 0 where
  pub clock : Clock
  pub stop : Bool
  pub phase : Phase
  pub woken : Bool
  pub fired : List ℕ

abbrev pub no_timer : Clock → Bool
no_timer c = elim c.queue [ [] ↦ true | t ∷ ts ↦ false ]

abbrev pub at : Phase → Thread → Thread
at p t = record t { phase = p }

-- The next step of the thread at a time; `late` is whether the seconds of `wait_for` are over. A
-- blocked thread stays blocked unless it is woken or late.
unfoldable pub thread_step : ℕ → Bool → Thread → Thread
thread_step now late t = elim t.phase [
  | top ↦ at (if t.stop then returned else locking) t
  | locking ↦ at (peeked (if t.stop then 0 else wait_time now t.clock)) t
  | peeked n ↦
      at
        (if t.stop
          then testing
          else if ltb 0 n
          then before_wait_for
          else if no_timer t.clock
          then before_wait
          else testing)
        t
  | before_wait_for ↦
      if t.stop then at testing t else record t { phase = in_wait_for; woken = false }
  | in_wait_for ↦ if late || (t.woken && t.stop) then at testing t else record t { woken = false }
  | before_wait ↦
      if t.stop || not (no_timer t.clock)
      then at testing t
      else record t { phase = in_wait; woken = false }
  | in_wait ↦
      if t.woken && (t.stop || not (no_timer t.clock))
      then at testing t
      else record t { woken = false }
  | testing ↦ at (if t.stop then top else handling) t
  | handling ↦
      let (fs, c) = handle_timer now t.clock in
      record t { phase = top; clock = c; fired = t.fired ++ fs }
  | returned ↦ t
]

-- What can happen: a step of the thread, a change of the timers by another thread, with or without a
-- `notify_one`, a spurious wake-up, and the two steps of the destructor.
pub data Action : Type 0 where
  step : ℕ → Bool → Action
  change : (Clock → Clock) → Bool → Action
  set_stop notify_all spurious : Action

unfoldable pub act : Action → Thread → Thread
unfolding thread_step
act (step now late) t = thread_step now late t
act (change f notifies) t = record t { clock = f t.clock; woken = t.woken || notifies }
act set_stop t = record t { stop = true }
act notify_all t = record t { woken = true }
act spurious t = record t { woken = true }

unfoldable pub acts : List Action → Thread → Thread
unfolding act
acts [] t = t
acts (a ∷ rest) t = acts rest (act a t)

-- How many steps of the thread there are.
unfoldable pub steps : List Action → ℕ
steps [] = 0
steps (step now late ∷ rest) = suc (steps rest)
steps (change f notifies ∷ rest) = steps rest
steps (set_stop ∷ rest) = steps rest
steps (notify_all ∷ rest) = steps rest
steps (spurious ∷ rest) = steps rest
