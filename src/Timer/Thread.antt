-- ===== src/Timer/Thread.antt =====
-- timer/timer.cpp, the thread of Thread_clockr, its destructor, and `mod_timer` with another step
-- between its two parts.
use kvstore_epoll.Prelude.{ℕ, ◌+◌, ◌-◌, Option, List, [], ◌∷◌, ◌++◌, if◌then◌else◌, ltb}
use kvstore_epoll.Timer.Clock.{Clock, version_of, add_timer, del_all_timer, handle_timer}

-- What the thread does before `handle_timer`: it waits so many seconds, waits for a timer, or neither.
pub data Plan : Type 0 where
  wait_seconds : ℕ → Plan
  wait_timer go : Plan

-- The wait until the timer on top expires, or 0.
unfoldable pub wait_time : ℕ → Clock → ℕ
wait_time now c = elim c.queue [ [] ↦ 0 | t ∷ ts ↦ t.expire_time - now ]

unfoldable pub plan : ℕ → Clock → Plan
unfolding wait_time
plan now c =
    if ltb 0 (wait_time now c)
    then wait_seconds (wait_time now c)
    else elim c.queue [ [] ↦ wait_timer | t ∷ ts ↦ go ]

-- One round of the thread while the stop flag is not set, with no other step in it: the callbacks,
-- and the clock after it. `delay` is how much later than planned `handle_timer` reads the time.
-- `wait_for` tests the stop flag only, so a new timer does not end it.
unfoldable pub clock_round : ℕ → ℕ → Clock → List ℕ × Clock
unfolding plan
clock_round now delay c = elim (plan now c) [
  | wait_seconds n ↦ handle_timer (now + n + delay) c
  | wait_timer ↦ ([], c)
  | go ↦ handle_timer (now + delay) c
]

-- Rounds one after another, each with its delay.
unfoldable pub clock_thread : List ℕ → ℕ → Clock → List ℕ × Clock
unfolding clock_round
clock_thread [] now c = ([], c)
clock_thread (delay ∷ delays) now c =
    let (fs, c') = clock_round now delay c in
    let (gs, c'') = clock_thread delays (now + wait_time now c + delay) c' in (fs ++ gs, c'')

-- `~Thread_clockr`, before the stop flag is set
unfoldable pub end_clockr : Clock → Clock
unfolding del_all_timer
end_clockr c = elim c.queue [ [] ↦ c | t ∷ ts ↦ (del_all_timer c).1 ]

-- The second part of `mod_timer`: the version is read, and the timer added.
unfoldable pub finish_mod : ℕ → ℕ → ℕ → Option ℕ → Clock → Clock
unfolding add_timer
finish_mod now id without callback c =
    (add_timer now id without callback (version_of id c.versions) c).1
