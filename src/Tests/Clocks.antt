-- ===== src/Tests/Clocks.antt =====
-- The timers.
use kvstore_epoll.Prelude.{◌+◌, ◌≡◌, refl, some, [], ◌∷◌, arith, All, if◌then◌else◌, ◌==◌}
use kvstore_epoll.Timer.Clock.{
  Timer, Clock, lookup, version_of, judge, live, outdated, deleted, push, bump, del_timer,
  mod_timer, handle_timer,
}
use kvstore_epoll.Timer.Thread.{clock_thread, finish_mod}
use kvstore_epoll.Timer.Rounds.{current_callbacks, clock_thread-calls_all, mod_timer-deleted}
use kvstore_epoll.Timer.Fired.{IsClock, waiting, due, handle_timer-due, mod_timer-supersedes}

-- The timer of descriptor 5, and one of descriptor 6 that is later.
abbrev first : Timer
first = record { timer_id = 5; expire_time = 60; callback = some 1; version = 1 }

abbrev second : Timer
second = record { timer_id = 6; expire_time = 70; callback = some 2; version = 1 }

abbrev clock : Clock
clock = record { queue = first ∷ second ∷ []; versions = (5, 1) ∷ (6, 1) ∷ [] }

clock-IsClock : IsClock clock
unfolding version_of lookup
clock-IsClock = record { ordered = omega arith; versioned = omega arith; current = omega arith }

handle_timer-due_example :
    let (fs, c') = handle_timer 65 clock in
    (fs ≡ due 65 clock.versions clock.queue)
    × (c'.queue ≡ waiting 65 clock.queue)
    × (c'.versions ≡ clock.versions)
handle_timer-due_example = handle_timer-due 65 clock clock-IsClock.ordered clock-IsClock.versioned

abbrev first_renewed : Timer
first_renewed = record {
  timer_id = 5;
  expire_time = 110;
  callback = some 1;
  version = version_of 5 clock.versions + 1;
}

mod_timer-supersedes_example :
    let c' = (mod_timer 50 5 60 (some 1) clock).1 in
    (c'.queue ≡ push first_renewed clock.queue)
    × (lookup 5 c'.versions ≡ some first_renewed.version)
    × IsClock c'
    × (judge first_renewed c'.versions ≡ live)
    × All
        (λ t. judge t c'.versions ≡ (if 5 == t.timer_id then outdated else judge t clock.versions))
        clock.queue
mod_timer-supersedes_example = mod_timer-supersedes 50 5 60 (some 1) clock clock-IsClock

known : lookup 5 clock.versions ≡ some 1
unfolding lookup
known = refl

clock_thread-calls_all_example : clock_thread (0 ∷ 3 ∷ []) 50 clock ≡ (
  current_callbacks clock.versions clock.queue,
  record { queue = []; versions = clock.versions },
)
clock_thread-calls_all_example =
    clock_thread-calls_all (0 ∷ 3 ∷ []) 50 clock clock-IsClock.ordered clock-IsClock.versioned
      (omega arith)

mod_timer-deleted_example :
    let c' = finish_mod 50 5 60 (some 1) (del_timer 5 (bump 5 clock)).1 in
    let added : Timer = record {
      timer_id = 5;
      expire_time = 110;
      callback = some 1;
      version = 0;
    } in
    (c'.queue ≡ push added clock.queue)
    × (lookup 5 c'.versions ≡ some 0)
    × (judge added c'.versions ≡ deleted)
mod_timer-deleted_example = mod_timer-deleted 50 5 60 (some 1) clock
