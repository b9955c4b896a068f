-- ===== src/Tests/Stops.antt =====
-- The thread of the timers and its end.
use kvstore_epoll.Prelude.{◌≤◌, ◌≡◌, some, [], ◌∷◌, true, false, arith}
use kvstore_epoll.Timer.Stop.{
  Thread, in_wait_for, returned, step, change, set_stop, notify_all, act, acts, steps,
}
use kvstore_epoll.Timer.Stop.Returns.{thread_returns}

-- The thread is blocked until its timer expires at 67.
abbrev blocked : Thread
blocked = record {
  clock = record {
    queue = record { timer_id = 5; expire_time = 67; callback = some 5; version = 3 } ∷ [];
    versions = (5, 3) ∷ [];
  };
  stop = false;
  phase = in_wait_for;
  woken = false;
  fired = [];
}

four_steps :
    4
    ≤ steps
        (step 60 false ∷ step 60 false ∷ change (λ c. c) true ∷ step 60 false ∷ step 61 false ∷ [])
unfolding steps
four_steps = omega arith

thread_returns_example :
    (acts
      (step 60 false ∷ step 60 false ∷ change (λ c. c) true ∷ step 60 false ∷ step 61 false ∷ [])
      (act notify_all (acts (step 60 false ∷ []) (act set_stop blocked)))).phase
    ≡ returned
thread_returns_example =
    thread_returns blocked (step 60 false ∷ [])
      (step 60 false ∷ step 60 false ∷ change (λ c. c) true ∷ step 60 false ∷ step 61 false ∷ [])
      four_steps
