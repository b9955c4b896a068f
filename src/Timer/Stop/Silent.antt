-- ===== src/Timer/Stop/Silent.antt =====
-- timer/timer.cpp, the thread of Thread_clockr once the stop flag is set.
use kvstore_epoll.Prelude.{◌≡◌, refl, ℕ, List, [], ◌∷◌, Bool, true, false, arith}
use kvstore_epoll.Timer.Stop.{
  Phase, top, locking, peeked, before_wait_for, in_wait_for, before_wait, in_wait, testing,
  handling, returned, Thread, thread_step, Action, step, change, set_stop, notify_all, spurious,
  act, acts,
}

abbrev pub is_handling : Phase → Bool
is_handling handling = true
is_handling other = false

-- The flag is set, no callback is running, and these have run.
record IsSilent (fs : List ℕ) (t : Thread) : Type 0 where
  stop : t.stop ≡ true
  calm : is_handling t.phase ≡ false
  fired : t.fired ≡ fs

act-IsSilent : (fs : List ℕ) (a : Action) (t : Thread) → IsSilent fs t → IsSilent fs (act a t)
unfolding act thread_step
act-IsSilent fs (step now late) t h = from late t.woken t.phase h.calm t.stop h.stop
  where
    from :
        (l w : Bool) (p : Phase)
        → is_handling p ≡ false
        → (b : Bool) → b ≡ true
        → IsSilent fs (thread_step now l (record t { phase = p; stop = b; woken = w }))
    from l w p calm false set = absurd (ground arith)
    from l w handling calm true set = absurd (ground arith)
    from l w top calm true set = record { stop = refl; calm = refl; fired = h.fired }
    from l w locking calm true set = record { stop = refl; calm = refl; fired = h.fired }
    from l w (peeked n) calm true set = record { stop = refl; calm = refl; fired = h.fired }
    from l w before_wait_for calm true set = record { stop = refl; calm = refl; fired = h.fired }
    from true w in_wait_for calm true set = record { stop = refl; calm = refl; fired = h.fired }
    from false true in_wait_for calm true set = record { stop = refl; calm = refl; fired = h.fired }
    from false false in_wait_for calm true set = record {
      stop = refl;
      calm = refl;
      fired = h.fired;
    }
    from l w before_wait calm true set = record { stop = refl; calm = refl; fired = h.fired }
    from l true in_wait calm true set = record { stop = refl; calm = refl; fired = h.fired }
    from l false in_wait calm true set = record { stop = refl; calm = refl; fired = h.fired }
    from l w testing calm true set = record { stop = refl; calm = refl; fired = h.fired }
    from l w returned calm true set = record { stop = refl; calm = refl; fired = h.fired }
act-IsSilent fs (change f notifies) t h = record { stop = h.stop; calm = h.calm; fired = h.fired }
act-IsSilent fs set_stop t h = record { stop = refl; calm = h.calm; fired = h.fired }
act-IsSilent fs notify_all t h = record { stop = h.stop; calm = h.calm; fired = h.fired }
act-IsSilent fs spurious t h = record { stop = h.stop; calm = h.calm; fired = h.fired }

acts-IsSilent :
    (fs : List ℕ) (actions : List Action) (t : Thread)
    → IsSilent fs t
    → IsSilent fs (acts actions t)
unfolding acts
acts-IsSilent fs [] t h = h
acts-IsSilent fs (a ∷ rest) t h = acts-IsSilent fs rest (act a t) (act-IsSilent fs a t h)

-- From the moment at which the stop flag is set while no callback is running, none runs any more,
-- whatever happens.
pub thread_silent :
    (t : Thread) (actions : List Action)
    → is_handling t.phase ≡ false
    → (acts actions (act set_stop t)).fired ≡ t.fired
unfolding act
thread_silent t actions calm =
    (acts-IsSilent t.fired actions (act set_stop t)
      (record { stop = refl; calm = calm; fired = refl })).fired
