-- ===== src/Timer/Stop/Rounds.antt =====
-- timer/timer.cpp, the thread of Thread_clockr: its rounds, step by step.
use kvstore_epoll.Prelude.{
  ℕ, ◌+◌, ◌-◌, ◌≡◌, refl, List, [], ◌∷◌, ◌++◌, append-nil, sym, ap, subst, true, false, ltb,
  Bool-cases, inl, inr,
}
use kvstore_epoll.Timer.Clock.{Timer, Clock, handle_timer}
use kvstore_epoll.Timer.Thread.{Plan, wait_seconds, wait_timer, go, wait_time, plan, clock_round}
use kvstore_epoll.Timer.Stop.{
  Phase, top, peeked, before_wait_for, in_wait, testing, Thread, thread_step, Action, step, at, act,
  acts,
}

-- The steps of a round with no other step in it: the wait ends when its seconds are over, and
-- `handle_timer` reads the time so much later.
unfoldable pub round_steps : ℕ → ℕ → Plan → List Action
round_steps now delay (wait_seconds n) =
    step now false
    ∷ step now false
    ∷ step now false
    ∷ step now false
    ∷ step (now + n) true
    ∷ step (now + n) false
    ∷ step (now + n + delay) false
    ∷ []
round_steps now delay wait_timer =
    step now false ∷ step now false ∷ step now false ∷ step now false ∷ []
round_steps now delay go =
    step now false
    ∷ step now false
    ∷ step now false
    ∷ step now false
    ∷ step (now + delay) false
    ∷ []

-- Where the thread stands after a round: at the top, or blocked until there is a timer.
unfoldable pub after_round : Plan → Phase
after_round (wait_seconds n) = top
after_round wait_timer = in_wait
after_round go = top

-- The thread has the clock and the callbacks of the round.
pub record HasRound (now delay : ℕ) (t t' : Thread) : Type 0 where
  pub phase : t'.phase ≡ after_round (plan now t.clock)
  pub stop : t'.stop ≡ false
  pub clock : t'.clock ≡ (clock_round now delay t.clock).1
  pub fired : t'.fired ≡ t.fired ++ (clock_round now delay t.clock).0

-- A round of the thread that starts at the top with the flag not set is made of its steps: five to
-- seven of them end at the top again, with the clock and the callbacks of the round; where there is no
-- timer, four of them end blocked.
pub clock_round-acts :
    (now delay : ℕ) (t : Thread)
    → t.phase ≡ top
    → t.stop ≡ false
    → HasRound now delay t (acts (round_steps now delay (plan now t.clock)) t)
unfolding acts act thread_step round_steps after_round clock_round plan wait_time
clock_round-acts now delay t phase stop =
    subst
      (λ p.
        HasRound now delay (record t { phase = p })
          (acts (round_steps now delay (plan now t.clock)) (record t { phase = p })))
      (sym phase)
      (subst
        (λ b.
          let t1 : Thread = record t { phase = top; stop = b } in
          HasRound now delay t1 (acts (round_steps now delay (plan now t.clock)) t1))
        (sym stop) (from t.clock.queue))
  where
    from :
        (q : List Timer)
        → let t1 : Thread = record t {
          phase = top;
          stop = false;
          clock = record (t.clock) { queue = q };
        } in
          HasRound now delay t1 (acts (round_steps now delay (plan now t1.clock)) t1)
    from [] = record { phase = refl; stop = refl; clock = refl; fired = sym (append-nil _) }
    from (x ∷ xs) =
        let c : Clock = record (t.clock) { queue = x ∷ xs } in
        let n = x.expire_time - now in
        let t1 : Thread = record t { phase = peeked n; stop = false; clock = c } in
        elim (Bool-cases (ltb 0 n)) [
          | inl later ↦
              let peek : thread_step now false t1 ≡ at before_wait_for t1 = rw later refl in
              let rounded : clock_round now delay c ≡ handle_timer (now + n + delay) c =
                rw (clock_round, later) refl in
              let run =
                ap
                  (acts (
                    step now false
                    ∷ step (now + n) true
                    ∷ step (now + n) false
                    ∷ step (now + n + delay) false
                    ∷ []))
                  peek in
              record {
                phase = rw later (ap (λ (u : Thread). u.phase) run);
                stop = rw later (ap (λ (u : Thread). u.stop) run);
                clock = rw (rounded, later) (ap (λ (u : Thread). u.clock) run);
                fired = rw (rounded, later) (ap (λ (u : Thread). u.fired) run);
              }
          | inr due ↦
              let peek : thread_step now false t1 ≡ at testing t1 = rw due refl in
              let rounded : clock_round now delay c ≡ handle_timer (now + delay) c =
                rw (clock_round, due) refl in
              let run = ap (acts (step now false ∷ step (now + delay) false ∷ [])) peek in
              record {
                phase = rw due (ap (λ (u : Thread). u.phase) run);
                stop = rw due (ap (λ (u : Thread). u.stop) run);
                clock = rw (rounded, due) (ap (λ (u : Thread). u.clock) run);
                fired = rw (rounded, due) (ap (λ (u : Thread). u.fired) run);
              }
        ]
