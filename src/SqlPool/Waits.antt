-- ===== src/SqlPool/Waits.antt =====
-- The first call of `GetConnection` waits before any thread can have a connection to give back.
use kvstore_epoll.Prelude.{
  ℕ, ◌≡◌, ◌≢◌, refl, ap, sym, ◌∙◌, List, [], ◌∷◌, ◌++◌, false, length, length-append, Run, ok,
  fault, arith,
}
use kvstore_epoll.SqlPool.Pool.{SqlPool, release_connection}
use kvstore_epoll.SqlPool.Use.{
  Users, Step, Steps, find_none, wait, woken, woken_empty, give_back, give_null, done, more, broken,
  unused,
}

-- No thread has a connection, and no wake-up is under way.
pub record IsStuck (u : Users) : Type 0 where
  pub held : u.held ≡ []
  pub signals : u.signals ≡ 0

nothing_held : (before after : List ℕ) (con : ℕ) → [] ≢ before ++ (con ∷ after)
nothing_held before after con e = omega (arith, ap length e, length-append before (con ∷ after))

StuckRun : Run Users → Type 0
StuckRun (ok u) = IsStuck u
StuckRun (fault why) = ⊥

Step-StuckRun : {u : Users} {r : Run Users} → Step false u r → IsStuck u → StuckRun r
unfolding release_connection StuckRun
Step-StuckRun (find_none u e) h = h
Step-StuckRun (wait u e) h = record { held = h.held; signals = h.signals }
Step-StuckRun (woken u n k con cons e w l) h = absurd (ground (arith, h.signals, w))
Step-StuckRun (woken_empty u n k e w l) h = absurd (ground (arith, h.signals, w))
Step-StuckRun (give_back u before after con e) h =
    absurd (nothing_held before after con (sym h.held ∙ e))
Step-StuckRun (give_null u) h = record { held = h.held; signals = h.signals }

Steps-StuckRun : {u : Users} {r : Run Users} → Steps false u r → IsStuck u → StuckRun r
unfolding StuckRun
Steps-StuckRun done h = h
Steps-StuckRun (more step steps) h = Steps-StuckRun steps (Step-StuckRun step h)
Steps-StuckRun (broken step) h = Step-StuckRun step h

-- Without spurious wake-ups no thread ever gets a connection from a pool that starts unused, whatever
-- the pool holds: each call of `GetConnection` returns NULL or waits for ever.
pub unused-IsStuck : (p : SqlPool) (u : Users) → Steps false (unused p) (ok u) → IsStuck u
unfolding StuckRun
unused-IsStuck p u steps = Steps-StuckRun steps (record { held = refl; signals = refl })
