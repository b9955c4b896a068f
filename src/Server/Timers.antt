-- ===== src/Server/Timers.antt =====
-- timer/timer.cpp, the calls at the end of `handle_timer`, with the callbacks that Webserver.cpp binds:
-- a connection that has been idle is closed.
use kvstore_epoll.Prelude.{
  ℕ, ◌+◌, ◌≡◌, refl, ap, subst, ◌∙◌, inl, inr, some, List, [], ◌∷◌, Bool, true, false,
  if◌then◌else◌, leb, ◌==◌, Run, ok, ◌>>=◌, Returns, All, Any, Bool-cases, arith,
}
use native.Mathlib.Decide.{ℕ_discrete}
use kvstore_epoll.ConnPool.Blocks.{Block, at_, find_conn, get}
use kvstore_epoll.Timer.Clock.{handle_timer}
use kvstore_epoll.Timer.Fired.{IsOrdered, IsVersioned, due, handle_timer-due}
use kvstore_epoll.Server.Events.{Server, time_out, unwatch, watches, timer_task}
use kvstore_epoll.Server.Safe.{close_conn-known}

-- For each callback of a round, the time at which it runs, and when the connection of a block was
-- last active, as it finds it.
pub record Moments : Type 0 where
  pub times : ℕ → ℕ
  pub active : ℕ → Block → ℕ

-- `for (auto &callback : callbacks) callback()`, from the i-th on
unfoldable pub run_callbacks : Moments → ℕ → List ℕ → Server → Run Server
run_callbacks m i [] s = ok s
run_callbacks m i (fd ∷ fds) s = do
  (closed, s') ← timer_task (m.active i) (m.times i) fd time_out s
  run_callbacks m (i + 1) fds s'

-- `handle_timer`, with the callbacks
unfoldable pub fire_timers : ℕ → Moments → Server → Run Server
unfolding run_callbacks
fire_timers now m s =
    let (fds, c) = handle_timer now s.clock in run_callbacks m 0 fds (record s { clock = c })

abbrev pub is_idle : Moments → ℕ → Block → Bool
is_idle m i b = leb (m.active i b + time_out) (m.times i)

watches-unwatch :
    (fd g : ℕ) (ws : List ℕ) → watches g (unwatch fd ws) ≡ (if g == fd then false else watches g ws)
unfolding watches unwatch
watches-unwatch fd g [] = ground arith
watches-unwatch fd g (w ∷ ws) = ground (arith, watches-unwatch fd g ws)

-- The pool knows the descriptor.
abbrev pub Known : List (ℕ × Block) → ℕ → Type 0
Known table fd = (k : ℕ) × (find_conn fd table ≡ some (at_ k))

module _ (m : Moments) (table : List (ℕ × Block)) where
  -- The connection of the descriptor is idle, or active, whenever a callback looks at it.
  abbrev pub Idles : Bool → ℕ → Type 0
  Idles b fd = (i k : ℕ) → find_conn fd table ≡ some (at_ k) → is_idle m i (at_ k) ≡ b

  timer_task-Known :
      (i fd : ℕ) (s : Server)
      → s.pool.table ≡ table
      → (known : Known table fd)
      → Returns (timer_task (m.active i) (m.times i) fd time_out s) λ r.
        (r.1.pool.table ≡ table)
        × (r.1.watched ≡ (if is_idle m i (at_ known.0) then unwatch fd s.watched else s.watched))
  unfolding timer_task get
  timer_task-Known i fd s same (k, known) =
      let here : find_conn fd s.pool.table ≡ some (at_ k) = rw same known in
      let (r, run, ((table', _), unwatched)) = close_conn-known fd k s here in
      elim (Bool-cases (is_idle m i (at_ k))) [
        | inl idle ↦ (
          (true, r.1),
          rw (timer_task, get, here, idle, run) refl,
          (table' ∙ same, rw (idle, unwatched)),
        )
        | inr busy ↦ ((false, s), rw (timer_task, get, here, busy) refl, (same, rw busy))
      ]

  watches-if :
      (b : Bool) (fd g : ℕ) (ws : List ℕ)
      → watches g (if b then unwatch fd ws else ws)
        ≡ (if b then (if g == fd then false else watches g ws) else watches g ws)
  watches-if true fd g ws = watches-unwatch fd g ws
  watches-if false fd g ws = refl

  -- What the callbacks from the i-th on do to the descriptors that epoll watches.
  record Fires (fds : List ℕ) (s s' : Server) : Type 0 where
    same : s'.pool.table ≡ table
    closes : (g : ℕ) → Idles true g → Any (λ fd. fd ≡ g) fds → watches g s'.watched ≡ false
    opens_none : (g : ℕ) → watches g s.watched ≡ false → watches g s'.watched ≡ false
    keeps : (g : ℕ) → Idles false g → watches g s'.watched ≡ watches g s.watched

  run_callbacks-Fires :
      (i : ℕ) (fds : List ℕ) (s : Server)
      → s.pool.table ≡ table
      → All (Known table) fds
      → Returns (run_callbacks m i fds s) (Fires fds s)
  unfolding run_callbacks
  run_callbacks-Fires i [] s same known = (
    s,
    refl,
    record {
      same = same;
      closes = λ g idles any. absurd any;
      opens_none = λ g w. w;
      keeps = λ g busy. refl;
    },
  )
  run_callbacks-Fires i (fd ∷ fds) s same known =
      let (r, run, (same', first)) = timer_task-Known i fd s same known.0 in
      let (s', rest, f) = run_callbacks-Fires (i + 1) fds r.1 same' known.1 in
      let at_first =
        λ (g : ℕ). ap (watches g) first ∙ watches-if (is_idle m i (at_ known.0.0)) fd g s.watched in
      (
        s',
        rw run rest,
        record {
          same = f.same;
          closes = λ g idles any. elim any [
            | inl here ↦
                let idle =
                  idles i known.0.0
                    (subst (λ f. find_conn f table ≡ some (at_ known.0.0)) here known.0.1) in
                f.opens_none g (at_first g ∙ rw idle (ground arith))
            | inr there ↦ f.closes g idles there
          ];
          opens_none = λ g w. f.opens_none g (at_first g ∙ ground arith);
          keeps = λ g busy. f.keeps g busy ∙ at_first g ∙ elim (ℕ_discrete g fd) [
            | yes e ↦ rw (busy i known.0.0 (rw e known.0.1))
            | no other ↦ ground arith
          ];
        },
      )

-- One round of `handle_timer` on a queue that is in order and has no version 0, whose due and current
-- timers are of descriptors that the pool knows, runs all callbacks without a fault. A connection
-- with such a timer that is idle for TIME_OUT is closed, so that epoll no longer watches it; one
-- that is active is watched as before.
pub fire_timers-closes :
    (now : ℕ) (m : Moments) (s : Server) (fd : ℕ) (idle : Bool)
    → IsOrdered s.clock.queue
    → IsVersioned s.clock.queue
    → All (Known s.pool.table) (due now s.clock.versions s.clock.queue)
    → Any (λ f. f ≡ fd) (due now s.clock.versions s.clock.queue)
    → Idles m s.pool.table idle fd
    → Returns
        (fire_timers now m s)
        λ s'. watches fd s'.watched ≡ (if idle then false else watches fd s.watched)
unfolding fire_timers
fire_timers-closes now m s fd idle ordered versioned known fires idles =
    let (fired, q, v) = handle_timer-due now s.clock ordered versioned in
    let s0 = record s { clock = (handle_timer now s.clock).1 } in
    let (s', run, f) =
      run_callbacks-Fires m s.pool.table 0 (due now s.clock.versions s.clock.queue) s0 refl known in
    (s', rw fired run, fired_watches idle s' f idles)
  where
    fired_watches :
        (b : Bool) (s' : Server)
        → Fires m s.pool.table
            (due now s.clock.versions s.clock.queue)
            (record s { clock = (handle_timer now s.clock).1 })
            s'
        → Idles m s.pool.table b fd
        → watches fd s'.watched ≡ (if b then false else watches fd s.watched)
    fired_watches true s' f idles = f.closes fd idles fires
    fired_watches false s' f idles = f.keeps fd idles
