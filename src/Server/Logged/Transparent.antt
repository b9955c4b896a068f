-- ===== src/Server/Logged/Transparent.antt =====
-- Webserver.cpp with its log: what the lines change of the server.
use kvstore_epoll.Prelude.{
  ℕ, ◌+◌, ◌≡◌, sym, subst, List, [], ◌∷◌, codes, Bool, true, false, if◌then◌else◌, leb, Run, ◌>>=◌,
  Returns, All, arith,
}
use kvstore_epoll.Log.Format.{Moment}
use kvstore_epoll.Log.Write.{KvLog, kv_log}
use kvstore_epoll.ConnPool.Blocks.{Block, get}
use kvstore_epoll.Timer.Clock.{handle_timer}
use kvstore_epoll.Server.Events.{Server, time_out, is_null, watches, timer_task}
use kvstore_epoll.Server.Loop.{
  Setup, World, Ready, Answer, Waited, interrupted, timed_out, ready, reported, handle_events,
  round, event_loop,
}
use kvstore_epoll.Server.Timers.{Moments, run_callbacks, fire_timers}
use kvstore_epoll.Server.Logged.{
  Journal, Calls, log_message, logged_handle_events, logged_round, logged_rounds, logged_event_loop,
  logged_timer_task, logged_callbacks, logged_fire_timers,
}
use kvstore_epoll.Server.Logged.Lines.{
  IsSound, Follows, AreMoments, Writes, IsSound-Writes, Follows-ok, without_log,
  Follows-without_log, kv_log-returns, Follows-if, Follows-bind, Follows-both, Follows-log,
}
use kvstore_epoll.Server.Logged.Handlers.{
  IsFd, HasFds, WaitedFds, conn_message-fits, close_conn-Follows, dispatch-Follows,
}

module _ {Good : Journal → Type 0} (env : Calls) (writes : Writes Good env) where
  handle_events-Follows :
      (x : Setup) (events : List (Ready × Answer)) (w : World) (j : Journal)
      → All HasFds events
      → Good j
      → Follows Good (handle_events x events w) (logged_handle_events env x events w j)
  unfolding handle_events logged_handle_events
  handle_events-Follows x [] w j fds sound = Follows-ok _ w j sound
  handle_events-Follows x ((r, a) ∷ rest) w j fds sound =
      Follows-if _ w.server.stop _ _ _ _ (Follows-ok _ w j sound) (
        Follows-bind _ _ _ _ _ (dispatch-Follows env writes x r a fds.0 w j sound)
          λ w' j' sound'. handle_events-Follows x rest w' j' fds.1 sound')

  reported-HasFds :
      (watched : List ℕ) (events : List (Ready × Answer))
      → All HasFds events
      → All HasFds (reported watched events)
  unfolding reported
  reported-HasFds watched [] fds = tt
  reported-HasFds watched (event ∷ rest) (here, fds) =
      let others = reported-HasFds watched rest fds in
      elim (watches event.0.fd watched)
        as (λ b. All HasFds (if b then event ∷ reported watched rest else reported watched rest)) [
          | true ↦ (here, others)
          | false ↦ others
        ]

  round-Follows :
      (x : Setup) (waited : Waited) (w : World) (j : Journal)
      → WaitedFds waited
      → Good j
      → Follows Good (round x waited w) (logged_round env x waited w j)
  unfolding round logged_round
  round-Follows x interrupted w j fds sound = Follows-ok _ w j sound
  round-Follows x timed_out w j fds sound = Follows-ok _ w j sound
  round-Follows x (ready events) w j fds sound =
      handle_events-Follows x (reported w.server.watched events) w j
        (reported-HasFds w.server.watched events fds) sound

  pub rounds-Follows :
      (x : Setup) (waits : List Waited) (w : World) (j : Journal)
      → All WaitedFds waits
      → Good j
      → Follows Good (event_loop x waits w) (logged_rounds env x waits w j)
  unfolding event_loop logged_rounds
  rounds-Follows x [] w j fds sound = Follows-ok _ w j sound
  rounds-Follows x (waited ∷ rest) w j fds sound =
      Follows-if _ w.server.stop _ _ _ _ (Follows-ok _ w j sound) (
        Follows-bind _ _ _ _ _ (round-Follows x waited w j fds.0 sound)
          λ w' j' sound'. rounds-Follows x rest w' j' fds.1 sound')

  pub event_loop-Follows :
      (m : Moment) (opens : Bool) (x : Setup) (waits : List Waited) (w : World)
      → All WaitedFds waits
      → Returns (kv_log m opens) (λ r. Good (record { log = r.1; calls = 0 }))
      → Follows Good (event_loop x waits w) (logged_event_loop m opens env x waits w)
  unfolding logged_event_loop
  event_loop-Follows m opens x waits w fds ((opened, l), run, sound) =
      subst
        (λ (t : Run (Bool × KvLog)). Follows Good (event_loop x waits w) (
          t >>= λ r.
          log_message env 1 (codes "server start") (record { log = r.1; calls = 0 })
          >>= logged_rounds env x waits w))
        (sym run)
        (Follows-log env writes 1 (codes "server start") (record { log = l; calls = 0 }) _ _
          (omega arith) sound λ j sound'. rounds-Follows x waits w j fds sound')

  timer_task-Follows :
      (active : Block → ℕ) (now fd timeout : ℕ) (s : Server) (j : Journal)
      → IsFd fd
      → Good j
      → Follows Good
          (timer_task active now fd timeout s)
          (logged_timer_task env active now fd timeout s j)
  unfolding timer_task logged_timer_task
  timer_task-Follows active now fd timeout s j small sound =
      Follows-both _ (get fd s.pool) _ _ λ conn.
        Follows-if _ (is_null conn) _ _ _ _ (Follows-ok _ (false, s) j sound) (
          Follows-if _ (leb (active conn + timeout) now) _ _ _ _
            (Follows-log env writes 3 _ j _ _
              (conn_message-fits [] (codes " timeout") fd small (omega arith) (omega arith)) sound
              λ j' sound'.
                Follows-bind _ _ _ _ _ (close_conn-Follows env writes fd s j' small sound')
                  λ c j'' sound''. Follows-ok _ _ j'' sound'')
            (Follows-ok _ (false, s) j sound))

  callbacks-Follows :
      (m : Moments) (i : ℕ) (fds : List ℕ) (s : Server) (j : Journal)
      → All IsFd fds
      → Good j
      → Follows Good (run_callbacks m i fds s) (logged_callbacks env m i fds s j)
  unfolding run_callbacks logged_callbacks
  callbacks-Follows m i [] s j small sound = Follows-ok _ s j sound
  callbacks-Follows m i (fd ∷ fds) s j small sound =
      Follows-bind _ _ _ _ _
        (timer_task-Follows (m.active i) (m.times i) fd time_out s j small.0 sound)
        λ c j' sound'. callbacks-Follows m (i + 1) fds c.1 j' small.1 sound'

  fire_timers-Follows :
      (now : ℕ) (m : Moments) (s : Server) (j : Journal)
      → All IsFd (handle_timer now s.clock).0
      → Good j
      → Follows Good (fire_timers now m s) (logged_fire_timers env now m s j)
  unfolding fire_timers logged_fire_timers
  fire_timers-Follows now m s j small sound = callbacks-Follows m 0 _ _ j small sound

-- The log does not change what the server does. The event loop with its log lines, from a log that
-- the first line makes, ends in the same world as the loop without them, or with the same fault, for
-- every schedule: files may fail to open and the day may change. The times are times of day in a
-- year of four digits, and each descriptor is below 2 ^ 31.
pub event_loop-logged :
    (env : Calls) (m : Moment) (opens : Bool) (x : Setup) (waits : List Waited) (w : World)
    → AreMoments env
    → All WaitedFds waits
    → without_log (logged_event_loop m opens env x waits w) ≡ event_loop x waits w
event_loop-logged env m opens x waits w moments fds = Follows-without_log _ _ _ (
    event_loop-Follows env (IsSound-Writes env moments) m opens x waits w fds
      (kv_log-returns m opens))

-- The same holds of a round of the timers with a log that has the limits of the constructor.
pub fire_timers-logged :
    (env : Calls) (now : ℕ) (m : Moments) (s : Server) (j : Journal)
    → AreMoments env
    → All IsFd (handle_timer now s.clock).0
    → IsSound j
    → without_log (logged_fire_timers env now m s j) ≡ fire_timers now m s
fire_timers-logged env now m s j moments fds sound =
    Follows-without_log _ _ _
      (fire_timers-Follows env (IsSound-Writes env moments) now m s j fds sound)
