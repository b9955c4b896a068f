-- ===== src/Server/Logged.antt =====
-- Webserver.cpp and log/Log.h: the event loop and the callbacks of the timers with their LOG_INFO and
-- LOG_ERROR lines. The environment gives, for each call of `write_log`, the local time and whether a
-- file opens.
use kvstore_epoll.Prelude.{
  ℕ, ◌+◌, some, List, [], ◌∷◌, ◌++◌, Bytes, codes, Bool, true, false, ◌||◌, ◌&&◌, if◌then◌else◌,
  leb, ◌==◌, Run, ok, ◌>>=◌, ℤ,
}
use kvstore_epoll.Kvstore.Decimal.{print_decimal}
use kvstore_epoll.Log.Format.{Moment}
use kvstore_epoll.Log.Write.{KvLog, kv_log, write_log}
use kvstore_epoll.Hash.Table.{Engine}
use kvstore_epoll.Connection.{ConnectionInfo}
use kvstore_epoll.ConnPool.Blocks.{Block, get}
use kvstore_epoll.Timer.Clock.{add_timer, mod_timer, handle_timer}
use kvstore_epoll.Server.Events.{
  webserver_add_timer, webserver_mod_timer, Server, Dealt, missing, ended, refused, handled,
  time_out, is_null, objects_after, deal_new_conn, close_conn, read_conn, recv_on,
}
use kvstore_epoll.Server.Signals.{del_signal}
use kvstore_epoll.Server.Loop.{
  Setup, World, Ready, Answer, Waited, interrupted, timed_out, ready, reported, engine_after,
}
use kvstore_epoll.Server.Timers.{Moments}
pub mod Lines
pub mod Handlers
pub mod Transparent
pub mod Written

-- LOG_FLAG
abbrev pub log_flag : Bool
log_flag = true

-- The log, and how often `write_log` was called.
pub record Journal : Type 0 where
  pub log : KvLog
  pub calls : ℕ

abbrev pub Calls : Type 0
Calls = ℕ → Moment × Bool

-- LOG_INFO has the level 1, LOG_ERROR the level 3. `flush_log` leaves the log as it is.
unfoldable pub log_message : Calls → ℕ → Bytes → Journal → Run Journal
log_message env level message j =
    if log_flag
    then (do
      l ← write_log (env j.calls).0 (env j.calls).1 level message j.log
      ok (record { log = l; calls = j.calls + 1 }))
    else ok j

-- "<text> conn fd: %d<rest>"
unfoldable pub conn_message : Bytes → ℕ → Bytes → Bytes
conn_message text fd rest = text ++ (codes "conn fd: " ++ (print_decimal fd ++ rest))

unfoldable pub logged_close_conn : Calls → ℕ → Server → Journal → Run ((Bool × Server) × Journal)
logged_close_conn env fd s j = do
  (closed, s') ← close_conn fd s
  j' ← if closed then log_message env 1 (conn_message (codes "close ") fd []) j else ok j
  ok ((closed, s'), j')

-- The branch of the event loop for the listening socket.
unfoldable pub logged_accept_event :
    Calls → ℕ → ℕ → (Block → ConnectionInfo) → ℤ → Server → Journal → Run (Server × Journal)
logged_accept_event env object_size now others accepted s j = do
  (fd, s') ← deal_new_conn object_size now others accepted s
  j' ← log_message env 1 (conn_message (codes "add_timer ") fd []) j
  ok ((webserver_add_timer now fd time_out 1 s').1, j')

-- The end of `deal_Read`.
unfoldable pub logged_close_ended :
    Calls → ℕ → Dealt → Server → Journal → Run ((Bool × Server) × Journal)
logged_close_ended env fd missing s j = ok ((false, s), j)
logged_close_ended env fd (ended c) s j = do
  ((closed, s'), j') ← logged_close_conn env fd s j
  j'' ← log_message env 3 (conn_message (codes "close ") fd []) j'
  ok ((false, s'), j'')
logged_close_ended env fd (refused c) s j = ok ((false, s), j)
logged_close_ended env fd (handled r) s j = ok ((true, s), j)

-- `deal_Read`, then `mod_timer`
unfoldable pub logged_read_event :
    Calls → Setup → Ready → Answer → Engine → Server → Journal → Run ((Dealt × Server) × Journal)
logged_read_event env x r a e s j = do
  conn ← get r.fd s.pool
  (dealt, j1) ←
      (if is_null conn then ok (missing, j) else (do
        j' ← log_message env 1 (conn_message (codes "deal_Read ") r.fd []) j
        d ←
            read_conn x.registry x.routes (recv_on (s.objects conn).fd a.received) a.now a.later
              (s.objects conn) e
        ok (d, j')))
  ((success, s'), j2) ← logged_close_ended env r.fd dealt s j1
  let written = record s' { objects = objects_after x.object_size conn dealt a.objects s }
  let s'' = (webserver_mod_timer a.later r.fd time_out written).1
  j3 ← log_message env 1 (conn_message (codes "mod_timer ") r.fd []) j2
  ok ((dealt, s''), j3)

-- The body of the `for` loop.
unfoldable pub logged_dispatch :
    Calls → Setup → Ready → Answer → World → Journal → Run (World × Journal)
logged_dispatch env x r a w j =
    if r.fd == x.listen_fd
    then (do
      (s, j') ← logged_accept_event env x.object_size a.now a.objects a.accepted w.server j
      ok (record w { server = s }, j'))
    else if r.broken
    then (do
      ((closed, s), j') ← logged_close_conn env r.fd w.server j
      j'' ← log_message env 3 (conn_message (codes "close ") r.fd []) j'
      ok (record w { server = s }, j''))
    else if (r.fd == x.pipe_fd) && r.input
    then (do
      let (success, s) = del_signal a.received w.server
      j' ← if success then ok j else log_message env 3 (codes "del_signal failed") j
      ok (record w { server = s }, j'))
    else if r.input
    then (do
      ((dealt, s), j') ← logged_read_event env x r a w.engine w.server j
      ok (record { server = s; engine = engine_after dealt w.engine }, j'))
    else ok (w, j)

unfoldable pub logged_handle_events :
    Calls → Setup → List (Ready × Answer) → World → Journal → Run (World × Journal)
logged_handle_events env x [] w j = ok (w, j)
logged_handle_events env x ((r, a) ∷ rest) w j =
    let handle = logged_dispatch env x r a w j >>= λ d. logged_handle_events env x rest d.0 d.1 in
    if w.server.stop then ok (w, j) else handle

-- One round of the `while` loop
unfoldable pub logged_round : Calls → Setup → Waited → World → Journal → Run (World × Journal)
logged_round env x interrupted w j = ok (w, j)
logged_round env x timed_out w j = ok (w, j)
logged_round env x (ready events) w j =
    logged_handle_events env x (reported w.server.watched events) w j

-- `while (!_stop_flag)`
unfoldable pub logged_rounds : Calls → Setup → List Waited → World → Journal → Run (World × Journal)
logged_rounds env x [] w j = ok (w, j)
logged_rounds env x (waited ∷ rest) w j =
    let go_on = logged_round env x waited w j >>= λ d. logged_rounds env x rest d.0 d.1 in
    if w.server.stop then ok (w, j) else go_on

-- `EventLoop`. Its first line is the first of the process, so that `get_instance` makes the log, with
-- the time and the opening of its first file.
unfoldable pub logged_event_loop :
    Moment → Bool → Calls → Setup → List Waited → World → Run (World × Journal)
logged_event_loop m opens env x waits w = do
  (opened, l) ← kv_log m opens
  j ← log_message env 1 (codes "server start") (record { log = l; calls = 0 })
  logged_rounds env x waits w j

-- The callback of a timer.
unfoldable pub logged_timer_task :
    Calls → (Block → ℕ) → ℕ → ℕ → ℕ → Server → Journal → Run ((Bool × Server) × Journal)
logged_timer_task env active now fd timeout s j = do
  conn ← get fd s.pool
  if is_null conn
      then ok ((false, s), j)
      else if leb (active conn + timeout) now
      then (do
        j' ← log_message env 3 (conn_message [] fd (codes " timeout")) j
        ((closed, s'), j'') ← logged_close_conn env fd s j'
        ok ((true, s'), j''))
      else ok ((false, s), j)

unfoldable pub logged_callbacks :
    Calls → Moments → ℕ → List ℕ → Server → Journal → Run (Server × Journal)
logged_callbacks env m i [] s j = ok (s, j)
logged_callbacks env m i (fd ∷ fds) s j = do
  ((closed, s'), j') ← logged_timer_task env (m.active i) (m.times i) fd time_out s j
  logged_callbacks env m (i + 1) fds s' j'

-- `handle_timer`, with the callbacks
unfoldable pub logged_fire_timers : Calls → ℕ → Moments → Server → Journal → Run (Server × Journal)
logged_fire_timers env now m s j =
    let (fds, c) = handle_timer now s.clock in
    logged_callbacks env m 0 fds (record s { clock = c }) j
