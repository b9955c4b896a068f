-- ===== src/Server/Loop.antt =====
-- Webserver.cpp, `EventLoop`. The environment is the schedule: what each `epoll_wait` returns, with
-- the answers of the system calls that the handling of each event makes and the memory of the pool
-- at that time.
use kvstore_epoll.Prelude.{
  ℕ, List, [], ◌∷◌, Bytes, Bool, ◌&&◌, if◌then◌else◌, ◌==◌, Run, ok, ◌>>=◌, ℤ,
}
use kvstore_epoll.Hash.Table.{Engine}
use kvstore_epoll.Http.Factory.{Registry}
use kvstore_epoll.Connection.{ConnectionInfo, Received}
use kvstore_epoll.Router.Task.{Handler}
use kvstore_epoll.ConnPool.Blocks.{Block}
use kvstore_epoll.Server.Events.{
  Server, Dealt, missing, ended, refused, handled, watches, accept_event, close_conn, read_event,
}
use kvstore_epoll.Server.Signals.{del_signal}

-- What stays as it is while the loop runs.
pub record Setup : Type 0 where
  pub listen_fd : ℕ
  pub pipe_fd : ℕ
  pub object_size : ℕ
  pub registry : Registry
  pub routes : List (Bytes × Handler)

pub record World : Type 0 where
  pub server : Server
  pub engine : Engine

-- An `epoll_event`: its descriptor, whether an error or a hang-up is reported, and EPOLLIN.
pub record Ready : Type 0 where
  pub fd : ℕ
  pub broken : Bool
  pub input : Bool

-- What `accept` and `recv` return and the time at two moments, if the handling asks for them, and
-- what objects read as that share bytes with one that is written.
pub record Answer : Type 0 where
  pub accepted : ℤ
  pub received : Received
  pub now : ℕ
  pub later : ℕ
  pub objects : Block → ConnectionInfo

-- What `epoll_wait` returns: a negative number, 0, or events.
pub data Waited : Type 0 where
  interrupted : Waited
  timed_out : Waited
  ready : List (Ready × Answer) → Waited

-- The store after a read.
abbrev pub engine_after : Dealt → Engine → Engine
engine_after missing e = e
engine_after (ended c) e = e
engine_after (refused c) e = e
engine_after (handled r) e = r.engine

-- The body of the `for` loop.
unfoldable pub dispatch : Setup → Ready → Answer → World → Run World
dispatch x r a w =
    if r.fd == x.listen_fd
    then (do
      s ← accept_event x.object_size a.now a.objects a.accepted w.server
      ok (record w { server = s }))
    else if r.broken
    then (do (closed, s) ← close_conn r.fd w.server; ok (record w { server = s }))
    else if (r.fd == x.pipe_fd) && r.input
    then ok (record w { server = (del_signal a.received w.server).1 })
    else if r.input
    then (do
      (dealt, s) ←
          read_event x.object_size x.registry x.routes a.objects a.received a.now a.later r.fd
            w.engine w.server
      ok (record { server = s; engine = engine_after dealt w.engine }))
    else ok w

-- `for (int i = 0; i < ret; i++)`, which breaks off when the stop flag is set.
unfoldable pub handle_events : Setup → List (Ready × Answer) → World → Run World
handle_events x [] w = ok w
handle_events x ((r, a) ∷ rest) w =
    let handle = dispatch x r a w >>= handle_events x rest in if w.server.stop then ok w else handle

-- `epoll_wait` reports descriptors that are watched only.
unfoldable pub reported : List ℕ → List (Ready × Answer) → List (Ready × Answer)
reported watched [] = []
reported watched (event ∷ rest) =
    let others = reported watched rest in
    if watches event.0.fd watched then event ∷ others else others

-- One round of the `while` loop, after `epoll_wait`
unfoldable pub round : Setup → Waited → World → Run World
unfolding handle_events reported
round x interrupted w = ok w
round x timed_out w = ok w
round x (ready events) w = handle_events x (reported w.server.watched events) w

-- `while (!_stop_flag)`, for as many rounds as the schedule has.
unfoldable pub event_loop : Setup → List Waited → World → Run World
event_loop x [] w = ok w
event_loop x (waited ∷ rest) w =
    let go_on = round x waited w >>= event_loop x rest in if w.server.stop then ok w else go_on
