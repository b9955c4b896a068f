-- ===== src/Server/Safe.antt =====
-- Which branch of the loop handles an event.
use kvstore_epoll.Prelude.{ℕ, ◌≡◌, ◌≢◌, refl, some, true, false, ok, ◌>>=◌, Returns, arith}
use kvstore_epoll.ConnPool.Blocks.{at_, stack, find_conn, get, release}
use kvstore_epoll.Timer.Clock.{del_timer}
use kvstore_epoll.Server.Events.{Server, unwatch, close_conn, read_event}
use kvstore_epoll.Server.Signals.{del_signal}
use kvstore_epoll.Server.Loop.{Setup, World, Ready, Answer, engine_after, dispatch}

-- The event is of the pipe.
pub record IsPipe (x : Setup) (r : Ready) : Type 0 where
  pub here : r.fd ≡ x.pipe_fd
  pub whole : r.broken ≡ false

-- The map of the pool and the stop flag are as before.
abbrev pub Same : Server → Server → Type 0
Same s s' = (s'.pool.table ≡ s.pool.table) × (s'.stop ≡ s.stop)

pub close_conn-known :
    (fd k : ℕ) (s : Server)
    → find_conn fd s.pool.table ≡ some (at_ k)
    → Returns (close_conn fd s) (λ r. Same s r.1 × (r.1.watched ≡ unwatch fd s.watched))
unfolding close_conn get release
close_conn-known fd k s known = (
  (
    true,
    record s {
      watched = unwatch fd s.watched;
      pool = record (s.pool) { free_list = stack };
      clock = (del_timer fd s.clock).1;
    },
  ),
  rw (close_conn, get, known) refl,
  ((refl, refl), refl),
)

module _ (x : Setup) (r : Ready) (a : Answer) (w : World) (other : r.fd ≢ x.listen_fd) where
  pub dispatch-received :
      r.fd ≡ x.pipe_fd
      → r.broken ≡ false
      → r.input ≡ true
      → dispatch x r a w ≡ ok (record w { server = (del_signal a.received w.server).1 })
  unfolding dispatch
  dispatch-received here whole input = ground arith

  pub dispatch-read :
      r.broken ≡ false
      → r.input ≡ true
      → r.fd ≢ x.pipe_fd
      → dispatch x r a w ≡ (
          read_event x.object_size x.registry x.routes a.objects a.received a.now a.later r.fd
            w.engine w.server
          >>= λ d. ok (record { server = d.1; engine = engine_after d.0 w.engine }))
  unfolding dispatch
  dispatch-read whole input apart = ground arith
