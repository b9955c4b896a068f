-- ===== src/Tests/Rounds.antt =====
-- Rounds of the event loop and of the timers, and a start of the server.
use kvstore_epoll.Prelude.{
  ◌↔◌, Any, ◌≡◌, refl, inl, some, [], ◌∷◌, true, false, if◌then◌else◌, pos, Returns, arith,
}
use kvstore_epoll.Connection.{bytes}
use kvstore_epoll.ConnPool.Blocks.{at_, find_conn}
use kvstore_epoll.Timer.Clock.{lookup, collect}
use kvstore_epoll.Timer.Fired.{is_current, due}
use kvstore_epoll.Server.Events.{Server, watches}
use kvstore_epoll.Server.Signals.{IsStop, sent, del_signal, del_signal-sent}
use kvstore_epoll.Server.Loop.{Ready, Answer}
use kvstore_epoll.Server.Timers.{Moments, fire_timers, fire_timers-closes}
use kvstore_epoll.Server.Start.{Boot, IsBoot}
use kvstore_epoll.Tests.Events.{server, new_conn}

del_signal-sent_example :
    let s' = (del_signal (bytes (sent (1 ∷ 2 ∷ []) [])) server).1 in
    (s' ≡ record server { stop = s'.stop }) × ((s'.stop ≡ true) ↔ Any IsStop (1 ∷ 2 ∷ []))
del_signal-sent_example = del_signal-sent (1 ∷ 2 ∷ []) server (omega arith, (omega arith, tt)) refl

-- The pipe is 4; it brings SIGINT.
abbrev pub signalled : Ready × Answer
signalled = (
  record { fd = 4; broken = false; input = true },
  record {
    accepted = pos 0;
    received = bytes (sent (2 ∷ []) []);
    now = 7;
    later = 8;
    objects = λ block. new_conn;
  },
)

conn_known : find_conn 5 server.pool.table ≡ some (at_ 0)
unfolding find_conn
conn_known = refl

-- Both callbacks of a round find the connections as active as they were at time 7.
abbrev moments : Moments
moments = record { times = λ i. 70; active = λ i block. 7 }

-- The timer of descriptor 5 is due.
abbrev timed : Server
timed = record server {
  clock = record {
    queue = record { timer_id = 5; expire_time = 67; callback = some 5; version = 3 } ∷ [];
    versions = (5, 3) ∷ [];
  };
}

version_known : lookup 5 timed.clock.versions ≡ some 3
unfolding lookup
version_known = refl

timed-due : due 70 timed.clock.versions timed.clock.queue ≡ 5 ∷ []
unfolding due is_current lookup collect
timed-due = refl

fire_timers-closes_example :
    Returns
      (fire_timers 70 moments timed)
      λ s'. watches 5 s'.watched ≡ (if true then false else watches 5 timed.watched)
fire_timers-closes_example =
    fire_timers-closes 70 moments timed 5 true (tt, tt) ((λ e. omega arith), tt)
      (rw timed-due ((0, conn_known), tt)) (rw timed-due (inl refl)) (λ i k e. refl)

abbrev pub boot : Boot
boot = record {
  epoll_create = pos 5;
  socket_calls = record { socket = pos 3; setsockopt = pos 0; bind = pos 0; listen = pos 0 };
  pool_granted = true;
  socketpair = pos 0;
  pipe_fd = 4;
  pipe_write = 7;
  epoll_ctl = λ epfd op fd events. pos 0;
  sigaction = λ signal sa. true;
  memory = λ block. new_conn;
}

pub boot-IsBoot : IsBoot boot 3
boot-IsBoot = record {
  created = refl;
  socket_ok = refl;
  listen_eq = refl;
  paired = refl;
  added = λ epfd fd. refl;
  signals = λ signal sa. refl;
}
