-- ===== src/Tests/Events.antt =====
-- The handlers of the event loop.
use kvstore_epoll.Prelude.{
  ◌+◌, ◌≡◌, refl, none, some, [], ◌∷◌, codes, true, false, ◌||◌, arith, ok, fault, wild_pointer,
  Returns, pos, is_negative, is_zero,
}
use kvstore_epoll.Hash.Index.{ascii-IsIndexed}
use kvstore_epoll.Kvstore.Commands.{Command, IsCommand, hset}
use kvstore_epoll.Http.Factory.{registrations}
use kvstore_epoll.RingBuffer.{ring_buffer_size, fresh}
use kvstore_epoll.Connection.{ConnectionInfo, failed, read}
use kvstore_epoll.Router.Task.{routes, pad}
use kvstore_epoll.ConnPool.Blocks.{at_, stack, conn_pool, get, find_conn}
use kvstore_epoll.Timer.Clock.{lookup, push}
use kvstore_epoll.Server.Events.{Server, time_out, unwatch, accept_event, close_conn, read_event}
use kvstore_epoll.Server.Closed.{read_event-ended, close_conn-accept_event}
use kvstore_epoll.Tests.Sample.{sample}

-- A new connection, with buffers of zeros.
abbrev pub new_conn : ConnectionInfo
new_conn = record {
  fd = pos 5;
  read_buffer = fresh (pad ring_buffer_size []);
  write_buffer = fresh (pad ring_buffer_size []);
  request = none;
  last_active_time = 0;
}

abbrev pub set_b : Command
set_b = hset (codes "b") (codes "2")

pub set_b-IsCommand : IsCommand set_b
set_b-IsCommand = (
  ((λ e. cc), omega arith),
  (ascii-IsIndexed (codes "b") (omega arith)).0,
  ((λ e. cc), omega arith),
)

-- A server with one connection, of descriptor 5.
abbrev pub server : Server
server = record {
  watched = 5 ∷ [];
  handlers = [];
  pool = record (conn_pool 10240 1024 true) { free_list = at_ 1; table = (5, at_ 0) ∷ [] };
  objects = λ info. new_conn;
  clock = record { queue = []; versions = (5, 3) ∷ [] };
  stop = false;
}

known_conn : get 5 server.pool ≡ ok (at_ 0)
unfolding get find_conn
known_conn = refl

known_version : lookup 5 server.clock.versions ≡ some 3
unfolding lookup
known_version = refl

failed-over : (is_negative (read failed 7 new_conn).0 || is_zero (read failed 7 new_conn).0) ≡ true
unfolding read
failed-over = refl

read_event-ended_example :
    Returns
      (read_event 2104 registrations routes (λ info. new_conn) failed 7 8 5 sample server)
      λ r.
        (r.1.watched ≡ unwatch 5 (5 ∷ []))
        × (r.1.pool.free_list ≡ stack)
        × (lookup 5 r.1.clock.versions ≡ some 1)
        × (r.1.clock.queue
            ≡ push
                (record {
                  timer_id = 5;
                  expire_time = 8 + time_out;
                  callback = some 5;
                  version = 1;
                })
                [])
read_event-ended_example =
    read_event-ended server 5 0 3 known_conn known_version 2104 registrations routes
      (λ info. new_conn) failed 7 8 sample failed-over

close_conn-accept_event_example :
    Returns
      (close_conn 5 server)
      λ r. accept_event 2104 9 (λ info. new_conn) (pos 6) r.1 ≡ fault wild_pointer
close_conn-accept_event_example =
    close_conn-accept_event server 5 0 3 known_conn known_version 2104 9 6 (λ info. new_conn)
