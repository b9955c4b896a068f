-- ===== src/Server/Closed.antt =====
-- What is left of a connection that has ended.
use kvstore_epoll.Prelude.{
  ℕ, ℤ, negsuc, ◌+◌, ◌≡◌, refl, some, List, Bytes, true, ◌||◌, pos, fault, wild_pointer, ok, ◌>>=◌,
  is_negative, is_zero, Returns, arith,
}
use kvstore_epoll.Hash.Table.{Engine}
use kvstore_epoll.Http.Factory.{Registry}
use kvstore_epoll.Connection.{ConnectionInfo, Received, read}
use kvstore_epoll.Router.Task.{Handler}
use kvstore_epoll.ConnPool.Blocks.{Block, at_, stack, acquire, get, release}
use kvstore_epoll.Timer.Clock.{lookup, version_of, push, del_timer, mod_timer}
use kvstore_epoll.Timer.Fired.{queue-mod, lookup-mod, version_of-insert}
use kvstore_epoll.Server.Events.{
  Server, ended, time_out, unwatch, deal_new_conn, accept_event, close_conn, close_ended, read_conn,
  read_event, recv_on, objects_after,
}

module _ (s : Server) (fd k v : ℕ) (conn : get fd s.pool ≡ ok (at_ k))
    (known : lookup fd s.clock.versions ≡ some v) where
  abbrev closed : Server
  closed = record s {
    watched = unwatch fd s.watched;
    pool = record (s.pool) { free_list = stack };
    clock = (del_timer fd s.clock).1;
  }

  -- `close_conn` of a connection that the pool knows runs to its end: the descriptor is no longer
  -- watched, its timers are deleted, and the free list begins on the stack.
  close_conn-closed : close_conn fd s ≡ ok (true, closed)
  unfolding close_conn release
  close_conn-closed = rw conn refl

  version_of-closed : version_of fd closed.clock.versions ≡ 0
  unfolding del_timer
  version_of-closed =
      rw (del_timer, known, version_of-insert fd fd 0 s.clock.versions) (ground arith)

  queue-closed : closed.clock.queue ≡ s.clock.queue
  unfolding del_timer
  queue-closed = rw (del_timer, known) refl

  -- A read that ends a connection does so whatever descriptor its object has.
  recv_on-over :
      (fd' : ℤ) (received : Received) (now : ℕ) (c : ConnectionInfo)
      → (is_negative (read received now c).0 || is_zero (read received now c).0) ≡ true
      → let r = (read (recv_on fd' received) now c).0 in (is_negative r || is_zero r) ≡ true
  unfolding read
  recv_on-over (pos n) received now c over = over
  recv_on-over (negsuc n) received now c over = refl

  -- When a read of a connection that the pool and the timers know ends it, the loop's branch for
  -- reading closes and releases it, so that the free list begins on the stack; but it then adds a
  -- timer for the descriptor, of version 1, and makes 1 the current version.
  pub read_event-ended :
      (object_size : ℕ) (registry : Registry) (routes : List (Bytes × Handler))
      (others : Block → ConnectionInfo) (received : Received) (now later : ℕ) (e : Engine)
      → (is_negative (read received now (s.objects (at_ k))).0
          || is_zero (read received now (s.objects (at_ k))).0)
        ≡ true
      → Returns (read_event object_size registry routes others received now later fd e s) λ r.
        (r.1.watched ≡ unwatch fd s.watched)
        × (r.1.pool.free_list ≡ stack)
        × (lookup fd r.1.clock.versions ≡ some 1)
        × (r.1.clock.queue
            ≡ push
                (record {
                  timer_id = fd;
                  expire_time = later + time_out;
                  callback = some fd;
                  version = 1;
                })
                s.clock.queue)
  unfolding read_event close_ended read_conn
  read_event-ended object_size registry routes others received now later e over =
      let over' = recv_on-over (s.objects (at_ k)).fd received now (s.objects (at_ k)) over in
      let c = (read (recv_on (s.objects (at_ k)).fd received) now (s.objects (at_ k))).1 in
      let clock = (mod_timer later fd time_out (some fd) closed.clock).1 in
      (
        (
          ended c,
          record closed {
            clock = clock;
            objects = objects_after object_size (at_ k) (ended c) others s;
          },
        ),
        rw (conn, ◌>>=◌, over', close_conn-closed) refl,
        (
          refl,
          refl,
          rw (lookup-mod later fd time_out (some fd) closed.clock fd, version_of-closed)
              (ground arith),
          rw (queue-mod later fd time_out (some fd) closed.clock, version_of-closed, queue-closed)
              refl,
        ),
      )

  -- After `close_conn` of a connection that the pool and the timers know, the handling of the next
  -- connection that `accept` gives follows the head of the free list, the address of a variable that
  -- is gone, whatever the descriptor and the size of an object are.
  pub close_conn-accept_event :
      (object_size now new_fd : ℕ) (others : Block → ConnectionInfo)
      → Returns
          (close_conn fd s)
          λ r. accept_event object_size now others (pos new_fd) r.1 ≡ fault wild_pointer
  unfolding accept_event deal_new_conn acquire
  close_conn-accept_event object_size now new_fd others = ((true, closed), close_conn-closed, refl)
