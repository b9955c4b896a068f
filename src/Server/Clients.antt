-- ===== src/Server/Clients.antt =====
-- A client of the server, from `accept` to the answer of its first request.
use kvstore_epoll.Prelude.{
  Bytes, true, ==_refl, ◌==◌, ℕ, ◌*◌, ◌≤◌, ◌≡◌, ◌≢◌, ◌∙◌, refl, ap, none, some, ◌∷◌, All, length,
  ok, ◌>>=◌, pos, Returns, arith,
}
use kvstore_epoll.Memory.{NeverFails}
use kvstore_epoll.Hash.Table.{Engine}
use kvstore_epoll.Hash.View.{IsValid}
use kvstore_epoll.Kvstore.Commands.{Command, IsCommand}
use kvstore_epoll.Kvstore.Session.{text_of}
use kvstore_epoll.RingBuffer.{ring_buffer_size}
use kvstore_epoll.Http.Factory.{registrations}
use kvstore_epoll.Connection.{ConnectionInfo, bytes, read}
use kvstore_epoll.Router.Task.{Outcome, routes}
use kvstore_epoll.Router.Answers.{Answers}
use kvstore_epoll.ConnPool.Blocks.{Block, at_, acquire, find_conn, add_map, get, construct}
use kvstore_epoll.Timer.Clock.{lookup, version_of, add_timer, mod_timer}
use kvstore_epoll.Timer.Fired.{lookup-mod, version_of-insert}
use kvstore_epoll.Server.Events.{
  put_object, objects_after, conn_after, Dealt, Server, handled, new_connection, time_out,
  deal_new_conn, accept_event, close_ended, read_event,
}
use kvstore_epoll.Server.Posts.{post_text, received, post-Answers}

fd-received : (fd start now : ℕ) (body : Bytes) → (received fd start now body).fd ≡ pos fd
unfolding read new_connection
fd-received fd start now body = ground arith

module _ (object_size start fd k : ℕ) (others : Block → ConnectionInfo) (s : Server)
    (free : s.pool.free_list ≡ at_ k) (unknown : find_conn fd s.pool.table ≡ none) where
  -- The server after a connection has been accepted.
  abbrev pub accepted : Server
  accepted = record s {
    watched = fd ∷ s.watched;
    pool = record (s.pool) {
      free_list = s.pool.next k;
      next = construct object_size s.pool.block_size k s.pool.next;
      table = (fd, at_ k) ∷ s.pool.table;
    };
    objects =
        put_object object_size s.pool.block_size (at_ k) (new_connection fd start) others s.objects;
    clock = (add_timer start fd time_out (some fd) 1 s.clock).1;
  }

  pub accept_event-accepted : accept_event object_size start others (pos fd) s ≡ ok accepted
  unfolding accept_event deal_new_conn acquire add_map
  accept_event-accepted = rw (free, add_map, unknown) refl

  get-accepted : get fd accepted.pool ≡ ok (at_ k)
  unfolding get find_conn
  get-accepted = ground arith

  -- The object that was built stands in its block.
  pub object-accepted : accepted.objects (at_ k) ≡ new_connection fd start
  unfolding put_object
  object-accepted = ground arith

  object-read :
      (dealt : Dealt) (others' : Block → ConnectionInfo)
      → objects_after object_size (at_ k) dealt others' accepted (at_ k)
        ≡ conn_after dealt (new_connection fd start)
  unfolding put_object
  object-read dealt others' = let same : (k == k) ≡ true = ==_refl k in rw same refl

  version_of-accepted : version_of fd accepted.clock.versions ≡ 1
  unfolding add_timer
  version_of-accepted = rw (version_of-insert fd fd 1 s.clock.versions) (ground arith)

  lookup-read :
      (later : ℕ)
      → lookup fd (mod_timer later fd time_out (some fd) accepted.clock).1.versions ≡ some 2
  lookup-read later =
      rw (lookup-mod later fd time_out (some fd) accepted.clock fd, version_of-accepted)
        (ground arith)

  -- The first read of that connection.
  pub read_event-Answers :
      (now later : ℕ) (others' : Block → ConnectionInfo) {e : Engine} (cmd : Command)
      → All (λ b. b ≢ 0) (text_of cmd)
      → 2 * length (post_text (text_of cmd)) ≤ ring_buffer_size
      → IsCommand cmd
      → IsValid e
      → NeverFails e.heap
      → Returns
          (read_event object_size registrations routes others'
            (bytes (post_text (text_of cmd)))
            now
            later
            fd
            e
            accepted)
          λ (dealt, s').
            ((r : Outcome) × (dealt ≡ handled r)
              × Answers (received fd start now (text_of cmd)) 0 cmd e r)
            × (s' ≡ record accepted {
              objects = objects_after object_size (at_ k) dealt others' accepted;
              clock = (mod_timer later fd time_out (some fd) accepted.clock).1;
            })
  unfolding read_event close_ended new_connection
  read_event-Answers now later others' {e} cmd plain fits is valid memory =
      let (d, run, (r, is_r, a, active)) =
        post-Answers fd start now later cmd plain fits is valid memory in
      (
        (
          d,
          record accepted {
            objects = objects_after object_size (at_ k) d others' accepted;
            clock = (mod_timer later fd time_out (some fd) accepted.clock).1;
          },
        ),
        rw (get-accepted, ◌>>=◌, object-accepted, run, is_r) refl,
        ((r, is_r, a), refl),
      )

-- A client whose connection is accepted, with a block at hand for it and its descriptor not in the
-- pool's map, and whose first request is a command as a POST, in at most half of the buffer's bytes
-- and with no NUL in the command, is answered on a valid table with memory at hand: the map changes
-- as the specification says, the answer stands at the start of the write buffer, the table stays
-- valid; the descriptor is watched, the pool gives its block for it, its current timer is the second
-- one, and the object in the block has its descriptor.
pub accept-read-Answers :
    (object_size start now later fd k : ℕ) (others others' : Block → ConnectionInfo) (s : Server)
    {e : Engine} (cmd : Command)
    → s.pool.free_list ≡ at_ k
    → find_conn fd s.pool.table ≡ none
    → All (λ b. b ≢ 0) (text_of cmd)
    → 2 * length (post_text (text_of cmd)) ≤ ring_buffer_size
    → IsCommand cmd
    → IsValid e
    → NeverFails e.heap
    → Returns
        (accept_event object_size start others (pos fd) s
          >>= read_event object_size registrations routes others'
              (bytes (post_text (text_of cmd)))
              now
              later
              fd
              e)
        λ (dealt, s').
          ((r : Outcome) × (dealt ≡ handled r)
            × Answers (received fd start now (text_of cmd)) 0 cmd e r)
          × (s'.watched ≡ fd ∷ s.watched)
          × (get fd s'.pool ≡ ok (at_ k))
          × (lookup fd s'.clock.versions ≡ some 2)
          × ((s'.objects (at_ k)).fd ≡ pos fd)
accept-read-Answers object_size start now later fd k others others' s {e} cmd free unknown plain
      fits is valid memory =
    let ((d, s'), run, (answered, same)) =
      read_event-Answers object_size start fd k others s free unknown now later others' cmd plain
        fits is valid memory in
    let (r, is_r, a) = answered in
    (
      (d, s'),
      rw (accept_event-accepted object_size start fd k others s free unknown) run,
      (
        answered,
        ap (λ (t : Server). t.watched) same,
        ap (λ (t : Server). get fd t.pool) same
            ∙ get-accepted object_size start fd k others s free unknown,
        ap (λ (t : Server). lookup fd t.clock.versions) same
            ∙ lookup-read object_size start fd k others s free unknown later,
        ap (λ (t : Server). (t.objects (at_ k)).fd) same
            ∙ ap (λ (c : ConnectionInfo). c.fd)
                (object-read object_size start fd k others s free unknown d others')
            ∙ ap (λ t. (conn_after t (new_connection fd start)).fd) is_r
            ∙ a.descriptor
            ∙ fd-received fd start now (text_of cmd),
      ),
    )
