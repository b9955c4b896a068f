-- ===== src/Server/Visits.antt =====
-- One client in the event loop: it connects, sends a command, and the server is told to stop.
use kvstore_epoll.Prelude.{
  ℕ, ◌*◌, ◌≤◌, ◌<◌, ◌≡◌, ◌≢◌, inl, inr, if◌then◌else◌, subst, refl, ap, sym, ◌∙◌, none, List, [],
  ◌∷◌, Bytes, true, false, All, length, Run, fault, out_of_bounds, ok, ◌>>=◌, pos, pos_part,
  Returns, arith, fun_ext,
}
use kvstore_epoll.Memory.{Heap, NeverFails}
use kvstore_epoll.Hash.Table.{Engine}
use kvstore_epoll.Hash.View.{IsValid, view}
use kvstore_epoll.Hash.Disk.{Disk}
use kvstore_epoll.Hash.Same.{All-view}
use kvstore_epoll.Hash.Disk.Loaded.{IsStorable}
use kvstore_epoll.Kvstore.Commands.{Command, IsCommand, spec_map}
use kvstore_epoll.Kvstore.Session.{text_of}
use kvstore_epoll.Kvstore.Protocol.{init_kvengine, exit_kvengine}
use kvstore_epoll.Kvstore.Restart.{IsStart, restarted}
use kvstore_epoll.Kvstore.Durable.{MapStorable, CommandStorable, spec_map-MapStorable}
use kvstore_epoll.RingBuffer.{ring_buffer_size}
use kvstore_epoll.Connection.{Received, failed, bytes}
use kvstore_epoll.ConnPool.Blocks.{at_, Pool, find_conn, conn_pool}
use kvstore_epoll.ConnPool.End.{Residue, stray, end_conn_pool, end_conn_pool-outside}
use kvstore_epoll.Server.Events.{Server, watches, accept_event}
use kvstore_epoll.Server.Signals.{IsStop, sent, delivered, del_signal, del_signal-sent}
use kvstore_epoll.Server.Loop.{
  Setup, World, Ready, Answer, Waited, ready, reported, engine_after, dispatch, handle_events,
  round, event_loop,
}
use kvstore_epoll.Server.Safe.{IsPipe, dispatch-received, dispatch-read}
use kvstore_epoll.Server.Stops.{event_loop-stopped}
use kvstore_epoll.Server.Start.{Boot, IsBoot, webserver, webserver-starts, started, new_server}
use kvstore_epoll.Server.End.{setup_of, end_webserver, end_members, run_server, Exit, finish, main}
use kvstore_epoll.Server.Posts.{post_text}
use kvstore_epoll.Server.Clients.{accepted, accept_event-accepted, read_event-Answers}

-- The three events: a client arrives with a new descriptor, its POST comes in whole, and the pipe
-- brings what SIGINT or SIGTERM has put into it, with these handlers.
pub record IsVisit (x : Setup) (handlers : List ℕ) (fd : ℕ) (cmd : Command)
    (arrival post goodbye : Ready × Answer) : Type 0 where
  pub arrives : arrival.0.fd ≡ x.listen_fd
  pub accepted_eq : arrival.1.accepted ≡ pos fd
  pub apart : (fd ≢ x.listen_fd) × (fd ≢ x.pipe_fd)
  pub asks : post.0.fd ≡ fd
  pub whole : post.0.broken ≡ false
  pub input : post.0.input ≡ true
  pub sent : post.1.received ≡ bytes (post_text (text_of cmd))
  pub pipe : IsPipe x goodbye.0
  pub readable : goodbye.0.input ≡ true
  pub signal : ℕ
  pub stops : IsStop signal
  pub arrived : goodbye.1.received ≡ bytes (delivered handlers signal)
  pub pipe_apart : x.pipe_fd ≢ x.listen_fd

-- The command fits half of the buffer, and has no NUL.
pub record IsPostable (cmd : Command) : Type 0 where
  pub command : IsCommand cmd
  pub plain : All (λ b. b ≢ 0) (text_of cmd)
  pub short : 2 * length (post_text (text_of cmd)) ≤ ring_buffer_size

dispatch-accept :
    (x : Setup) (r : Ready) (a : Answer) (w : World)
    → r.fd ≡ x.listen_fd
    → dispatch x r a w ≡ (
        accept_event x.object_size a.now a.objects a.accepted w.server >>= λ s.
        ok (record w { server = s }))
unfolding dispatch
dispatch-accept x r a w e = ground arith

-- A round with one event of a watched descriptor, while the stop flag is not set.
round_one :
    (x : Setup) (event : Ready × Answer) (rest : List Waited) (w w' : World)
    → watches event.0.fd w.server.watched ≡ true
    → w.server.stop ≡ false
    → dispatch x event.0 event.1 w ≡ ok w'
    → event_loop x (ready (event ∷ []) ∷ rest) w ≡ event_loop x rest w'
unfolding event_loop round handle_events reported
round_one x event rest w w' watched going run =
    let handle = dispatch x event.0 event.1 w >>= handle_events x [] in
    ap
      (λ b.
        if b
        then ok w
        else handle_events x (if watches event.0.fd w.server.watched then event ∷ [] else []) w
          >>= event_loop x rest)
      going
    ∙ ap (λ b. handle_events x (if b then event ∷ [] else []) w >>= event_loop x rest) watched
    ∙ ap (λ b. (if b then ok w else handle) >>= event_loop x rest) going
    ∙ ap (λ (t : Run World). (t >>= handle_events x []) >>= event_loop x rest) run

-- A signal to stop, with both handlers, sets the stop flag.
delivered-stop :
    (signal : ℕ) (s : Server)
    → IsStop signal
    → s.stop ≡ false
    → (del_signal (bytes (delivered (15 ∷ 2 ∷ []) signal)) s).1.stop ≡ true
unfolding delivered sent
delivered-stop signal s (inl sigint) going =
    subst (λ n. (del_signal (bytes (delivered (15 ∷ 2 ∷ []) n)) s).1.stop ≡ true) (sym sigint)
      ((del_signal-sent (2 ∷ []) s (omega arith, tt) going).1.1 (inl (inl refl)))
delivered-stop signal s (inr sigterm) going =
    subst (λ n. (del_signal (bytes (delivered (15 ∷ 2 ∷ []) n)) s).1.stop ≡ true) (sym sigterm)
      ((del_signal-sent (15 ∷ []) s (omega arith, tt) going).1.1 (inl (inr refl)))

-- What the visit leaves.
pub record Visited (cmd : Command) (e : Engine) (s : Server) (w : World) : Type 0 where
  pub stop : w.server.stop ≡ true
  pub valid : IsValid w.engine
  pub map : (j : Bytes) → view w.engine.hash j ≡ spec_map (view e.hash) cmd j
  pub blocks : w.server.pool.total_blocks ≡ s.pool.total_blocks
  pub size : w.server.pool.block_size ≡ s.pool.block_size

del_signal-pool :
    (received : Received) (s : Server) (field : Pool → ℕ)
    → field (del_signal received s).1.pool ≡ field s.pool
unfolding del_signal
del_signal-pool failed s field = refl
del_signal-pool (bytes []) s field = refl
del_signal-pool (bytes (b ∷ bs)) s field = refl

module _ (b : Boot) (object_size fd k : ℕ) (cmd : Command) (arrival post goodbye : Ready × Answer)
    (visit : IsVisit (setup_of b object_size) (15 ∷ 2 ∷ []) fd cmd arrival post goodbye)
    (postable : IsPostable cmd) where
  abbrev x : Setup
  x = setup_of b object_size

  pub event_loop-Visited :
      (w : World) (rest : List Waited)
      → watches x.listen_fd w.server.watched ≡ true
      → watches x.pipe_fd w.server.watched ≡ true
      → w.server.stop ≡ false
      → w.server.pool.free_list ≡ at_ k
      → find_conn fd w.server.pool.table ≡ none
      → IsValid w.engine
      → NeverFails w.engine.heap
      → Returns
          (event_loop x (ready (arrival ∷ []) ∷ ready (post ∷ []) ∷ ready (goodbye ∷ []) ∷ rest) w)
          (Visited cmd w.engine w.server)
  unfolding watches
  event_loop-Visited w rest listens hears going free unknown valid memory =
      let s1 = accepted object_size arrival.1.now fd k arrival.1.objects w.server free unknown in
      let ((dealt, s2), run, ((r, is_r, a), same)) =
        read_event-Answers object_size arrival.1.now fd k arrival.1.objects w.server free unknown
          post.1.now post.1.later post.1.objects cmd postable.plain postable.short postable.command
          valid memory in
      let w1 : World = record w { server = s1 } in
      let w2 : World = record { server = s2; engine = engine_after dealt w.engine } in
      let w3 : World = record w2 { server = (del_signal goodbye.1.received s2).1 } in
      let engine_eq : w2.engine ≡ r.engine = ap (λ d. engine_after d w.engine) is_r in
      let valid2 : IsValid w2.engine = subst IsValid (sym engine_eq) a.valid in
      let first : dispatch x arrival.0 arrival.1 w ≡ ok w1 =
        dispatch-accept x arrival.0 arrival.1 w visit.arrives
        ∙ rw
            (
              visit.accepted_eq,
              accept_event-accepted object_size arrival.1.now fd k arrival.1.objects w.server free
                  unknown,
            )
            refl in
      let second : dispatch x post.0 post.1 w1 ≡ ok w2 =
        dispatch-read x post.0 post.1 w1 (λ q. visit.apart.0 (sym visit.asks ∙ q)) visit.whole
          visit.input (λ q. visit.apart.1 (sym visit.asks ∙ q))
        ∙ rw (visit.asks, visit.sent, run) refl in
      let third : dispatch x goodbye.0 goodbye.1 w2 ≡ ok w3 =
        dispatch-received x goodbye.0 goodbye.1 w2 (λ q. visit.pipe_apart (sym visit.pipe.here ∙ q))
          visit.pipe.here visit.pipe.whole visit.readable in
      let going2 : w2.server.stop ≡ false = ap (λ (t : Server). t.stop) same ∙ going in
      let stopped : w3.server.stop ≡ true =
        rw visit.arrived (delivered-stop visit.signal s2 visit.stops going2) in
      let watched0 : watches arrival.0.fd w.server.watched ≡ true = rw visit.arrives listens in
      let watched1 : watches post.0.fd s1.watched ≡ true = ground (arith, visit.asks) in
      let watched2 : watches goodbye.0.fd s2.watched ≡ true =
        ap (λ (t : Server). watches goodbye.0.fd t.watched) same
        ∙ ap (λ n. watches n s1.watched) visit.pipe.here
        ∙ ground (arith, hears) in
      (
        w3,
        round_one x arrival _ w w1 watched0 going first
            ∙ round_one x post _ w1 w2 watched1 going second
            ∙ round_one x goodbye rest w2 w3 watched2 going2 third
            ∙ event_loop-stopped x rest w3 stopped,
        record {
          stop = stopped;
          valid = valid2;
          map = λ j. ap (λ (t : Engine). view t.hash j) engine_eq ∙ a.map j;
          blocks =
              del_signal-pool goodbye.1.received s2 (λ p. p.total_blocks)
              ∙ ap (λ (t : Server). t.pool.total_blocks) same;
          size =
              del_signal-pool goodbye.1.received s2 (λ p. p.block_size)
              ∙ ap (λ (t : Server). t.pool.block_size) same;
        },
      )

ok-same : {A : Type 0} (a b : A) → ok a ≡ ok b → a ≡ b
ok-same a b e = ap (λ r. elim r [ ok x ↦ x | fault why ↦ a ]) e

started-pool :
    (b : Boot) (listen_fd : ℕ) (e : Engine) (fd : ℕ)
    → b.pool_granted ≡ true
    → let p = (started b listen_fd e).server.pool in
      (p.free_list ≡ at_ 0)
      × (find_conn fd p.table ≡ none)
      × (p.total_blocks ≡ 10240)
      × (p.block_size ≡ 1024)
unfolding new_server conn_pool find_conn
started-pool b listen_fd e fd granted = (rw granted refl, refl, refl, refl)

-- The constructor watches the listening socket and the pipe.
started-watches :
    (b : Boot) (listen_fd : ℕ) (e : Engine)
    → IsBoot b listen_fd
    → let ws = (started b listen_fd e).server.watched in
      (watches (pos_part b.socket_calls.socket) ws ≡ true) × (watches b.pipe_fd ws ≡ true)
unfolding watches
started-watches b listen_fd e boot = (
  ap (λ z. watches (pos_part z) (listen_fd ∷ b.pipe_fd ∷ [])) boot.listen_eq ∙ ground arith,
  ground arith,
)

run_server-runs :
    (b : Boot) (object_size : ℕ) (waits : List Waited) (start : Engine) (d : Disk) {w w' : World}
    {left : Disk × Heap}
    → webserver b start d ≡ ok w
    → event_loop (setup_of b object_size) waits w ≡ ok w'
    → exit_kvengine w'.engine d ≡ ok left
    → run_server b object_size waits start d ≡ ok (w', b.pipe_fd ∷ b.pipe_write ∷ [], left.0)
unfolding run_server end_webserver
run_server-runs b object_size waits start d constructed loop left =
    rw (constructed, ◌>>=◌, loop, left) refl

finish-faults :
    (b : Boot) (object_size : ℕ) (contents : ℕ → Residue) (d : Disk) (w : World) (fds : List ℕ)
    (d' : Disk)
    → end_conn_pool object_size b.pool_granted contents w.server.pool ≡ fault out_of_bounds
    → (finish b object_size contents d (ok (w, fds, d'))).closed ≡ fault out_of_bounds
unfolding finish end_members
finish-faults b object_size contents d w fds d' outside = rw outside refl

-- A write over HTTP outlives the process. A server whose system calls succeed has started with a valid
-- table of storable pairs, with memory at hand; a client connects and sends a storable command in a
-- POST, in at most half of the buffer's bytes and with no NUL in the command; then the pipe brings
-- what SIGINT or SIGTERM puts into it, with the handlers that the constructor has set. Only watched
-- descriptors are reported. Whatever rounds the schedule still has, the next process starts with a
-- valid table that is the map after that command, although `main` itself ends in an access outside
-- the memory of the pool, whose blocks are smaller than its objects. The data file opens for writing
-- and for reading, and no block holds a stray pointer to a request.
pub write_survives :
    {b : Boot} {next e : Engine} (start : Engine) (w : World) (listen_fd object_size fd : ℕ)
    (cmd : Command) (arrival post goodbye : Ready × Answer) (rest : List Waited)
    (contents : ℕ → Residue) (d : Disk)
    → IsBoot b listen_fd
    → b.pool_granted ≡ true
    → init_kvengine start d ≡ ok e
    → webserver b start d ≡ ok w
    → IsVisit (setup_of b object_size) w.server.handlers fd cmd arrival post goodbye
    → IsPostable cmd
    → CommandStorable cmd
    → IsValid e
    → NeverFails e.heap
    → MapStorable (view e.hash)
    → 1024 < object_size
    → ((k : ℕ) → (contents k).request ≢ stray)
    → IsStart next
    → d.writable ≡ true
    → d.readable ≡ true
    → let exit =
        main b object_size
          (ready (arrival ∷ []) ∷ ready (post ∷ []) ∷ ready (goodbye ∷ []) ∷ rest)
          contents
          start
          d in
      (exit.closed ≡ fault out_of_bounds)
      × Returns
          (init_kvengine next exit.disk)
          λ e'. IsValid e' × ((key : Bytes) → view e'.hash key ≡ spec_map (view e.hash) cmd key)
unfolding main finish new_server
write_survives {b} {next} {e} start w listen_fd object_size fd cmd arrival post goodbye rest
      contents d boot granted began constructed visit postable storable valid memory kept large
      sound is_next writes reads =
    let same : w ≡ started b listen_fd e =
      ok-same _ _ (sym constructed ∙ webserver-starts start e d boot began) in
    let visit' : IsVisit (setup_of b object_size) (15 ∷ 2 ∷ []) fd cmd arrival post goodbye =
      subst
        (λ (t : World).
          IsVisit (setup_of b object_size) t.server.handlers fd cmd arrival post goodbye)
        same visit in
    let (free, unknown, blocks, size) = started-pool b listen_fd e fd granted in
    let (listens, hears) = started-watches b listen_fd e boot in
    let (w', loop, v) =
      event_loop-Visited b object_size fd 0 cmd arrival post goodbye visit' postable
        (started b listen_fd e) rest listens hears refl free unknown valid memory in
    let kept' : MapStorable (view w'.engine.hash) =
      subst MapStorable (sym (fun_ext v.map))
        (spec_map-MapStorable (view e.hash) cmd kept storable) in
    let (stopped, left, (e', back, (valid', map, memory'))) =
      restarted d v.valid (All-view IsStorable v.valid kept') is_next writes reads in
    let outside : end_conn_pool object_size b.pool_granted contents w'.server.pool
        ≡ fault out_of_bounds =
      ap (λ g. end_conn_pool object_size g contents w'.server.pool) granted
      ∙ end_conn_pool-outside object_size w'.server.pool
          (subst (λ n. n < object_size) (sym (v.size ∙ size)) large) contents sound 10239
          (v.blocks ∙ blocks) in
    let run =
      run_server-runs b object_size _ start d (webserver-starts start e d boot began) loop left in
    (
      ap (λ t. (finish b object_size contents d t).closed) run
          ∙ finish-faults b object_size contents d w' (b.pipe_fd ∷ b.pipe_write ∷ []) stopped.0
              outside,
      subst
          (λ (t : Exit).
            Returns (init_kvengine next t.disk) λ e'.
              IsValid e' × ((key : Bytes) → view e'.hash key ≡ spec_map (view e.hash) cmd key))
          (sym (ap (finish b object_size contents d) run))
          (e', back, (valid', λ j. map j ∙ v.map j)),
    )
