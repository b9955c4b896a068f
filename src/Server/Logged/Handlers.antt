-- ===== src/Server/Logged/Handlers.antt =====
-- Webserver.cpp with its log: the handlers of one event.
use kvstore_epoll.Prelude.{
  ℕ, ◌^◌, ◌≤◌, ◌<◌, [], ◌∷◌, Bytes, codes, Bool, true, false, length, length-append, if◌then◌else◌,
  ◌==◌, ◌&&◌, Run, ok, fault, ◌>>=◌, ℤ, pos, negsuc, All, arith,
}
use kvstore_epoll.Log.Stamp.{ten_digits}
use kvstore_epoll.Hash.Table.{Engine}
use kvstore_epoll.Connection.{ConnectionInfo}
use kvstore_epoll.ConnPool.Blocks.{Block, null, at_, stack, Pool, acquire, add_map, get}
use kvstore_epoll.Server.Events.{
  Server, Dealt, missing, ended, refused, handled, is_null, new_connection, put_object,
  deal_new_conn, accept_event, close_conn, close_ended, read_conn, recv_on, read_event,
}
use kvstore_epoll.Server.Signals.{del_signal}
use kvstore_epoll.Server.Loop.{
  Setup, World, Ready, Answer, Waited, interrupted, timed_out, ready, dispatch,
}
use kvstore_epoll.Server.Logged.{
  Journal, Calls, log_message, conn_message, logged_close_conn, logged_accept_event,
  logged_close_ended, logged_read_event, logged_dispatch,
}
use kvstore_epoll.Server.Logged.Lines.{
  Follows, Writes, Follows-ok, Follows-last, Follows-if, Follows-fault, Follows-bind, Follows-both,
  Follows-log,
}

-- A descriptor is an `int` that is not negative.
abbrev pub IsFd : ℕ → Type 0
IsFd fd = fd < 2 ^ 31

pub conn_message-fits :
    (text rest : Bytes) (fd : ℕ)
    → IsFd fd
    → length text ≤ 20
    → length rest ≤ 20
    → length (conn_message text fd rest) ≤ 984
unfolding conn_message
conn_message-fits text rest fd small front back =
    let digits = ten_digits fd (omega arith) in
    rw (length-append {0}, length-append {0}, length-append {0}) (omega arith)

-- The descriptors that an event brings.
abbrev pub IsFdAnswer : ℤ → Type 0
IsFdAnswer (pos fd) = IsFd fd
IsFdAnswer (negsuc k) = Unit {0}

abbrev pub HasFds : Ready × Answer → Type 0
HasFds (r, a) = IsFd r.fd × IsFdAnswer a.accepted

abbrev pub WaitedFds : Waited → Type 0
WaitedFds interrupted = Unit {0}
WaitedFds timed_out = Unit {0}
WaitedFds (ready events) = All HasFds events

module _ {Good : Journal → Type 0} (env : Calls) (writes : Writes Good env) where
  -- A line about a descriptor.
  conn_line {ℓ} :
      {A : Type ℓ} (level : ℕ) (text : Bytes) (fd : ℕ) (j : Journal) (p : Run A)
      (g : Journal → Run (A × Journal))
      → IsFd fd
      → length text ≤ 20
      → Good j
      → ((j' : Journal) → Good j' → Follows Good p (g j'))
      → Follows Good p (log_message env level (conn_message text fd []) j >>= g)
  conn_line level text fd j p g small short sound next =
      Follows-log env writes level (conn_message text fd []) j p g
        (conn_message-fits text [] fd small short (omega arith)) sound next

  pub close_conn-Follows :
      (fd : ℕ) (s : Server) (j : Journal)
      → IsFd fd
      → Good j
      → Follows Good (close_conn fd s) (logged_close_conn env fd s j)
  unfolding logged_close_conn
  close_conn-Follows fd s j small sound =
      elim (close_conn fd s) as (λ run. Follows Good run (run >>= tell)) [
        | fault why ↦ Follows-fault _ _ why
        | ok (false, s') ↦ Follows-ok _ (false, s') j sound
        | ok (true, s') ↦
            conn_line 1 (codes "close ") fd j _ _ small (omega arith) sound
              λ j' sound'. Follows-ok _ (true, s') j' sound'
      ]
    where
      tell : Bool × Server → Run ((Bool × Server) × Journal)
      tell r =
          (if r.0 then log_message env 1 (conn_message (codes "close ") fd []) j else ok j)
          >>= λ j'. ok (r, j')

  close_ended-Follows :
      (fd : ℕ) (d : Dealt) (s : Server) (j : Journal)
      → IsFd fd
      → Good j
      → Follows Good (close_ended fd d s) (logged_close_ended env fd d s j)
  unfolding logged_close_ended close_ended
  close_ended-Follows fd missing s j small sound = Follows-ok _ _ j sound
  close_ended-Follows fd (ended c) s j small sound =
      Follows-bind _ (close_conn fd s) (logged_close_conn env fd s j) _ _
        (close_conn-Follows fd s j small sound)
        λ c' j' sound'.
          conn_line 3 (codes "close ") fd j' _ _ small (omega arith) sound'
            λ j'' sound''. Follows-ok _ _ j'' sound''
  close_ended-Follows fd (refused c) s j small sound = Follows-ok _ _ j sound
  close_ended-Follows fd (handled r) s j small sound = Follows-ok _ _ j sound

  -- The descriptor that `deal_NewConn` returns is one that a line has room for.
  deal_new_conn-Follows :
      (object_size now : ℕ) (others : Block → ConnectionInfo) (accepted : ℤ) (s : Server)
      (f : ℕ × Server → Run Server) (g : ℕ × Server → Run (Server × Journal))
      → IsFdAnswer accepted
      → ((fd : ℕ) (s' : Server) → IsFd fd → Follows Good (f (fd, s')) (g (fd, s')))
      → Follows Good
          (deal_new_conn object_size now others accepted s >>= f)
          (deal_new_conn object_size now others accepted s >>= g)
  unfolding deal_new_conn
  deal_new_conn-Follows object_size now others (negsuc k) s f g small next = next 0 s (omega arith)
  deal_new_conn-Follows object_size now others (pos fd) s f g small next =
      elim (acquire object_size s.pool)
        as (λ run. Follows Good (run >>= made >>= f) (run >>= made >>= g)) [
          | fault why ↦ Follows-fault _ _ why
          | ok (null, p) ↦ next 0 _ (omega arith)
          | ok (at_ k, p) ↦ next fd _ small
          | ok (stack, p) ↦ next fd _ small
        ]
    where
      made : Block × Pool → Run (ℕ × Server)
      made (conn, p) =
          let s' = record s { watched = fd ∷ s.watched; pool = p } in
          ok (
            if is_null conn then (0, s') else (
              fd,
              record s' {
                pool = add_map fd conn p;
                objects =
                    put_object object_size p.block_size conn (new_connection fd now) others
                      s.objects;
              },
            ))

  module _ (x : Setup) (r : Ready) (a : Answer) (fds : HasFds (r, a)) where
    accept_event-Follows :
        (s : Server) (j : Journal)
        → Good j
        → Follows Good
            (accept_event x.object_size a.now a.objects a.accepted s)
            (logged_accept_event env x.object_size a.now a.objects a.accepted s j)
    unfolding accept_event logged_accept_event
    accept_event-Follows s j sound =
        deal_new_conn-Follows x.object_size a.now a.objects a.accepted s _ _ fds.1 λ fd s' small.
          conn_line 1 (codes "add_timer ") fd j _ _ small (omega arith) sound
            λ j' sound'. Follows-ok _ _ j' sound'

    read_event-Follows :
        (e : Engine) (s : Server) (j : Journal)
        → Good j
        → Follows Good
            (read_event x.object_size x.registry x.routes a.objects a.received a.now a.later r.fd e
              s)
            (logged_read_event env x r a e s j)
    unfolding read_event logged_read_event
    read_event-Follows e s j sound = Follows-both _ (get r.fd s.pool) _ _ λ conn.
        Follows-bind _ _ _ _ _ (dealt-Follows conn) λ d j1 sound1.
          Follows-bind _ (close_ended r.fd d s) (logged_close_ended env r.fd d s j1) _ _
            (close_ended-Follows r.fd d s j1 fds.0 sound1)
            λ c j2 sound2.
              conn_line 1 (codes "mod_timer ") r.fd j2 _ _ fds.0 (omega arith) sound2
                λ j3 sound3. Follows-ok _ _ j3 sound3
      where
        dealt-Follows :
            (conn : Block)
            → Follows Good
                (if is_null conn
                  then ok missing
                  else read_conn x.registry x.routes
                      (recv_on (s.objects conn).fd a.received)
                      a.now
                      a.later
                      (s.objects conn)
                      e)
                (if is_null conn
                  then ok (missing, j)
                  else log_message env 1 (conn_message (codes "deal_Read ") r.fd []) j >>= λ j'.
                      read_conn x.registry x.routes
                        (recv_on (s.objects conn).fd a.received)
                        a.now
                        a.later
                        (s.objects conn)
                        e
                      >>= λ d. ok (d, j'))
        dealt-Follows null = Follows-ok _ missing j sound
        dealt-Follows (at_ k) =
            conn_line 1 (codes "deal_Read ") r.fd j _ _ fds.0 (omega arith) sound
              λ j' sound'. Follows-last _ _ j' sound'
        dealt-Follows stack =
            conn_line 1 (codes "deal_Read ") r.fd j _ _ fds.0 (omega arith) sound
              λ j' sound'. Follows-last _ _ j' sound'

    pub dispatch-Follows :
        (w : World) (j : Journal)
        → Good j
        → Follows Good (dispatch x r a w) (logged_dispatch env x r a w j)
    unfolding dispatch logged_dispatch
    dispatch-Follows w j sound =
        Follows-if _ (r.fd == x.listen_fd) _ _ _ _
          (Follows-bind _ _ _ _ _ (accept_event-Follows w.server j sound)
            λ s j' sound'. Follows-ok _ _ j' sound')
          (Follows-if _ r.broken _ _ _ _
            (Follows-bind _ _ _ _ _ (close_conn-Follows r.fd w.server j fds.0 sound) λ c j' sound'.
              conn_line 3 (codes "close ") r.fd j' _ _ fds.0 (omega arith) sound'
                λ j'' sound''. Follows-ok _ _ j'' sound'')
            (Follows-if _ ((r.fd == x.pipe_fd) && r.input) _ _ _ _
              (told (del_signal a.received w.server).0)
              (Follows-if _ r.input _ _ _ _
                (Follows-bind _ _ _ _ _ (read_event-Follows w.engine w.server j sound)
                  λ d j' sound'. Follows-ok _ _ j' sound')
                (Follows-ok _ w j sound))))
      where
        told :
            (success : Bool)
            → Follows Good (ok (record w { server = (del_signal a.received w.server).1 })) (
                (if success then ok j else log_message env 3 (codes "del_signal failed") j)
                >>= λ j'. ok (record w { server = (del_signal a.received w.server).1 }, j'))
        told true = Follows-ok _ _ j sound
        told false =
            Follows-log env writes 3 (codes "del_signal failed") j _ _ (omega arith) sound
              λ j' sound'. Follows-ok _ _ j' sound'
