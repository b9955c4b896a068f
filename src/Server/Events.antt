-- ===== src/Server/Events.antt =====
-- Webserver.cpp. `watched` is epoll's list of descriptors, `handlers` the signals that have
-- `sigint_handler`. A callback of a timer is named by the descriptor that it is bound to. `objects`
-- is what stands in the object that a pointer of the pool names. Where an object that is written
-- shares bytes with another one, what the other one reads as then is an argument, `others`.
use kvstore_epoll.Prelude.{
  ℕ, ◌+◌, ◌*◌, ◌&&◌, Option, none, some, List, [], ◌∷◌, Bytes, Bool, true, false, ◌||◌,
  if◌then◌else◌, ltb, leb, ◌==◌, Run, ok, ◌>>=◌, ℤ, pos, negsuc, deref, is_negative, is_zero,
}
use kvstore_epoll.Hash.Table.{Engine}
use kvstore_epoll.Http.Parser.{get_key_url}
use kvstore_epoll.Http.Factory.{Registry}
use kvstore_epoll.Connection.{ConnectionInfo, Received, failed, read, convert_request}
use kvstore_epoll.Router.Table.{get_handler}
use kvstore_epoll.Router.Task.{Outcome, Handler, pad}
use kvstore_epoll.RingBuffer.{ring_buffer_size, fresh}
use kvstore_epoll.ConnPool.Blocks.{Block, null, at_, stack, Pool, acquire, add_map, get, release}
use kvstore_epoll.Timer.Clock.{Clock, add_timer, mod_timer, del_timer}

-- TIME_OUT
abbrev pub time_out : ℕ
time_out = 1

pub record Server : Type 0 where
  pub watched : List ℕ
  pub handlers : List ℕ
  pub pool : Pool
  pub objects : Block → ConnectionInfo
  pub clock : Clock
  pub stop : Bool

-- Whether epoll watches the descriptor.
unfoldable pub watches : ℕ → List ℕ → Bool
watches fd [] = false
watches fd (w ∷ ws) = (w == fd) || watches fd ws

-- `_epoll.del`
unfoldable pub unwatch : ℕ → List ℕ → List ℕ
unwatch fd [] = []
unwatch fd (w ∷ ws) = let others = unwatch fd ws in if w == fd then others else w ∷ others

abbrev pub is_null : Block → Bool
is_null null = true
is_null (at_ k) = false
is_null stack = false

-- The object that `acquire` and `add_map` make of a block: zeros, with the descriptor and the time.
unfoldable pub new_connection : ℕ → ℕ → ConnectionInfo
new_connection fd now = record {
  fd = pos fd;
  read_buffer = fresh (pad ring_buffer_size []);
  write_buffer = fresh (pad ring_buffer_size []);
  request = none;
  last_active_time = now;
}

-- Whether two objects share bytes; `stack` is an unknown place.
unfoldable pub overlaps : ℕ → ℕ → Block → Block → Bool
overlaps object_size block_size (at_ j) (at_ k) =
    ltb (j * block_size) (k * block_size + object_size)
    && ltb (k * block_size) (j * block_size + object_size)
overlaps object_size block_size (at_ j) null = false
overlaps object_size block_size (at_ j) stack = true
overlaps object_size block_size null b = false
overlaps object_size block_size stack b = true

abbrev pub same_block : Block → Block → Bool
same_block (at_ j) (at_ k) = j == k
same_block (at_ j) null = false
same_block (at_ j) stack = false
same_block null b = false
same_block stack b = false

-- The objects after one of them has been written.
unfoldable pub put_object :
    ℕ
    → ℕ
    → Block
    → ConnectionInfo
    → (Block → ConnectionInfo)
    → (Block → ConnectionInfo)
    → Block
    → ConnectionInfo
put_object object_size block_size block c others objects b =
    if same_block b block
    then c
    else if overlaps object_size block_size b block
    then others b
    else objects b

-- `add_timer`, `mod_timer` and `del_timer` of the server: the callback is `timer_task` of the
-- descriptor, and `return ret > 0`.
abbrev pub webserver_add_timer : ℕ → ℕ → ℕ → ℕ → Server → Bool × Server
webserver_add_timer now fd timeout version s =
    let r = add_timer now fd timeout (some fd) version s.clock in
    (ltb 0 r.0, record s { clock = r.1 })

abbrev pub webserver_mod_timer : ℕ → ℕ → ℕ → Server → Bool × Server
webserver_mod_timer now fd timeout s =
    let r = mod_timer now fd timeout (some fd) s.clock in (r.0, record s { clock = r.1 })

abbrev pub webserver_del_timer : ℕ → Server → Bool × Server
webserver_del_timer fd s = let r = del_timer fd s.clock in (r.0, record s { clock = r.1 })

-- `deal_NewConn`, on what `Accept_tcp` returns; `return false` is the descriptor 0. The object is built
-- in the block.
unfoldable pub deal_new_conn : ℕ → ℕ → (Block → ConnectionInfo) → ℤ → Server → Run (ℕ × Server)
deal_new_conn object_size now others (negsuc k) s = ok (0, s)
deal_new_conn object_size now others (pos fd) s = do
  (conn, p) ← acquire object_size s.pool
  let s' = record s { watched = fd ∷ s.watched; pool = p }
  ok (
      if is_null conn then (0, s') else (
        fd,
        record s' {
          pool = add_map fd conn p;
          objects =
              put_object object_size p.block_size conn (new_connection fd now) others s.objects;
        },
      ))

-- The branch of the event loop for the listening socket.
unfoldable pub accept_event : ℕ → ℕ → (Block → ConnectionInfo) → ℤ → Server → Run Server
accept_event object_size now others accepted s = do
  (fd, s') ← deal_new_conn object_size now others accepted s
  ok (webserver_add_timer now fd time_out 1 s').1

unfoldable pub close_conn : ℕ → Server → Run (Bool × Server)
close_conn fd s = do
  conn ← get fd s.pool
  if is_null conn then ok (false, s) else (do
    let s' = (webserver_del_timer fd (record s { watched = unwatch fd s.watched })).1
    p ← release conn s'.pool
    ok (true, record s' { pool = p }))

-- The callback of a timer; `active` gives the time at which a connection was last active.
unfoldable pub timer_task : (Block → ℕ) → ℕ → ℕ → ℕ → Server → Run (Bool × Server)
timer_task active now fd timeout s = do
  conn ← get fd s.pool
  if is_null conn
      then ok (false, s)
      else if leb (active conn + timeout) now
      then (do (closed, s') ← close_conn fd s; ok (true, s'))
      else ok (false, s)

-- What `deal_Read` has made of its connection.
pub data Dealt : Type 0 where
  missing : Dealt
  ended : ConnectionInfo → Dealt
  refused : ConnectionInfo → Dealt
  handled : Outcome → Dealt

-- The call of the handler, with the time when it is back.
unfoldable pub run_handler : Option Handler → ℕ → ConnectionInfo → Engine → Run Dealt
run_handler none later c e = ok (refused c)
run_handler (some handler) later c e = do
  r ← handler c e
  ok (handled (record r { conn = record (r.conn) { last_active_time = later } }))

-- `deal_Read` from `convert_request` on
unfoldable pub deal_request :
    Registry → List (Bytes × Handler) → ℕ → ConnectionInfo → Engine → Run Dealt
unfolding run_handler
deal_request registry routes later c e = do
  (success, c') ← convert_request registry c
  if success
      then (do
        request ← deref c'.request
        run_handler (get_handler (get_key_url request) routes) later c' e)
      else ok (refused c')

-- `deal_Read` on the connection that the pool has given, without the thread pool
unfoldable pub read_conn :
    Registry → List (Bytes × Handler) → Received → ℕ → ℕ → ConnectionInfo → Engine → Run Dealt
unfolding deal_request
read_conn registry routes received now later c e =
    let (ret, c') = read received now c in
    if is_negative ret || is_zero ret
    then ok (ended c')
    else deal_request registry routes later c' e

-- The end of `deal_Read` for a connection that has ended, and the return value.
unfoldable pub close_ended : ℕ → Dealt → Server → Run (Bool × Server)
unfolding close_conn
close_ended fd missing s = ok (false, s)
close_ended fd (ended c) s = do (closed, s') ← close_conn fd s; ok (false, s')
close_ended fd (refused c) s = ok (false, s)
close_ended fd (handled r) s = ok (true, s)

-- The connection after `deal_Read`.
abbrev pub conn_after : Dealt → ConnectionInfo → ConnectionInfo
conn_after missing c = c
conn_after (ended c') c = c'
conn_after (refused c') c = c'
conn_after (handled r) c = r.conn

-- The objects after `deal_Read` of the connection in a block.
abbrev pub objects_after :
    ℕ → Block → Dealt → (Block → ConnectionInfo) → Server → Block → ConnectionInfo
objects_after object_size conn dealt others s =
    if is_null conn
    then s.objects
    else put_object object_size s.pool.block_size conn (conn_after dealt (s.objects conn)) others
        s.objects

-- `recv` of a negative descriptor fails; for another one, its result is the environment's.
abbrev pub recv_on : ℤ → Received → Received
recv_on (pos fd) received = received
recv_on (negsuc k) received = failed

-- The branch of the event loop for a descriptor that can be read: `deal_Read` on the object of the
-- connection, then `mod_timer`.
unfoldable pub read_event :
    ℕ
    → Registry
    → List (Bytes × Handler)
    → (Block → ConnectionInfo)
    → Received
    → ℕ
    → ℕ
    → ℕ
    → Engine
    → Server
    → Run (Dealt × Server)
unfolding read_conn close_ended
read_event object_size registry routes others received now later fd e s = do
  conn ← get fd s.pool
  dealt ←
      (if is_null conn
        then ok missing
        else read_conn registry routes (recv_on (s.objects conn).fd received) now later
            (s.objects conn) e)
  (success, s') ← close_ended fd dealt s
  let written = record s' { objects = objects_after object_size conn dealt others s }
  ok (dealt, (webserver_mod_timer later fd time_out written).1)
