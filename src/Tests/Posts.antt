-- ===== src/Tests/Posts.antt =====
-- Clients of the server, and whole sessions with the store.
use mathlib.Core.Quot.{Quot}
use kvstore_epoll.Prelude.{
  none, ◌+◌, ap, ◌*◌, ◌≤◌, ◌≡◌, refl, some, [], ◌∷◌, ◌++◌, codes, true, false, arith, ok, ◌>>=◌,
  Returns, pos, drop, length, map, All, ◌≢◌,
}
use kvstore_epoll.Kvstore.Protocol.{kvstore_request}
use kvstore_epoll.Kvstore.Tokens.{words_in}
use kvstore_epoll.Kvstore.Messages.{message_request, Does}
use kvstore_epoll.Kvstore.Requests.{request-Does}
use kvstore_epoll.Kvstore.Abstract.{Store, store_after, hset_comm}
use kvstore_epoll.Hash.View.{IsValid, view}
use kvstore_epoll.Hash.Index.{ascii-IsIndexed}
use kvstore_epoll.Kvstore.Words.{join}
use kvstore_epoll.Kvstore.Decimal.{print_decimal, print_digits}
use kvstore_epoll.Kvstore.Commands.{hset, Command, IsCommand, hget, hcount, size}
use kvstore_epoll.Kvstore.Session.{serve_all, ServesAll, spec_replies, spec_maps, text_of, session}
use kvstore_epoll.Kvstore.Durable.{two_processes, unseen_restart}
use kvstore_epoll.Http.Factory.{registrations}
use kvstore_epoll.Connection.{ConnectionInfo, bytes, read}
use kvstore_epoll.Router.Task.{Outcome, routes, c_string}
use kvstore_epoll.Router.Answers.{Answers}
use kvstore_epoll.ConnPool.Blocks.{at_, conn_pool, find_conn, get}
use kvstore_epoll.Timer.Clock.{lookup}
use kvstore_epoll.Server.Events.{
  Server, handled, new_connection, accept_event, read_event, read_conn,
}
use kvstore_epoll.Server.Posts.{post_text, headers_size, received, runs_task, body_runs_on}
use kvstore_epoll.RingBuffer.{fresh}
use kvstore_epoll.Connection.Receive.{HasReceived}
use kvstore_epoll.Server.Reads.{with_request}
use kvstore_epoll.Server.Clients.{accept-read-Answers}
use kvstore_epoll.Kvstore.Restart.{init_kvengine-IsLive}
use kvstore_epoll.Hash.Disk.Ascii.{IsLive}
use kvstore_epoll.Kvstore.Protocol.{init_kvengine}
use kvstore_epoll.Tests.Events.{set_b, set_b-IsCommand}
use kvstore_epoll.Tests.Files.{disk}
use kvstore_epoll.Tests.Sample.{
  a-IsIndexed, sample, sample-IsValid, sample-memory, start, start-IsStart, empty, empty-IsValid,
  empty-memory, empty-view,
}

abbrev idle : Server
idle = record {
  watched = 4 ∷ [];
  handlers = [];
  pool = conn_pool 10240 1024 true;
  objects = λ b. new_connection 0 0;
  clock = record { queue = []; versions = [] };
  stop = false;
}

pub set_b-plain : All (λ b. b ≢ 0) (text_of set_b)
unfolding join
set_b-plain = omega arith

pub set_b-short : 2 * length (post_text (text_of set_b)) ≤ 1024
unfolding join print_decimal print_digits
set_b-short = omega arith

accept-read-Answers_example :
    Returns
      (accept_event 2104 3 (λ b. new_connection 0 0) (pos 6) idle
        >>= read_event 2104 registrations routes
            (λ b. new_connection 0 0)
            (bytes (post_text (text_of set_b)))
            7
            8
            6
            sample)
      λ (dealt, s').
        ((r : Outcome) × (dealt ≡ handled r)
          × Answers (received 6 3 7 (text_of set_b)) 0 set_b sample r)
        × (s'.watched ≡ 6 ∷ 4 ∷ [])
        × (get 6 s'.pool ≡ ok (at_ 0))
        × (lookup 6 s'.clock.versions ≡ some 2)
        × ((s'.objects (at_ 0)).fd ≡ pos 6)
unfolding conn_pool find_conn
accept-read-Answers_example =
    accept-read-Answers 2104 3 7 8 6 0 (λ b. new_connection 0 0) (λ b. new_connection 0 0) idle
      set_b refl refl set_b-plain set_b-short set_b-IsCommand sample-IsValid sample-memory

-- A connection that has had a longer request before.
abbrev used_conn : ConnectionInfo
used_conn = record {
  fd = pos 6;
  read_buffer = record {
    buffer = post_text (codes "HSET abc 12345") ++ (0 ∷ []);
    head = pos 0;
    tail = pos 64;
  };
  write_buffer = fresh [];
  request = none;
  last_active_time = 3;
}

used_conn-HasReceived : HasReceived used_conn 64
used_conn-HasReceived = record {
  head_eq = refl;
  tail_eq = refl;
  head_in = omega arith;
  tail_in = omega arith;
}

hget_abc-short : 64 + 2 * length (post_text (codes "HGET abc")) ≤ 1024
unfolding print_decimal print_digits
hget_abc-short = omega arith

body_runs_on_example :
    read_conn registrations routes (bytes (post_text (codes "HGET abc"))) 9 9 used_conn sample
    ≡ runs_task
        (with_request (read (bytes (post_text (codes "HGET abc"))) 9 used_conn).1)
        (headers_size (codes "HGET abc"))
        0
        (codes "HGET abc"
          ++ c_string (drop (length (post_text (codes "HGET abc"))) used_conn.read_buffer.buffer))
        9
        sample
body_runs_on_example =
    body_runs_on used_conn 64 0 (codes "HGET abc") 9 9 sample used_conn-HasReceived hget_abc-short
      refl (omega arith) (omega arith)

b-IsCommand : IsCommand (hget (codes "b"))
b-IsCommand = (((λ e. cc), omega arith), (ascii-IsIndexed (codes "b") (omega arith)).0)

session_example :
    Returns
      (serve_all (map text_of (set_b ∷ hcount ∷ hget (codes "b") ∷ [])) sample)
      (ServesAll sample (set_b ∷ hcount ∷ hget (codes "b") ∷ []))
session_example =
    session (set_b ∷ hcount ∷ hget (codes "b") ∷ []) (set_b-IsCommand, (tt, (b-IsCommand, tt)))
      sample-IsValid sample-memory

unseen_restart_example :
    Returns
      (two_processes
        (map text_of (set_b ∷ []))
        (map text_of (hcount ∷ hget (codes "b") ∷ []))
        empty
        start
        disk)
      λ r.
        IsValid r.1
        × (r.0
            ≡ spec_replies (view empty.hash) (size empty) (set_b ∷ hcount ∷ hget (codes "b") ∷ []))
        × (view r.1.hash ≡ spec_maps (view empty.hash) (set_b ∷ hcount ∷ hget (codes "b") ∷ []))
unseen_restart_example =
    unseen_restart disk (set_b ∷ []) (hcount ∷ hget (codes "b") ∷ []) (set_b-IsCommand, tt)
      (omega arith, tt) (tt, (b-IsCommand, tt)) empty-IsValid empty-memory
      (λ k v e. cc (e, empty-view k)) start-IsStart refl refl

request-Does_example :
    Does sample (message_request (codes "  HSET a  ")) (kvstore_request (codes "  HSET a  ") sample)
unfolding words_in
request-Does_example =
    request-Does sample-IsValid sample-memory (codes "  HSET a  ")
      ((ascii-IsIndexed (codes "HSET") (omega arith)).0, (a-IsIndexed, tt))

-- The store with one pair, and the same store after a request that changes nothing.
abbrev one_pair_store : Store
one_pair_store = Quot.mk (sample, sample-IsValid, sample-memory)

abbrev set_c : Command
set_c = hset (codes "cc") (codes "3")

set_c-IsCommand : IsCommand set_c
set_c-IsCommand = (
  ((λ e. cc), omega arith),
  (ascii-IsIndexed (codes "cc") (omega arith)).0,
  ((λ e. cc), omega arith),
)

hset_comm_example :
    store_after set_c set_c-IsCommand (store_after set_b set_b-IsCommand one_pair_store)
    ≡ store_after set_b set_b-IsCommand (store_after set_c set_c-IsCommand one_pair_store)
hset_comm_example =
    hset_comm (codes "b") (codes "2") (codes "cc") (codes "3") set_b-IsCommand set_c-IsCommand
      (λ e. omega (arith, ap length e)) one_pair_store

init_kvengine-IsLive_example :
    Returns
      (init_kvengine start
        (record { file = some (codes "a:1\nno colon\n:\na"); writable = false; readable = true }))
      IsLive
init_kvengine-IsLive_example =
    init_kvengine-IsLive start
      (record { file = some (codes "a:1\nno colon\n:\na"); writable = false; readable = true })
      start-IsStart (omega arith)
