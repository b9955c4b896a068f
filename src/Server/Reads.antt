-- ===== src/Server/Reads.antt =====
-- A request for the store, from the bytes that arrive to the map that changes.
use kvstore_epoll.Prelude.{
  ℕ, ◌≡◌, refl, some, ◌∷◌, Bytes, codes, true, false, ◌||◌, ok, is_negative, is_zero, Returns,
  arith, strcmp_eq,
}
use kvstore_epoll.Memory.{NeverFails}
use kvstore_epoll.Hash.Table.{Engine}
use kvstore_epoll.Hash.View.{IsValid}
use kvstore_epoll.Kvstore.Words.{join}
use kvstore_epoll.Kvstore.Commands.{Command, IsCommand, words}
use kvstore_epoll.Http.View.{is_prefix}
use kvstore_epoll.Http.Parser.{parse, handle, get_key_url}
use kvstore_epoll.Http.Factory.{registrations}
use kvstore_epoll.Http.Select.{get_parser-registrations}
use kvstore_epoll.Connection.{ConnectionInfo, bytes, read, visible, convert_request}
use kvstore_epoll.Router.Table.{register_router, get_handler}
use kvstore_epoll.Router.Task.{Outcome, routes, http_task_get2}
use kvstore_epoll.Router.Answers.{HasBody, Answers, task-Answers}
use kvstore_epoll.Server.Events.{handled, run_handler, deal_request, read_conn}

-- A connection with its request.
abbrev pub with_request : ConnectionInfo → ConnectionInfo
with_request c = record c { request = some (handle (visible c.read_buffer)) }

-- What the parser is shown is a complete POST to the store, with the body at `offset`.
pub record IsPost (c : ConnectionInfo) (offset tail : ℕ) (body rest : Bytes) : Type 0 where
  pub begins : is_prefix (codes "POST") (visible c.read_buffer) ≡ true
  pub whole : parse (visible c.read_buffer) ≡ ok true
  pub route : get_key_url (handle (visible c.read_buffer)) ≡ codes "POST/usr/kvstore"
  pub has_body : HasBody (with_request c) (handle (visible c.read_buffer)) offset tail body rest

pub handler-post : get_handler (codes "POST/usr/kvstore") routes ≡ some http_task_get2
unfolding get_handler routes register_router strcmp_eq
handler-post = refl

convert-post :
    {c : ConnectionInfo} {offset tail : ℕ} {body rest : Bytes}
    → IsPost c offset tail body rest
    → convert_request registrations c ≡ ok (true, with_request c)
unfolding convert_request
convert-post {c} p =
    rw (convert_request, get_parser-registrations (visible c.read_buffer), p.begins, p.whole) refl

pub read-some :
    (c : ConnectionInfo) (b : ℕ) (bs : Bytes) (now : ℕ)
    → let ret = (read (bytes (b ∷ bs)) now c).0 in (is_negative ret || is_zero ret) ≡ false
unfolding read
read-some c b bs now = ground arith

-- A complete POST to the store whose body is a command ended by a NUL, which a read has put into the
-- buffer of its connection with room for a reply, is answered in the same round of the loop on a
-- valid table with memory at hand: the map changes as the specification says, the answer stands in
-- the write buffer, the table stays valid, and the connection is marked as active.
pub read_conn-Answers :
    (c : ConnectionInfo) (b : ℕ) (bs : Bytes) (now later : ℕ) {e : Engine} {rest : Bytes}
    {offset tail : ℕ} (cmd : Command)
    → IsPost (read (bytes (b ∷ bs)) now c).1 offset tail (join (words cmd)) rest
    → IsCommand cmd
    → IsValid e
    → NeverFails e.heap
    → Returns (read_conn registrations routes (bytes (b ∷ bs)) now later c e) λ d.
      (r : Outcome) × (d ≡ handled r)
      × Answers (read (bytes (b ∷ bs)) now c).1 tail cmd e r
      × (r.conn.last_active_time ≡ later)
unfolding read_conn deal_request run_handler
read_conn-Answers c b bs now later {e} cmd p is valid memory =
    let (r, run, a) = task-Answers cmd p.has_body is valid memory in
    let r' : Outcome = record r { conn = record (r.conn) { last_active_time = later } } in
    (
      handled r',
      rw (read-some c b bs now, convert-post p, p.route, handler-post, run) refl,
      (
        r',
        refl,
        record {
          valid = a.valid;
          map = a.map;
          reply = a.reply;
          memory = a.memory;
          descriptor = a.descriptor;
        },
        refl,
      ),
    )
