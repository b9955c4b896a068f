-- ===== src/Router/Answers.antt =====
-- The two routes, and what a client of them is sent.
use kvstore_epoll.Prelude.{
  ℕ, ◌+◌, ◌≤◌, ◌≡◌, refl, some, [], ◌∷◌, ◌++◌, Bytes, false, ◌>>=◌, Returns, drop, pos, All, arith,
  ltb, ◌≢◌,
}
use kvstore_epoll.Memory.{NeverFails}
use kvstore_epoll.Hash.Table.{Engine}
use kvstore_epoll.Hash.View.{IsValid, view}
use kvstore_epoll.Hash.Disk.{buffer_length}
use kvstore_epoll.Kvstore.Words.{join}
use kvstore_epoll.Kvstore.Commands.{Command, IsCommand, words, spec_reply, spec_map, size}
use kvstore_epoll.Kvstore.Refine.{serve}
use kvstore_epoll.Http.Parser.{HttpRequest}
use kvstore_epoll.RingBuffer.{ring_buffer_size}
use kvstore_epoll.Connection.{ConnectionInfo}
use kvstore_epoll.Router.Task.{Outcome, http_task_get2, c_string, put_reply, write_start, respond}

-- A connection whose request has a body at `offset`, ended by a NUL, and room for a reply.
pub record HasBody (c : ConnectionInfo) (request : HttpRequest) (offset tail : ℕ)
    (body rest : Bytes) : Type 0 where
  pub request_eq : c.request ≡ some request
  pub data_eq : request.request_data ≡ some offset
  pub text : drop offset c.read_buffer.buffer ≡ body ++ (0 ∷ rest)
  pub ended : All (λ b. b ≢ 0) body
  pub tail_eq : c.write_buffer.tail ≡ pos tail
  pub room : tail + buffer_length ≤ ring_buffer_size

c_string-body : (body rest : Bytes) → All (λ b. b ≢ 0) body → c_string (body ++ (0 ∷ rest)) ≡ body
unfolding c_string
c_string-body [] rest h = refl
c_string-body (b ∷ body) rest h = ground (arith, c_string-body body rest h.1)

-- What the task for the store has done when it ends in `r`.
pub record Answers (c : ConnectionInfo) (tail : ℕ) (cmd : Command) (e : Engine) (r : Outcome)
    : Type 0 where
  pub valid : IsValid r.engine
  pub map : (j : Bytes) → view r.engine.hash j ≡ spec_map (view e.hash) cmd j
  pub reply :
      r.conn.write_buffer.buffer
      ≡ put_reply (some (spec_reply (view e.hash) (size e) cmd)) tail c.write_buffer.buffer
  pub memory : NeverFails r.engine.heap
  pub descriptor : r.conn.fd ≡ c.fd

-- A request whose body is a command ended by a NUL, handed to the task for the store with room for a
-- reply in the write buffer, a valid table and memory at hand, runs the command: the map changes as
-- the specification says, the answer stands in the write buffer at its tail, and the table stays
-- valid.
pub task-Answers :
    {c : ConnectionInfo} {e : Engine} {request : HttpRequest} {offset tail : ℕ} {rest : Bytes}
    (cmd : Command)
    → HasBody c request offset tail (join (words cmd)) rest
    → IsCommand cmd
    → IsValid e
    → NeverFails e.heap
    → Returns (http_task_get2 c e) (Answers c tail cmd e)
unfolding http_task_get2 write_start
task-Answers {c} {e} {request} {offset} {tail} {rest} cmd h is valid memory =
    let ((reply, e'), run, p) = serve valid memory cmd is in
    let fits : ltb ring_buffer_size (tail + buffer_length) ≡ false = ground (arith, h.room) in
    let body : c_string (drop offset c.read_buffer.buffer) ≡ join (words cmd) =
      rw h.text (c_string-body (join (words cmd)) rest h.ended) in
    (
      respond c offset tail reply e',
      rw (h.tail_eq, fits, ◌>>=◌, h.request_eq, h.data_eq, body, run) refl,
      record {
        valid = p.valid;
        map = p.map;
        reply = rw p.reply refl;
        memory = p.memory;
        descriptor = refl;
      },
    )
