-- ===== src/Server/Posts.antt =====
-- A POST to the store, from the text that a client sends to the map that changes.
use kvstore_epoll.Prelude.{
  ℕ, zero, suc, ◌+◌, ◌-◌, ◌*◌, ◌≤◌, ◌≡◌, ◌≢◌, refl, ap, ◌∙◌, [], ◌∷◌, ◌++◌, Bytes, All, length, Run,
  Option, some, codes, true, false, fault, ok, ◌>>=◌, ltb, pos, length-append, take, drop, Returns,
  arith, append_assoc,
}
use native.Mathlib.Nat.{suc-add}
use kvstore_epoll.Memory.{NeverFails}
use kvstore_epoll.Hash.Table.{Engine}
use kvstore_epoll.Hash.View.{IsValid}
use kvstore_epoll.Hash.Disk.{buffer_length}
use kvstore_epoll.Kvstore.Protocol.{kvstore_request}
use kvstore_epoll.Http.Select.{get_parser-registrations}
use kvstore_epoll.Kvstore.Words.{join}
use kvstore_epoll.Kvstore.Decimal.{print_decimal}
use kvstore_epoll.Kvstore.Commands.{Command, IsCommand, words}
use kvstore_epoll.RingBuffer.{ring_buffer_size}
use kvstore_epoll.Http.View.{is_prefix}
use kvstore_epoll.Http.Factory.{registrations}
use kvstore_epoll.Http.Parser.{HttpRequest, parse, handle, get_key_url}
use kvstore_epoll.Http.Post.{
  request_line, field_name, with_length, end_of_headers, parse-with_length, route-with_length,
  data-with_length, body-with_length,
}
use kvstore_epoll.Connection.{ConnectionInfo, bytes, read, store, visible, convert_request}
use kvstore_epoll.Connection.Receive.{HasReceived, buffer-read, visible-read}
use kvstore_epoll.Router.Task.{Outcome, routes, pad, c_string, write_start, respond, http_task_get2}
use kvstore_epoll.Router.Answers.{Answers}
use kvstore_epoll.Server.Events.{
  Dealt, handled, new_connection, run_handler, deal_request, read_conn,
}
use kvstore_epoll.Server.Reads.{IsPost, with_request, handler-post, read-some, read_conn-Answers}

-- The request with the command for its body.
abbrev pub post_text : Bytes → Bytes
post_text body = with_length (length body) body

abbrev pub headers_size : Bytes → ℕ
headers_size body = end_of_headers (length body) body + 4

with_length-append :
    (n : ℕ) (body behind : Bytes) → with_length n body ++ behind ≡ with_length n (body ++ behind)
with_length-append n body behind =
    ap (λ t. request_line ++ (13 ∷ 10 ∷ (field_name ++ t)))
      (append_assoc (print_decimal n) (13 ∷ 10 ∷ 13 ∷ 10 ∷ body) behind)

length-with_length :
    (n : ℕ) (behind : Bytes)
    → length (with_length n behind) ≡ end_of_headers n behind + 4 + length behind
length-with_length n behind =
    omega (arith, length-append (print_decimal n) (13 ∷ 10 ∷ 13 ∷ 10 ∷ behind))

take-more : (a b : Bytes) (k : ℕ) → take (length a + k) (a ++ b) ≡ a ++ take k b
take-more [] b k = ap (λ m. take m b) (omega arith)
take-more (x ∷ a) b k = rw suc-add (ap (λ t. x ∷ t) (take-more a b k))

drop-pad : (k n : ℕ) → drop k (pad n []) ≡ pad (n - k) []
unfolding pad
drop-pad zero n = ap (λ m. pad m []) (omega arith)
drop-pad (suc k) zero = let e : 0 - suc k ≡ 0 = omega arith in rw e refl
drop-pad (suc k) (suc n) = drop-pad k n ∙ ap (λ m. pad m []) (omega arith)

c_string-append :
    (body rest : Bytes) → All (λ b. b ≢ 0) body → c_string (body ++ rest) ≡ body ++ c_string rest
unfolding c_string
c_string-append [] rest h = refl
c_string-append (b ∷ body) rest h = ground (arith, c_string-append body rest h.1)

-- What the task for the store does with the text that it takes for the body, and `deal_Read` behind it.
abbrev pub runs_task : ConnectionInfo → ℕ → ℕ → Bytes → ℕ → Engine → Run Dealt
runs_task c offset tail text later e = kvstore_request text e >>= λ (reply, e').
    let r = respond c offset tail reply e' in
    ok (handled (record r { conn = record (r.conn) { last_active_time = later } }))

-- What is done with the result of the task, in one step.
after_task :
    (then_ : Option Bytes × Engine → Outcome) (later : ℕ) (run : Run (Option Bytes × Engine))
    → (run >>= (λ r. ok (then_ r)) >>= λ r.
        ok (handled (record r { conn = record (r.conn) { last_active_time = later } })))
      ≡ (run >>= λ r. ok (
          handled
            (record (then_ r) { conn = record ((then_ r).conn) { last_active_time = later } })))
after_task then_ later (fault why) = refl
after_task then_ later (ok r) = refl

-- The task for the store, with room for its reply.
task-runs :
    (c : ConnectionInfo) (request : HttpRequest) (offset tail : ℕ) (text : Bytes) (e : Engine)
    → c.request ≡ some request
    → request.request_data ≡ some offset
    → c.write_buffer.tail ≡ pos tail
    → tail + buffer_length ≤ ring_buffer_size
    → c_string (drop offset c.read_buffer.buffer) ≡ text
    → http_task_get2 c e ≡ kvstore_request text e >>= λ r. ok (respond c offset tail r.0 r.1)
unfolding http_task_get2 write_start
task-runs c request offset tail text e asked at_body tail_eq room text_eq =
    let enough : ltb ring_buffer_size (tail + buffer_length) ≡ false = ground arith in
    rw (tail_eq, enough, ◌>>=◌, asked, at_body, text_eq) refl

write_tail-read :
    (c : ConnectionInfo) (b : ℕ) (bs : Bytes) (now : ℕ)
    → (read (bytes (b ∷ bs)) now c).1.write_buffer.tail ≡ c.write_buffer.tail
unfolding read
write_tail-read c b bs now = ground arith

post-begins :
    (body short : Bytes)
    → is_prefix (codes "POST") (with_length (length body) (body ++ short)) ≡ true
unfolding is_prefix
post-begins body short = refl

-- A POST with its own length announced, read on a connection that has received `n` bytes before, runs
-- the store on more than its body: behind the body comes whatever stood in the buffer behind the
-- request, up to the next NUL, as the rest of a longer request before it. There is room for the
-- reply and for a request of twice the size, and the body has no NUL.
pub body_runs_on :
    (c : ConnectionInfo) (n tail : ℕ) (body : Bytes) (now later : ℕ) (e : Engine)
    → HasReceived c n
    → n + 2 * length (post_text body) ≤ ring_buffer_size
    → c.write_buffer.tail ≡ pos tail
    → tail + buffer_length ≤ ring_buffer_size
    → All (λ b. b ≢ 0) body
    → read_conn registrations routes (bytes (post_text body)) now later c e
      ≡ runs_task
          (with_request (read (bytes (post_text body)) now c).1)
          (headers_size body)
          tail
          (body ++ c_string (drop (length (post_text body)) c.read_buffer.buffer))
          later
          e
unfolding read_conn deal_request run_handler convert_request store
body_runs_on c n tail body now later e received_n fits tail_eq room plain =
    let behind = drop (length (post_text body)) c.read_buffer.buffer in
    let c1 = (read (bytes (post_text body)) now c).1 in
    let short : Bytes =
      take (ring_buffer_size - (n + length (post_text body)) - length (post_text body)) behind in
    let shows : visible c1.read_buffer ≡ with_length (length body) (body ++ short) =
      visible-read c n received_n _ _ now (omega arith)
      ∙ ap (λ k. take k (post_text body ++ behind))
          {x = ring_buffer_size - (n + length (post_text body))}
          {y = length (post_text body)
            + (ring_buffer_size - (n + length (post_text body)) - length (post_text body))}
          (omega arith)
      ∙ take-more (post_text body) behind _
      ∙ with_length-append (length body) body short in
    let text : c_string (drop (headers_size body) c1.read_buffer.buffer) ≡ body ++ c_string behind =
      rw (buffer-read c _ _ now) (
        ap c_string (
          ap (drop (headers_size body)) (with_length-append (length body) body behind)
          ∙ body-with_length (length body) (body ++ behind))
        ∙ c_string-append body behind plain) in
    let whole : parse (visible c1.read_buffer) ≡ ok true = rw shows (
      parse-with_length (length body) (body ++ short) (omega (arith, length-append body short))
        (omega (arith, length-with_length (length body) body))) in
    let begins : is_prefix (codes "POST") (visible c1.read_buffer) ≡ true =
      rw shows (post-begins body short) in
    let route : get_key_url (handle (visible c1.read_buffer)) ≡ codes "POST/usr/kvstore" =
      rw shows (route-with_length (length body) (body ++ short)) in
    let at_body : (handle (visible c1.read_buffer)).request_data ≡ some (headers_size body) =
      rw shows (data-with_length (length body) (body ++ short)) in
    let task =
      task-runs (with_request c1) (handle (visible c1.read_buffer)) (headers_size body) tail
        (body ++ c_string behind) e refl at_body (write_tail-read c _ _ now ∙ tail_eq) room text in
    rw
      (
        read-some c _ _ now,
        ◌>>=◌,
        get_parser-registrations (visible c1.read_buffer),
        begins,
        whole,
        route,
        handler-post,
        task,
      )
      (after_task _ later (kvstore_request (body ++ c_string behind) e))

-- A new connection that has received the request.
abbrev pub received : ℕ → ℕ → ℕ → Bytes → ConnectionInfo
received fd start now body = (read (bytes (post_text body)) now (new_connection fd start)).1

module _ (fd start now : ℕ) (body : Bytes) (plain : All (λ b. b ≢ 0) body)
    (fits : 2 * length (post_text body) ≤ ring_buffer_size) where
  abbrev sent_size : ℕ
  sent_size = length (post_text body)

  -- The zeros behind the request in the buffer.
  zeros_behind :
      drop sent_size (new_connection fd start).read_buffer.buffer
      ≡ 0 ∷ pad (ring_buffer_size - sent_size - 1) []
  unfolding new_connection pad
  zeros_behind =
      drop-pad sent_size ring_buffer_size
      ∙ ap (λ k. pad k []) {x = ring_buffer_size - sent_size}
          {y = suc (ring_buffer_size - sent_size - 1)} (omega arith)

  new-HasReceived : HasReceived (new_connection fd start) 0
  unfolding new_connection
  new-HasReceived = record {
    head_eq = refl;
    tail_eq = refl;
    head_in = omega arith;
    tail_in = omega arith;
  }

  buffer-received :
      (received fd start now body).read_buffer.buffer
      ≡ with_length (length body) (body ++ (0 ∷ pad (ring_buffer_size - sent_size - 1) []))
  unfolding store
  buffer-received =
      rw (buffer-read (new_connection fd start) _ _ now)
        (ap (λ t. post_text body ++ t) zeros_behind ∙ with_length-append (length body) body _)

  abbrev shown : Bytes
  shown =
      take (ring_buffer_size - sent_size - sent_size)
        (0 ∷ pad (ring_buffer_size - sent_size - 1) [])

  visible-received :
      visible (received fd start now body).read_buffer ≡ with_length (length body) (body ++ shown)
  unfolding store
  visible-received =
      visible-read (new_connection fd start) 0 new-HasReceived _ _ now (omega arith)
      ∙ ap (λ t. take (ring_buffer_size - (0 + sent_size)) (post_text body ++ t)) zeros_behind
      ∙ ap (λ k. take k (post_text body ++ (0 ∷ pad (ring_buffer_size - sent_size - 1) [])))
          {x = ring_buffer_size - (0 + sent_size)}
          {y = sent_size + (ring_buffer_size - sent_size - sent_size)} (omega arith)
      ∙ take-more (post_text body) _ (ring_buffer_size - sent_size - sent_size)
      ∙ with_length-append (length body) body shown

  received-IsPost :
      IsPost
        (received fd start now body)
        (headers_size body)
        0
        body
        (pad (ring_buffer_size - sent_size - 1) [])
  unfolding is_prefix read new_connection
  received-IsPost = record {
    begins = rw visible-received refl;
    whole = rw visible-received (
        parse-with_length (length body) (body ++ shown) (omega (arith, length-append body shown))
          (omega (arith, length-with_length (length body) body)));
    route = rw visible-received (route-with_length (length body) (body ++ shown));
    has_body = record {
      request_eq = refl;
      data_eq = rw visible-received (data-with_length (length body) (body ++ shown));
      text = ap (drop (headers_size body)) buffer-received ∙ body-with_length (length body) _;
      ended = plain;
      tail_eq = refl;
      room = omega arith;
    };
  }

-- A client of a new connection that sends a command as a POST, with the command's length in the
-- Content-Length line, and in at most half of the buffer's bytes, is answered in the same round of
-- the loop on a valid table with memory at hand: the map changes as the specification says, the
-- answer stands at the start of the write buffer, the table stays valid, and the connection is marked
-- as active. The words of the command have no NUL.
pub post-Answers :
    (fd start now later : ℕ) {e : Engine} (cmd : Command)
    → All (λ b. b ≢ 0) (join (words cmd))
    → 2 * length (post_text (join (words cmd))) ≤ ring_buffer_size
    → IsCommand cmd
    → IsValid e
    → NeverFails e.heap
    → Returns
        (read_conn registrations routes
          (bytes (post_text (join (words cmd))))
          now
          later
          (new_connection fd start)
          e)
        λ d.
          (r : Outcome) × (d ≡ handled r)
          × Answers (received fd start now (join (words cmd))) 0 cmd e r
          × (r.conn.last_active_time ≡ later)
post-Answers fd start now later cmd plain fits is valid memory =
    read_conn-Answers (new_connection fd start) _ _ now later cmd
      (received-IsPost fd start now (join (words cmd)) plain fits) is valid memory
