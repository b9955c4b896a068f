-- ===== src/Router/Task.antt =====
-- task_and_router/http_task.h: the responses, and the two registered tasks.
use kvstore_epoll.Prelude.{
  ℕ, zero, suc, ◌+◌, ltb, Option, none, some, List, [], ◌∷◌, ◌++◌, Bytes, codes, Bool, true, false,
  if◌then◌else◌, Run, ok, fault, out_of_bounds, ◌>>=◌, deref, drop, pos, negsuc, take, ◌==◌,
}
use kvstore_epoll.Hash.Disk.{buffer_length}
use kvstore_epoll.Hash.Table.{Engine}
use kvstore_epoll.Kvstore.Protocol.{kvstore_request}
use kvstore_epoll.Kvstore.Decimal.{print_decimal}
use kvstore_epoll.Http.Parser.{crlf}
use kvstore_epoll.RingBuffer.{RingBuffer, ring_buffer_size}
use kvstore_epoll.Connection.{ConnectionInfo}
use kvstore_epoll.Router.Table.{register_router}

-- `HttpResponse`; the headers stand in the order in which the `unordered_map` is walked.
pub record HttpResponse : Type 0 where
  pub response_line : Bytes
  pub headers : List (Bytes × Bytes)
  pub body : Bytes

-- The headers of a new response.
abbrev pub default_headers : List (Bytes × Bytes)
default_headers =
    (codes "Content-Type", codes "text/html; charset=utf-8")
    ∷ (codes "Connection", codes "keep-alive")
    ∷ []

-- `headers_str += header.first + ": " + header.second + "\r\n"`
unfoldable pub print_headers : List (Bytes × Bytes) → Bytes
print_headers [] = []
print_headers ((name, value) ∷ rest) = name ++ codes ": " ++ value ++ crlf ++ print_headers rest

-- The text that `send_simple_response` sends.
unfoldable pub full_response : HttpResponse → Bytes
full_response r =
    r.response_line ++ print_headers r.headers ++ crlf ++ crlf ++ crlf ++ r.body ++ crlf

-- `build_response`
unfoldable pub build_response : Bytes → Bytes → HttpResponse
build_response line body = record { response_line = line; headers = default_headers; body = body }

-- `build_full_response`, which leaves the headers out.
unfoldable pub build_full_response : HttpResponse → Bytes
build_full_response r = r.response_line ++ crlf ++ crlf ++ crlf ++ r.body ++ crlf

-- `http_build_response_line`
unfoldable pub http_build_response_line : ℕ → Bytes → Bytes
http_build_response_line status_code reason =
    codes "HTTP/1.1 " ++ print_decimal status_code ++ codes " " ++ reason ++ crlf

-- `headers[header] = headers_str` on the function's own copy of the strings
unfoldable pub http_build_headers : Bytes → Bytes → List (Bytes × Bytes) → List (Bytes × Bytes)
http_build_headers = register_router

-- What a task does: the store after it, the connection after it, and what it sends.
pub record Outcome : Type 0 where
  pub engine : Engine
  pub conn : ConnectionInfo
  pub sent : Bytes

abbrev pub response_ok : Bytes → HttpResponse
response_ok body = record {
  response_line = codes "HTTP/1.1 200 OK";
  headers = default_headers;
  body = body;
}

unfoldable pub http_task_get1 : ConnectionInfo → Engine → Run Outcome
http_task_get1 c e = ok (record {
  engine = e;
  conn = c;
  sent = full_response (response_ok (codes "<h1>Hello, World!</h1>"));
})

-- The C string at an offset of the buffer: the bytes before the next NUL.
unfoldable pub c_string : Bytes → Bytes
c_string [] = []
c_string (b ∷ bs) = let rest = c_string bs in if b == 0 then [] else b ∷ rest

-- `memset` and `snprintf` on a buffer of `n` bytes: the text and NULs.
unfoldable pub pad : ℕ → Bytes → Bytes
pad zero text = []
pad (suc n) [] = 0 ∷ pad n []
pad (suc n) (b ∷ bs) = b ∷ pad n bs

-- The write buffer after `kvstore_request` has written to its tail; the positions stay.
unfoldable pub put_reply : Option Bytes → ℕ → Bytes → Bytes
put_reply none at_ buffer = buffer
put_reply (some text) at_ buffer =
    take at_ buffer ++ pad buffer_length text ++ drop (at_ + buffer_length) buffer

-- What `strtok` leaves of its message: the space behind each token is a NUL.
unfoldable pub mark_tokens : Bool → Bytes → Bytes
mark_tokens inside [] = []
mark_tokens inside (b ∷ bs) =
    let after_space = mark_tokens false bs in
    let after_byte = mark_tokens true bs in
    if b == 0
    then b ∷ bs
    else if b == b' '
    then (if inside then 0 else b) ∷ after_space
    else b ∷ after_byte

-- `_write_buffer.get_buffer() + get_tail()`, where the BUFFER_LENGTH bytes from there on lie in the
-- buffer
unfoldable pub write_start : RingBuffer → Run ℕ
write_start r = elim r.tail [
  | negsuc n ↦ fault out_of_bounds
  | pos t ↦ if ltb ring_buffer_size (t + buffer_length) then fault out_of_bounds else ok t
]

-- What is left after `kvstore_request`: both buffers changed in place, and the constant response.
unfoldable pub respond : ConnectionInfo → ℕ → ℕ → Option Bytes → Engine → Outcome
respond c offset start reply e =
    let text = c.read_buffer.buffer in
    record {
      engine = e;
      conn = record c {
        read_buffer = record (c.read_buffer) {
          buffer = take offset text ++ mark_tokens false (drop offset text);
        };
        write_buffer = record (c.write_buffer) {
          buffer = put_reply reply start c.write_buffer.buffer;
        };
      };
      sent = full_response (response_ok (codes "<h1>set success</h1>"));
    }

-- `http_task_get2`. The body is a C string in the read buffer: it ends at a NUL, or behind the
-- buffer at the first byte of `_head`, which is 0.
unfoldable pub http_task_get2 : ConnectionInfo → Engine → Run Outcome
unfolding respond
http_task_get2 c e = do
  start ← write_start c.write_buffer
  request ← deref c.request
  offset ← deref request.request_data
  (reply, e') ← kvstore_request (c_string (drop offset c.read_buffer.buffer)) e
  ok (respond c offset start reply e')

-- REGISTER_HTTP_TASK, twice
abbrev pub Handler : Type 0
Handler = ConnectionInfo → Engine → Run Outcome

unfoldable pub routes : List (Bytes × Handler)
unfolding register_router
routes =
    register_router (codes "POST/usr/kvstore") http_task_get2
      (register_router (codes "GET/usr/zhang") http_task_get1 [])
