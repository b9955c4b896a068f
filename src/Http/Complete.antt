-- ===== src/Http/Complete.antt =====
-- When a request counts as complete.
use kvstore_epoll.Prelude.{
  ℕ, ◌+◌, ◌≤◌, ◌<◌, ◌≡◌, refl, none, some, [], ◌∷◌, Bytes, true, length, ok, fault, uncaught, ◌>>=◌,
  arith, lt→ltb,
}
use kvstore_epoll.Http.View.{is_prefix, find, find_at, stoul, ulong_mod}
use kvstore_epoll.Http.Parser.{
  crlf, blank_line, content_length, header_value, check_length, body_present, is_complete_message,
  parse,
}

-- A request whose headers end at `headers_end` and have a Content-Length line.
pub record HasLength (request : Bytes) (headers_end position line_end : ℕ) : Type 0 where
  pub headers : find blank_line request ≡ some headers_end
  pub field : find content_length request ≡ some position
  pub inside : position < headers_end
  pub line : find_at crlf position request ≡ some line_end

find-nil : find blank_line [] ≡ none
unfolding find is_prefix
find-nil = refl

module _ {request : Bytes} {headers_end position line_end : ℕ}
    (h : HasLength request headers_end position line_end) where
  pub complete-length :
      is_complete_message request
      ≡ stoul (header_value request position line_end) >>= λ n.
          ok (body_present (length request) headers_end n)
  unfolding is_complete_message
  complete-length = go request h
    where
      go :
          (r : Bytes)
          → HasLength r headers_end position line_end
          → is_complete_message r
            ≡ stoul (header_value r position line_end) >>= λ n.
                ok (body_present (length r) headers_end n)
      go [] q = cc (find-nil, q.headers)
      go (b ∷ bs) q =
          rw
            (
              is_complete_message,
              q.headers,
              check_length,
              q.field,
              lt→ltb position headers_end q.inside,
              q.line,
            )
            refl

  -- Where the number of the Content-Length line is so large that the sum of the lengths wraps round
  -- modulo 2 ^ 64 to less than the size of the request, `parse` takes the request for complete,
  -- whatever its body.
  pub complete-wraps :
      (n : ℕ)
      → stoul (header_value request position line_end) ≡ ok n
      → ulong_mod ≤ headers_end + 4 + n
      → headers_end + 4 + n < ulong_mod + length request
      → length request < ulong_mod
      → parse request ≡ ok true
  unfolding body_present parse
  complete-wraps n number wraps close small = rw (complete-length, number) (ground arith)

  -- A Content-Length that is no number ends the process by an exception that nothing catches.
  pub complete-throws :
      stoul (header_value request position line_end) ≡ fault uncaught
      → parse request ≡ fault uncaught
  unfolding parse
  complete-throws bad = rw (complete-length, bad)
