-- ===== src/Tests/Requests.antt =====
-- HTTP requests: the parser, the factory and the routes.
use kvstore_epoll.Prelude.{
  ◌≡◌, refl, none, some, Bytes, codes, true, arith, if◌then◌else◌, ok, ◌||◌,
}
use kvstore_epoll.Http.View.{
  is_prefix, find, find_at, substr, trim_left, trim_right, stoul, skip_white, signed_value,
  unsigned_value, digits_value,
}
use kvstore_epoll.Http.Parser.{header_value, parse}
use kvstore_epoll.Http.Factory.{http_parser, get_parser, registrations}
use kvstore_epoll.Http.Select.{get_parser-registrations}
use kvstore_epoll.Http.Complete.{HasLength, complete-wraps}

get_parser-registrations_example : get_parser (codes "PUT /") registrations ≡ (
    if is_prefix (codes "POST") (codes "PUT /") || is_prefix (codes "GET") (codes "PUT /")
    then some http_parser
    else none)
get_parser-registrations_example = get_parser-registrations (codes "PUT /")

-- A request that promises 2 ^ 64 - 30 bytes.
abbrev huge_request : Bytes
huge_request = codes "POST / HTTP/1.1\r\nContent-Length: 18446744073709551586\r\n\r\n"

huge_request-HasLength : HasLength huge_request 53 17 53
unfolding find find_at is_prefix
huge_request-HasLength = record { headers = refl; field = refl; inside = omega arith; line = refl }

huge_request-number : stoul (header_value huge_request 17 53) ≡ ok 18446744073709551586
unfolding stoul header_value substr trim_left trim_right skip_white signed_value unsigned_value
    digits_value
huge_request-number = refl

complete-wraps_example : parse huge_request ≡ ok true
complete-wraps_example =
    complete-wraps huge_request-HasLength 18446744073709551586 huge_request-number (omega arith)
      (omega arith) (omega arith)
