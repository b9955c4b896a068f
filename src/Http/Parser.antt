-- ===== src/Http/Parser.antt =====
-- network/protocol_parser/protocol_parser.cpp, class HttpParser. A `char *` into the buffer is its
-- offset; a buffer and its size are the list of the bytes that the size covers.
use kvstore_epoll.Prelude.{
  ℕ, ◌+◌, ◌-◌, ◌%◌, Option, none, some, [], ◌∷◌, ◌++◌, Bytes, codes, Bool, true, false, length, ltb,
  leb, if◌then◌else◌, Run, ok, ◌>>=◌,
}
use kvstore_epoll.Http.View.{find, find_at, substr, trim_left, trim_right, stoul, ulong_mod}

-- `enum ParseResult`
pub data ParseResult : Type 0 where
  need_more_data complete : ParseResult

-- `HttpRequest`, with the `_method` and the `_data` of its base class
pub record HttpRequest : Type 0 where
  pub method : Bytes
  pub url : Bytes
  pub version : Bytes
  pub request_data : Option ℕ

-- `get_key_URL`
unfoldable pub get_key_url : HttpRequest → Bytes
get_key_url r = r.method ++ r.url

abbrev pub crlf : Bytes
crlf = 13 ∷ 10 ∷ []

abbrev pub blank_line : Bytes
blank_line = 13 ∷ 10 ∷ 13 ∷ 10 ∷ []

abbrev pub content_length : Bytes
content_length = codes "Content-Length:"

-- `buffer_size >= headers_end + 4 + content_len` on `size_t`
unfoldable pub body_present : ℕ → ℕ → ℕ → ParseResult
body_present size headers_end content_len =
    if leb ((headers_end + 4 + content_len) % ulong_mod) size then complete else need_more_data

-- The value of the header at `position`, whose line ends at `line_end`.
unfoldable pub header_value : Bytes → ℕ → ℕ → Bytes
header_value request position line_end =
    trim_right (trim_left (substr (position + 15) (line_end - (position + 15)) request))

-- The part from `request.find("Content-Length:")` on.
unfoldable pub check_length : Bytes → ℕ → Run ParseResult
unfolding header_value body_present
check_length request headers_end = elim (find content_length request) [
  | none ↦ ok complete
  | some position ↦
      if ltb position headers_end
      then (elim (find_at crlf position request) [
        | none ↦ ok complete
        | some line_end ↦ do
          content_len ← stoul (header_value request position line_end)
          ok (body_present (length request) headers_end content_len)
      ])
      else ok complete
]

unfoldable pub is_complete_message : Bytes → Run ParseResult
unfolding check_length
is_complete_message [] = ok need_more_data
is_complete_message (b ∷ bs) = elim (find blank_line (b ∷ bs)) [
  | none ↦ ok need_more_data
  | some headers_end ↦ check_length (b ∷ bs) headers_end
]

-- `Head`: the start of the buffer, once the headers are there.
unfoldable pub head_of : Bytes → Option ℕ
head_of request = elim (find blank_line request) [ none ↦ none | some headers_end ↦ some 0 ]

-- `Data`
unfoldable pub data_of : Bytes → Option ℕ
data_of request = elim (find blank_line request) [
  | none ↦ none
  | some headers_end ↦ some (headers_end + 4)
]

abbrev space : Bytes
space = b' ' ∷ []

-- `Method`
unfoldable pub method_of : Bytes → Bytes
method_of request = elim (find space request) [
  | none ↦ []
  | some method_end ↦ substr 0 method_end request
]

-- `URL`
unfoldable pub url_of : Bytes → Bytes
url_of request = elim (find space request) [
  | none ↦ []
  | some method_end ↦ elim (find_at space (method_end + 1) request) [
    | none ↦ []
    | some url_end ↦ substr (method_end + 1) (url_end - method_end - 1) request
  ]
]

unfoldable pub parse : Bytes → Run Bool
parse request = do
  result ← is_complete_message request
  ok (elim result [ need_more_data ↦ false | complete ↦ true ])

unfoldable pub handle : Bytes → HttpRequest
unfolding method_of url_of data_of
handle request = record {
  method = method_of request;
  url = url_of request;
  version = codes "HTTP/1.1";
  request_data = data_of request;
}
