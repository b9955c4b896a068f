-- ===== src/Connection.antt =====
-- network/connect_info/connect_info.h: one connection, its two buffers, and how received bytes become
-- a request. The system calls are the environment: `recv` gives an error or some bytes, `send` gives
-- the number that it took or an error, and `time` the current second.
pub mod Receive
use kvstore_epoll.Prelude.{
  ℕ, zero, suc, ◌+◌, ◌-◌, Option, none, some, List, [], ◌∷◌, ◌++◌, Bytes, Bool, true, false, length,
  take, drop, if◌then◌else◌, Run, ok, ◌>>=◌, ℤ, pos, negsuc, pos_part, is_negative,
}
use kvstore_epoll.RingBuffer.{RingBuffer, fresh, not_use_size, used_size, writed, readed}
use kvstore_epoll.Http.Parser.{HttpRequest, parse, handle}
use kvstore_epoll.Http.Factory.{Registry, ProtocolParser, http_parser, get_parser}

-- `ConnectionInfo`; the peer's address is not read by the program and is left out.
pub record ConnectionInfo : Type 0 where
  pub fd : ℤ
  pub read_buffer : RingBuffer
  pub write_buffer : RingBuffer
  pub request : Option HttpRequest
  pub last_active_time : ℕ

-- `reset`
unfoldable pub reset : ConnectionInfo → ConnectionInfo
reset c = record c { fd = negsuc 0; request = none }

-- What `recv` returns: the bytes that it stored at the start of the buffer (none at the end of the
-- stream), or -1.
pub data Received : Type 0 where
  failed : Received
  bytes : Bytes → Received

-- Bytes stored at the start of the buffer.
unfoldable pub store : Bytes → Bytes → Bytes
store new buffer = new ++ drop (length new) buffer

-- `read`: the bytes always go to the start of the buffer, wherever the tail is.
unfoldable pub read : Received → ℕ → ConnectionInfo → ℤ × ConnectionInfo
read failed now c = (negsuc 0, c)
read (bytes []) now c = (pos 0, c)
read (bytes (b ∷ bs)) now c =
    let count = pos (length (b ∷ bs)) in
    let filled = record (c.read_buffer) { buffer = store (b ∷ bs) c.read_buffer.buffer } in
    (count, record c { read_buffer = (writed count filled).1; last_active_time = now })

-- `write`: the result of `send` goes to `readed` unchecked.
unfoldable pub write : ℤ → ℕ → ConnectionInfo → ℤ × ConnectionInfo
write sent now c =
    (sent, record c { write_buffer = (readed sent c.write_buffer).1; last_active_time = now })

-- The bytes that the parser is shown: as many from the start as `not_useSize` says.
unfoldable pub visible : RingBuffer → Bytes
visible r = take (pos_part (not_use_size r)) r.buffer

abbrev parsed : ConnectionInfo → Bytes → Bool → Bool × ConnectionInfo
parsed c request true = (true, record c { request = some (handle request) })
parsed c request false = (false, c)

-- `convert_request`, with the factory's registrations
unfoldable pub convert_request : Registry → ConnectionInfo → Run (Bool × ConnectionInfo)
convert_request registry c =
    let request = visible c.read_buffer in
    elim (get_parser request registry) [
      | none ↦ ok (false, c)
      | some http_parser ↦ do done ← parse request; ok (parsed c request done)
    ]
