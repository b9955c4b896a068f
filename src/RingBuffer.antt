-- ===== src/RingBuffer.antt =====
-- network/connect_info/ring_buffer.cpp: the buffer of a connection, of which the class keeps only
-- the positions; the bytes are written by its clients through `get_buffer`.
pub mod Bounds
use kvstore_epoll.Prelude.{
  ℕ, Bool, true, false, Bytes, if◌then◌else◌, ℤ, pos, ◌+ℤ◌, ◌-ℤ◌, ◌%ℤ◌, ltb_ℤ, eqb_ℤ,
}

abbrev pub ring_buffer_size : ℕ
ring_buffer_size = 1024

-- `_head` and `_tail` are C's `int`
pub record RingBuffer : Type 0 where
  pub buffer : Bytes
  pub head : ℤ
  pub tail : ℤ

-- `ring_buffer::ring_buffer()`, on the bytes that the object finds in place
abbrev pub fresh : Bytes → RingBuffer
fresh bytes = record { buffer = bytes; head = pos 0; tail = pos 0 }

abbrev pub get_buffer : RingBuffer → Bytes
get_buffer r = r.buffer

abbrev pub get_head : RingBuffer → ℤ
get_head r = r.head

abbrev pub get_tail : RingBuffer → ℤ
get_tail r = r.tail

-- `not_useSize`
unfoldable pub not_use_size : RingBuffer → ℤ
not_use_size r =
    let used =
      if ltb_ℤ r.tail r.head then pos ring_buffer_size -ℤ r.head +ℤ r.tail else r.tail -ℤ r.head in
    pos ring_buffer_size -ℤ used

unfoldable pub used_size : RingBuffer → ℤ
used_size r = (r.tail -ℤ r.head +ℤ pos ring_buffer_size) %ℤ ring_buffer_size

unfoldable pub writed : ℤ → RingBuffer → Bool × RingBuffer
writed len r =
    if ltb_ℤ (not_use_size r) len
    then (false, r)
    else (true, record r { tail = (r.tail +ℤ len) %ℤ ring_buffer_size })

unfoldable pub readed : ℤ → RingBuffer → Bool × RingBuffer
readed len r =
    if eqb_ℤ r.head r.tail
    then (false, r)
    else (true, record r { head = (r.head +ℤ len) %ℤ ring_buffer_size })
