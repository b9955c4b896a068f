-- ===== src/RingBuffer/Bounds.antt =====
-- The positions stay inside the buffer, and the two sizes against a count of the stored bytes.
use kvstore_epoll.Prelude.{
  ℕ, ◌+◌, ◌-◌, ◌%◌, ◌≤◌, ◌<◌, ◌≡◌, ◌≢◌, not, arith, if◌then◌else◌, ltb, leb, ◌==◌, pos, negsuc,
  ◌+ℤ◌, ◌-ℤ◌, ◌%ℤ◌,
}
use kvstore_epoll.RingBuffer.{RingBuffer, ring_buffer_size, not_use_size, used_size, writed, readed}

-- Both positions are indices of the buffer.
pub record InBounds (r : RingBuffer) (head tail : ℕ) : Type 0 where
  pub head_eq : r.head ≡ pos head
  pub tail_eq : r.tail ≡ pos tail
  pub head_in : head < ring_buffer_size
  pub tail_in : tail < ring_buffer_size

-- The bytes between the positions.
abbrev pub stored : ℕ → ℕ → ℕ
stored head tail = (tail + ring_buffer_size - head) % ring_buffer_size

used_size-stored :
    {r : RingBuffer} {head tail : ℕ} → InBounds r head tail → used_size r ≡ pos (stored head tail)
unfolding used_size ◌+ℤ◌ ◌-ℤ◌ ◌%ℤ◌
used_size-stored {r} {head} {tail} b = rw (b.head_eq, b.tail_eq) (ground arith)

not_use_size-stored :
    {r : RingBuffer} {head tail : ℕ}
    → InBounds r head tail
    → not_use_size r ≡ pos (ring_buffer_size - stored head tail)
unfolding not_use_size ◌+ℤ◌ ◌-ℤ◌ ◌%ℤ◌
not_use_size-stored {r} {head} {tail} b = rw (b.head_eq, b.tail_eq) (ground arith)

-- With both positions inside the buffer, `used_size` is the number of bytes from head to tail, going
-- round, `not_useSize` is the rest of the buffer, and the two add up to its size.
pub sizes :
    {r : RingBuffer} {head tail : ℕ}
    → InBounds r head tail
    → (used_size r ≡ pos (stored head tail))
      × (not_use_size r ≡ pos (ring_buffer_size - stored head tail))
      × (used_size r +ℤ not_use_size r ≡ pos ring_buffer_size)
unfolding ◌+ℤ◌
sizes b = (
  used_size-stored b,
  not_use_size-stored b,
  rw (used_size-stored b, not_use_size-stored b) (ground arith),
)

-- With both positions inside the buffer, `writed` accepts exactly the lengths that fit. It then
-- moves the tail, and the stored bytes grow by the length, but a write that fills the buffer leaves
-- it empty. A longer length changes nothing.
pub writed_lem :
    {r : RingBuffer} {head tail : ℕ} (n : ℕ)
    → InBounds r head tail
    → let (done, r') = writed (pos n) r in
      let old = stored head tail in
      let room = ring_buffer_size - old in
      let tail' = if leb n room then (tail + n) % ring_buffer_size else tail in
      (done ≡ leb n room)
      × InBounds r' head tail'
      × (stored head tail' ≡ (if ltb n room then old + n else if n == room then 0 else old))
unfolding writed ◌+ℤ◌ ◌%ℤ◌
writed_lem {r} {head} {tail} n b =
    (ground (arith, not_use_size-stored b), ground (arith, not_use_size-stored b), ground arith)

-- With both positions inside the buffer, `readed` of at most the stored bytes takes them off; of
-- more, up to the size of the buffer, it moves the head past the tail, and the buffer then reports
-- stale bytes as stored. On an empty buffer it does nothing.
pub readed_lem :
    {r : RingBuffer} {head tail : ℕ} (n : ℕ)
    → InBounds r head tail
    → n ≤ ring_buffer_size
    → let (done, r') = readed (pos n) r in
      let old = stored head tail in
      let head' = if head == tail then head else (head + n) % ring_buffer_size in
      (done ≡ not (head == tail))
      × InBounds r' head' tail
      × (stored head' tail
          ≡ (if head == tail then 0 else if leb n old then old - n else old + ring_buffer_size - n))
unfolding readed ◌+ℤ◌ ◌%ℤ◌
readed_lem {r} {head} {tail} n b small = (ground arith, ground arith, ground arith)

-- With both positions inside a buffer that is not empty, `readed` of a negative length that passes
-- below the start of the buffer, by less than its size, leaves a negative head.
pub readed_negative :
    {r : RingBuffer} {head tail : ℕ} (k : ℕ)
    → InBounds r head tail
    → head ≢ tail
    → head ≤ k
    → k - head < ring_buffer_size - 1
    → (readed (negsuc k) r).1.head ≡ negsuc (k - head)
unfolding readed ◌+ℤ◌ ◌%ℤ◌
readed_negative {r} {head} {tail} k b ne low short = rw (b.head_eq, b.tail_eq) (ground arith)
