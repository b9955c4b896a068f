-- ===== src/Connection/Receive.antt =====
-- What a connection makes of the bytes that it receives.
use kvstore_epoll.Prelude.{
  ℕ, zero, suc, ◌+◌, ◌-◌, ◌≤◌, ◌<◌, ◌≡◌, refl, ap, ◌∙◌, List, [], ◌∷◌, ◌++◌, Bytes, length,
  length-take, ◌%◌, if◌then◌else◌, leb, take, drop, arith, pos,
}
use kvstore_epoll.RingBuffer.{ring_buffer_size, not_use_size, writed}
use kvstore_epoll.RingBuffer.Bounds.{InBounds, stored, writed_lem, sizes}
use kvstore_epoll.Connection.{ConnectionInfo, bytes, store, read, visible}

take_prefix : {A : Type 0} (n : ℕ) (xs ys : List A) → n ≤ length xs → take n (xs ++ ys) ≡ take n xs
take_prefix zero xs ys h = refl
take_prefix (suc n) [] ys h = absurd (omega arith)
take_prefix (suc n) (x ∷ xs) ys h = ap (λ t. x ∷ t) (take_prefix n xs ys (omega arith))

-- The read buffer of a connection that has received `n` bytes altogether, short of its size.
abbrev pub HasReceived : ConnectionInfo → ℕ → Type 0
HasReceived c n = InBounds c.read_buffer 0 n

-- A read stores its bytes at the start of the buffer, whatever the positions.
pub buffer-read :
    (c : ConnectionInfo) (b : ℕ) (bs : Bytes) (now : ℕ)
    → (read (bytes (b ∷ bs)) now c).1.read_buffer.buffer ≡ store (b ∷ bs) c.read_buffer.buffer
unfolding read writed
buffer-read c b bs now = ground arith

module _ (c : ConnectionInfo) (n : ℕ) (h : HasReceived c n) (b : ℕ) (bs : Bytes) (now : ℕ) where
  -- On a connection that has received `n` bytes, a read whose bytes leave room in the buffer returns
  -- their number, which is added to the bytes received, and sets the time. The head never moves, so
  -- the room for the rest of the connection shrinks by it.
  pub read-HasReceived :
      n + length (b ∷ bs) < ring_buffer_size
      → let (ret, c') = read (bytes (b ∷ bs)) now c in
        (ret ≡ pos (length (b ∷ bs)))
        × HasReceived c' (n + length (b ∷ bs))
        × (not_use_size c'.read_buffer ≡ pos (ring_buffer_size - (n + length (b ∷ bs))))
        × (c'.last_active_time ≡ now)
  unfolding read
  read-HasReceived small =
      let filled : InBounds
          (record (c.read_buffer) { buffer = store (b ∷ bs) c.read_buffer.buffer }) 0 n =
        record {
          head_eq = h.head_eq;
          tail_eq = h.tail_eq;
          head_in = h.head_in;
          tail_in = h.tail_in;
        } in
      let moved = (writed_lem (length (b ∷ bs)) filled).1 in
      let same : (if leb (length (b ∷ bs)) (ring_buffer_size - stored 0 n)
            then (n + length (b ∷ bs)) % ring_buffer_size
            else n)
          ≡ n + length (b ∷ bs) =
        ground arith in
      let bounds = rw same at moved in (refl, bounds, (sizes bounds).1 ∙ ap pos (omega arith), refl)

  -- The parser is then shown the start of the buffer, which holds the bytes of this read alone and
  -- what was there behind them, but no more bytes than the room that is left.
  pub visible-read :
      n + length (b ∷ bs) < ring_buffer_size
      → visible (read (bytes (b ∷ bs)) now c).1.read_buffer
        ≡ take (ring_buffer_size - (n + length (b ∷ bs))) (store (b ∷ bs) c.read_buffer.buffer)
  unfolding visible
  visible-read small = rw ((read-HasReceived small).2, buffer-read c b bs now)

  -- On a connection that has received `n` bytes, a read whose bytes leave room in the buffer but
  -- outnumber that room is cut off: the parser is shown as many of its bytes as the room that is
  -- left, and not all.
  pub read_cut :
      n + length (b ∷ bs) < ring_buffer_size
      → ring_buffer_size < n + length (b ∷ bs) + length (b ∷ bs)
      → let shown = visible (read (bytes (b ∷ bs)) now c).1.read_buffer in
        (shown ≡ take (ring_buffer_size - (n + length (b ∷ bs))) (b ∷ bs))
        × (length shown < length (b ∷ bs))
  unfolding store
  read_cut small long =
      let room = ring_buffer_size - (n + length (b ∷ bs)) in
      let cut =
        visible-read small
        ∙ take_prefix room (b ∷ bs) (drop (length (b ∷ bs)) c.read_buffer.buffer) (omega arith) in
      (cut, rw cut (omega (arith, length-take room (b ∷ bs))))
