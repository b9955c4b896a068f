-- ===== src/Tests/Buffers.antt =====
-- The buffers of a connection.
use kvstore_epoll.Prelude.{◌≡◌, refl, none, [], ◌∷◌, true, arith, pos}
use kvstore_epoll.RingBuffer.{RingBuffer, fresh, not_use_size, writed}
use kvstore_epoll.RingBuffer.Bounds.{InBounds, stored, writed_lem}
use kvstore_epoll.Connection.{ConnectionInfo, bytes, read}
use kvstore_epoll.Connection.Receive.{HasReceived, read-HasReceived}

-- Thirty bytes from 1014, going round.
abbrev turned : RingBuffer
turned = record { buffer = []; head = pos 1014; tail = pos 20 }

turned-InBounds : InBounds turned 1014 20
turned-InBounds = record {
  head_eq = refl;
  tail_eq = refl;
  head_in = omega arith;
  tail_in = omega arith;
}

writed_lem_example :
    ((writed (pos 994) turned).0 ≡ true)
    × InBounds (writed (pos 994) turned).1 1014 1014
    × (stored 1014 1014 ≡ 0)
writed_lem_example = writed_lem 994 turned-InBounds

-- A connection that has received 600 bytes.
abbrev half_full : ConnectionInfo
half_full = record {
  fd = pos 5;
  read_buffer = record { buffer = []; head = pos 0; tail = pos 600 };
  write_buffer = fresh [];
  request = none;
  last_active_time = 0;
}

half_full-HasReceived : HasReceived half_full 600
half_full-HasReceived = record {
  head_eq = refl;
  tail_eq = refl;
  head_in = omega arith;
  tail_in = omega arith;
}

read-HasReceived_example :
    let (ret, c') = read (bytes (1 ∷ 2 ∷ [])) 7 half_full in
    (ret ≡ pos 2)
    × HasReceived c' 602
    × (not_use_size c'.read_buffer ≡ pos 422)
    × (c'.last_active_time ≡ 7)
read-HasReceived_example =
    read-HasReceived half_full 600 half_full-HasReceived 1 (2 ∷ []) 7 (omega arith)
