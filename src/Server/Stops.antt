-- ===== src/Server/Stops.antt =====
-- The loop at its end.
use kvstore_epoll.Prelude.{◌≡◌, refl, List, [], ◌∷◌, true, ok}
use kvstore_epoll.Server.Loop.{Setup, World, Waited, event_loop}

-- With the stop flag set, the loop handles nothing more, whatever is ready.
pub event_loop-stopped :
    (x : Setup) (rounds : List Waited) (w : World)
    → w.server.stop ≡ true
    → event_loop x rounds w ≡ ok w
unfolding event_loop
event_loop-stopped x [] w set = refl
event_loop-stopped x (waited ∷ rest) w set = rw set
