-- ===== src/Tests/Logged.antt =====
-- The event loop with its log.
use kvstore_epoll.Prelude.{refl, none, ◌≡◌, refl, List, [], ◌∷◌, true, All, arith}
use kvstore_epoll.Server.Loop.{World, Waited, timed_out, ready, event_loop}
use kvstore_epoll.Server.Logged.{Calls, Journal, logged_event_loop}
use kvstore_epoll.Server.Logged.Lines.{Follows, without_log}
use kvstore_epoll.Server.Logged.Transparent.{event_loop-logged}
use kvstore_epoll.Server.Logged.Handlers.{WaitedFds}
use kvstore_epoll.Server.Logged.Written.{IsComplete, event_loop-IsComplete}
use kvstore_epoll.Server.End.{setup_of}
use kvstore_epoll.Tests.Events.{server}
use kvstore_epoll.Tests.Logs.{noon, noon-IsMoment, nearly_split}
use kvstore_epoll.Tests.Rounds.{boot, signalled}
use kvstore_epoll.Tests.Sample.{sample}
use kvstore_epoll.Tests.Visits.{arrival, post}

abbrev world : World
world = record { server = server; engine = sample }

-- A client with a command, a quiet time, and a signal to stop.
abbrev waits : List Waited
waits = ready (arrival ∷ post ∷ []) ∷ timed_out ∷ ready (signalled ∷ []) ∷ []

waits-WaitedFds : All WaitedFds waits
waits-WaitedFds = (
  ((omega arith, omega arith), ((omega arith, omega arith), tt)),
  (tt, (((omega arith, omega arith), tt), tt)),
)

-- The clock stands at noon, and each file opens.
abbrev at_noon : Calls
at_noon n = (noon, true)

event_loop-logged_example :
    without_log (logged_event_loop noon true at_noon (setup_of boot 2104) waits world)
    ≡ event_loop (setup_of boot 2104) waits world
event_loop-logged_example =
    event_loop-logged at_noon noon true (setup_of boot 2104) waits world (λ n. noon-IsMoment)
      waits-WaitedFds

event_loop-IsComplete_example :
    Follows IsComplete
      (event_loop (setup_of boot 2104) waits world)
      (logged_event_loop noon true at_noon (setup_of boot 2104) waits world)
event_loop-IsComplete_example =
    event_loop-IsComplete at_noon noon (setup_of boot 2104) waits world (λ n. noon-IsMoment)
      (λ n. refl) waits-WaitedFds

-- A log whose file did not open.
abbrev closed_log : Journal
closed_log = record { log = record nearly_split { fp = none }; calls = 3 }
