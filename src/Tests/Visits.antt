-- ===== src/Tests/Visits.antt =====
-- A whole process with one client, and the process after it.
use kvstore_epoll.Prelude.{
  ◌≡◌, refl, [], ◌∷◌, Bytes, true, false, arith, ok, fault, out_of_bounds, Returns, pos, inl, ◌*◌,
  ℕ,
}
use kvstore_epoll.Hash.View.{IsValid, view}
use kvstore_epoll.Hash.Disk.{load_from_disk}
use kvstore_epoll.Kvstore.Commands.{spec_map}
use kvstore_epoll.Kvstore.Session.{text_of}
use kvstore_epoll.Kvstore.Protocol.{init_kvengine}
use kvstore_epoll.Connection.{bytes, failed}
use kvstore_epoll.Server.Events.{new_connection}
use kvstore_epoll.Server.Loop.{Ready, Answer, ready, timed_out}
use kvstore_epoll.Server.End.{setup_of, main}
use kvstore_epoll.Server.Posts.{post_text}
use kvstore_epoll.Server.Start.{started, webserver-starts}
use kvstore_epoll.Server.Signals.{delivered, sent}
use kvstore_epoll.ConnPool.End.{Residue, unset}
use kvstore_epoll.Server.Visits.{IsVisit, IsPostable, write_survives}
use kvstore_epoll.Tests.Events.{set_b, set_b-IsCommand}
use kvstore_epoll.Tests.Files.{disk}
use kvstore_epoll.Tests.Posts.{set_b-plain, set_b-short}
use kvstore_epoll.Tests.Rounds.{boot, boot-IsBoot, signalled}
use kvstore_epoll.Tests.Sample.{
  start, start-IsStart, empty, empty-IsValid, empty-view, empty-memory,
}

-- A client arrives with the descriptor 6.
abbrev pub arrival : Ready × Answer
arrival = (
  record { fd = 3; broken = false; input = true },
  record {
    accepted = pos 6;
    received = failed;
    now = 3;
    later = 3;
    objects = λ block. new_connection 6 3;
  },
)

-- It sends HSET b 2.
abbrev pub post : Ready × Answer
post = (
  record { fd = 6; broken = false; input = true },
  record {
    accepted = pos 0;
    received = bytes (post_text (text_of set_b));
    now = 7;
    later = 8;
    objects = λ block. new_connection 6 3;
  },
)

set_b-IsPostable : IsPostable set_b
set_b-IsPostable = record { command = set_b-IsCommand; plain = set_b-plain; short = set_b-short }

set_b-IsVisit :
    IsVisit
      (setup_of boot 2104)
      (started boot 3 empty).server.handlers
      6
      set_b
      arrival
      post
      signalled
unfolding delivered sent
set_b-IsVisit = record {
  arrives = refl;
  accepted_eq = refl;
  apart = ((λ e. omega arith), (λ e. omega arith));
  asks = refl;
  whole = refl;
  input = refl;
  sent = refl;
  pipe = record { here = refl; whole = refl };
  readable = refl;
  signal = 2;
  stops = inl refl;
  arrived = refl;
  pipe_apart = λ e. omega arith;
}

first_start : init_kvengine start disk ≡ ok empty
unfolding init_kvengine load_from_disk
first_start = refl

-- The blocks read as the lower halves of addresses.
abbrev contents : ℕ → Residue
contents k = record { fd = pos (1024 * k); request = unset }

write_survives_example :
    let exit =
      main boot 2104
        (ready (arrival ∷ []) ∷ ready (post ∷ []) ∷ ready (signalled ∷ []) ∷ timed_out ∷ [])
        contents
        start
        disk in
    (exit.closed ≡ fault out_of_bounds)
    × Returns
        (init_kvengine start exit.disk)
        λ e'. IsValid e' × ((key : Bytes) → view e'.hash key ≡ spec_map (view empty.hash) set_b key)
write_survives_example =
    write_survives start (started boot 3 empty) 3 2104 6 set_b arrival post signalled
      (timed_out ∷ []) contents disk boot-IsBoot refl first_start
      (webserver-starts start empty disk boot-IsBoot first_start) set_b-IsVisit set_b-IsPostable
      (omega arith) empty-IsValid empty-memory (λ k v e. cc (e, empty-view k)) (omega arith)
      (λ k e. cc) start-IsStart refl refl
