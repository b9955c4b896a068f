-- ===== src/Server/Logged/Written.antt =====
-- log/log.cpp under the event loop: whether the lines reach a file.
use kvstore_epoll.Prelude.{
  ℕ, ◌+◌, ◌≤◌, ◌≡◌, refl, ap, ◌∙◌, Option, none, some, List, Bytes, Bool, true, length, Run, ok,
  Returns, All, Bool-cases, inl, inr, not, ◌||◌, ◌==◌, ◌%◌,
}
use kvstore_epoll.Log.Format.{Moment, last_slash}
use kvstore_epoll.Log.Write.{
  KvLog, log_buffer_size, kv_log, init, with_dir, new_log, rotate, append_line, write_log,
}
use kvstore_epoll.Log.Stamp.{IsMoment}
use kvstore_epoll.Server.Loop.{Setup, World, Waited, event_loop}
use kvstore_epoll.Server.Logged.{Journal, Calls, log_message, logged_event_loop}
use kvstore_epoll.Server.Logged.Lines.{
  IsSound, Follows, AreMoments, Writes, SameLimits, rotate-limits, append_line-returns,
}
use kvstore_epoll.Server.Logged.Handlers.{WaitedFds}
use kvstore_epoll.Server.Logged.Transparent.{event_loop-Follows}

-- Each file that is asked for opens.
abbrev pub AlwaysOpens : Calls → Type 0
AlwaysOpens env = (n : ℕ) → (env n).1 ≡ true

-- A file is open, and there is a line for each call of `write_log`.
pub record IsComplete (j : Journal) : Type 0 where
  pub sound : IsSound j
  pub open_eq : (name : Bytes) × (j.log.fp ≡ some name)
  pub lines_eq : length j.log.appended ≡ j.calls

rotate-opens :
    (m : Moment) (l : KvLog) (old : Bytes)
    → l.fp ≡ some old
    → ((name : Bytes) × ((rotate m true l).fp ≡ some name))
      × ((rotate m true l).appended ≡ l.appended)
unfolding rotate
rotate-opens m l old opened =
    elim (Bool-cases (not (l.today == m.day) || (l.used_lines % l.max_log_lines == 0))) [
      | inl next ↦ ((new_log m l, rw next refl), rw next refl)
      | inr same ↦ ((old, rw same opened), rw same refl)
    ]

-- A line with a file open before and after the rotation.
write_log-rotated :
    (m : Moment) (opens : Bool) (level : ℕ) (message : Bytes) (l : KvLog) (old name : Bytes)
    → let l1 = rotate m opens (record l { used_lines = l.used_lines + 1 }) in
      l.fp ≡ some old
      → l1.fp ≡ some name
      → write_log m opens level message l ≡ append_line name m level message l1
unfolding write_log
write_log-rotated m opens level message l old name opened file =
    let l1 = rotate m opens (record l { used_lines = l.used_lines + 1 }) in
    let put : Option Bytes → Run KvLog =
      λ o. elim o [ none ↦ ok l1 | some n ↦ append_line n m level message l1 ] in
    ap (λ (o : Option Bytes). elim o as (λ x. Run KvLog) [ none ↦ ok l | some n ↦ put l1.fp ])
      opened
    ∙ ap put file

write_log-adds :
    (m : Moment) (level : ℕ) (message : Bytes) (l : KvLog) (old : Bytes)
    → IsMoment m
    → length message ≤ 984
    → l.max_log_buffer_size ≡ log_buffer_size
    → l.fp ≡ some old
    → Returns (write_log m true level message l) λ l'.
      SameLimits l l'
      × ((name : Bytes) × (l'.fp ≡ some name))
      × (length l'.appended ≡ length l.appended + 1)
write_log-adds m level message l old moment short size opened =
    let l1 : KvLog = record l { used_lines = l.used_lines + 1 } in
    let (lines, buffer) = rotate-limits m true l1 in
    let ((name, file), same) = rotate-opens m l1 old opened in
    let (l', run, (limits, kept, added)) =
      append_line-returns name m level message (rotate m true l1) moment short (buffer ∙ size) in
    (
      l',
      write_log-rotated m true level message l old name opened file ∙ run,
      (
        (limits.0 ∙ lines, limits.1 ∙ buffer),
        (name, kept ∙ file),
        added ∙ ap (λ ls. length ls + 1) same,
      ),
    )

IsComplete-Writes : (env : Calls) → AreMoments env → AlwaysOpens env → Writes IsComplete env
unfolding log_message
IsComplete-Writes env moments opens level message j short good =
    let (l, run, ((lines, buffer), open_eq, added)) =
      write_log-adds (env j.calls).0 level message j.log good.open_eq.0 (moments j.calls) short
        good.sound.buffer good.open_eq.1 in
    (
      record { log = l; calls = j.calls + 1 },
      rw (opens j.calls, run) refl,
      record {
        sound = record { lines = lines ∙ good.sound.lines; buffer = buffer ∙ good.sound.buffer };
        open_eq = open_eq;
        lines_eq = added ∙ ap (λ n. n + 1) good.lines_eq;
      },
    )

kv_log-IsComplete :
    (m : Moment) → Returns (kv_log m true) (λ r. IsComplete (record { log = r.1; calls = 0 }))
unfolding kv_log init with_dir last_slash
kv_log-IsComplete m = (
  _,
  refl,
  record { sound = record { lines = refl; buffer = refl }; open_eq = (_, refl); lines_eq = refl },
)

-- No line is lost while files open: the event loop with its log ends as the loop without one, with
-- a file open and as many lines in the files as there were calls of `write_log`. The times are times
-- of day in a year of four digits, and each descriptor is below 2 ^ 31.
pub event_loop-IsComplete :
    (env : Calls) (m : Moment) (x : Setup) (waits : List Waited) (w : World)
    → AreMoments env
    → AlwaysOpens env
    → All WaitedFds waits
    → Follows IsComplete (event_loop x waits w) (logged_event_loop m true env x waits w)
event_loop-IsComplete env m x waits w moments opens fds =
    event_loop-Follows env (IsComplete-Writes env moments opens) m true x waits w fds
      (kv_log-IsComplete m)
