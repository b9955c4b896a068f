-- ===== src/Tests/Logs.antt =====
-- The log and the database pool.
use kvstore_epoll.Prelude.{
  ℕ, ◌+◌, ◌≡◌, refl, some, List, [], ◌∷◌, ◌++◌, codes, length, if◌then◌else◌, leb, ok, fault,
  out_of_bounds, Returns, arith,
}
use kvstore_epoll.Log.Format.{Moment, stamp, label_of, date_of}
use kvstore_epoll.Log.Write.{KvLog, split_lines, log_buffer_size, log_line}
use kvstore_epoll.Log.Stamp.{IsMoment, log_line-fits}
use kvstore_epoll.Log.Files.{
  Line, Day, IsLine, IsFiled, filed, file_for, write_lines, write_lines-filed,
}
use kvstore_epoll.SqlPool.Use.{Users}
use kvstore_epoll.SqlPool.Counts.{full}

-- A minute past noon on 2 March 2024.
abbrev pub noon : Moment
noon = record { year = 124; month = 2; day = 2; hour = 12; minute = 1; second = 0; micros = 5 }

pub noon-IsMoment : IsMoment noon
noon-IsMoment = record {
  year_long = omega arith;
  month_in = omega arith;
  day_in = omega arith;
  hour_in = omega arith;
  minute_in = omega arith;
  second_in = omega arith;
  micros_in = omega arith;
}

log_line-fits_example : log_line log_buffer_size (stamp noon 1) (codes "started") ≡ (
    if leb (length (label_of 1) + length (codes "started")) 995
    then ok (stamp noon 1 ++ (codes "started" ++ (10 ∷ [])))
    else fault out_of_bounds)
log_line-fits_example = log_line-fits noon 1 (codes "started") noon-IsMoment

abbrev day : Day
day = record {
  number = 2;
  text = date_of noon;
  base = codes "./" ++ (date_of noon ++ codes "_webserver");
}

-- A log that has all lines but one of its first file.
abbrev pub nearly_split : KvLog
nearly_split = record {
  dir_name = codes "./";
  log_name = codes "webserver";
  max_log_lines = split_lines;
  max_log_buffer_size = log_buffer_size;
  used_lines = 999998;
  today = 2;
  fp = some day.base;
  appended = [];
}

nearly_split-IsFiled : IsFiled day nearly_split
unfolding file_for
nearly_split-IsFiled = record { lines = refl; buffer = refl; today = refl; file = refl }

abbrev line : Line
line = record { moment = noon; level = 1; message = codes "started" }

line-IsLine : IsLine day line
unfolding label_of
line-IsLine = record {
  moment_ok = noon-IsMoment;
  same_day = refl;
  same_date = refl;
  fits = omega arith;
}

write_lines-filed_example :
    Returns
      (write_lines (line ∷ line ∷ []) nearly_split)
      (λ l'. l'.appended ≡ filed day nearly_split 999998 (line ∷ line ∷ []) [])
write_lines-filed_example =
    write_lines-filed day nearly_split (line ∷ line ∷ []) nearly_split-IsFiled
      (line-IsLine, (line-IsLine, tt))

abbrev answers : List (ℕ × ℕ)
answers = (11, 1) ∷ (12, 2) ∷ []

-- A thread waits, wakes up by itself with the first connection, and gives it back.
abbrev used : Users
used = record { pool = full (2 ∷ 1 ∷ []); waiting = 0; signals = 0; held = [] }
