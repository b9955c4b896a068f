-- ===== src/Log/Write.antt =====
-- `init`, `write_log` and `flush_log`. Each holds `log_mutex` while it changes the log. What the
-- environment gives is an argument: the local time, and whether `fopen` opens the file. The
-- formatted message is the text that `vsnprintf` would print with enough room.
use kvstore_epoll.Prelude.{
  ℕ, ◌+◌, ◌/◌, ◌%◌, Option, none, some, List, [], ◌∷◌, ◌++◌, Bytes, codes, Bool, true, false, not,
  ◌||◌, length, take, if◌then◌else◌, ltb, leb, ◌==◌, Run, ok, fault, out_of_bounds, ◌>>=◌,
}
use kvstore_epoll.Kvstore.Decimal.{print_decimal}
use kvstore_epoll.Log.Format.{Moment, printed, stamp, date_of, last_slash}

-- SPLIT_LINES
abbrev pub split_lines : ℕ
split_lines = 1000000

-- LOG_BUFFER_SIZE
abbrev pub log_buffer_size : ℕ
log_buffer_size = 1024

-- `_dir_name`, `_log_name`, the line and buffer limits, `_used_lines`, `_today`, the name of the file
-- that `_fp` has open, and the lines that were appended to files, the last one first.
pub record KvLog : Type 0 where
  pub dir_name : Bytes
  pub log_name : Bytes
  pub max_log_lines : ℕ
  pub max_log_buffer_size : ℕ
  pub used_lines : ℕ
  pub today : ℕ
  pub fp : Option Bytes
  pub appended : List (Bytes × Bytes)

-- `fopen(name, "a")`
abbrev pub open_file : Bool → Bytes → Option Bytes
open_file opens name = if opens then some name else none

-- The names for a path with a directory: both go into 128 bytes, with the NUL behind them.
unfoldable pub with_dir : Bytes → Bytes → Moment → Bool → KvLog → Run (Bool × KvLog)
with_dir dir name m opens l =
    if leb 128 (length name) || leb 128 (length dir)
    then fault out_of_bounds
    else ok (
      opens,
      record l {
        dir_name = dir;
        log_name = name;
        today = m.day;
        fp = open_file opens (printed 255 (dir ++ (date_of m ++ (b'_' ∷ name))));
      },
    )

unfoldable pub init : Bytes → ℕ → ℕ → Moment → Bool → KvLog → Run (Bool × KvLog)
unfolding with_dir
init file_name buffer_size lines m opens l =
    let l' = record l { max_log_buffer_size = buffer_size; max_log_lines = lines } in
    elim (last_slash file_name) [
      | none ↦ ok (
        opens,
        record l' {
          today = m.day;
          fp = open_file opens (printed 255 (date_of m ++ (b'_' ∷ file_name)));
        },
      )
      | some (dir, name) ↦ with_dir dir name m opens l'
    ]

-- `kv_log()`, on the zeros that a static object holds
unfoldable pub kv_log : Moment → Bool → Run (Bool × KvLog)
unfolding init
kv_log m opens = init (codes "./webserver") log_buffer_size split_lines m opens (record {
  dir_name = [];
  log_name = [];
  max_log_lines = 0;
  max_log_buffer_size = 0;
  used_lines = 0;
  today = 0;
  fp = none;
  appended = [];
})

-- `new_log`
unfoldable pub new_log : Moment → KvLog → Bytes
new_log m l =
    let base = l.dir_name ++ (printed 16 (date_of m) ++ l.log_name) in
    printed 255 (
      if not (l.today == m.day)
      then base
      else base ++ (b'.' ∷ print_decimal (l.used_lines / l.max_log_lines)))

-- The next file, where the day has changed or enough lines are written; `_max_log_lines` is not 0.
unfoldable pub rotate : Moment → Bool → KvLog → KvLog
unfolding new_log
rotate m opens l =
    if not (l.today == m.day) || (l.used_lines % l.max_log_lines == 0)
    then record l { fp = open_file opens (new_log m l) }
    else l

-- The line as it is put together in `_buffer`.
unfoldable pub log_line : ℕ → Bytes → Bytes → Run Bytes
log_line size head message =
    if ltb size (length head + length message + 2)
    then fault out_of_bounds
    else ok (if ltb (length head) 48 then head ++ (message ++ (10 ∷ [])) else take 47 head)

-- `fputs`
unfoldable pub append_line : Bytes → Moment → ℕ → Bytes → KvLog → Run KvLog
unfolding log_line
append_line file m level message l = do
  line ← log_line l.max_log_buffer_size (stamp m level) message
  ok (record l { appended = (file, line) ∷ l.appended })

unfoldable pub write_log : Moment → Bool → ℕ → Bytes → KvLog → Run KvLog
unfolding rotate append_line
write_log m opens level message l = elim l.fp [
  | none ↦ ok l
  | some old ↦
      let l' = rotate m opens (record l { used_lines = l.used_lines + 1 }) in
      elim l'.fp [ none ↦ ok l' | some file ↦ append_line file m level message l' ]
]

-- `flush_log`: whether there is a file to flush
unfoldable pub flush_log : KvLog → Bool
flush_log l = elim l.fp [ none ↦ false | some file ↦ true ]
