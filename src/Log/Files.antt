-- ===== src/Log/Files.antt =====
-- Which file a line goes to.
use kvstore_epoll.Prelude.{
  ℕ, ◌+◌, ◌/◌, ◌≤◌, ◌≡◌, refl, ◌∙◌, some, List, [], ◌∷◌, ◌++◌, Bytes, true, length, All,
  if◌then◌else◌, ltb, le→leb, ==_refl, Run, ok, ◌>>=◌, Returns, arith,
}
use kvstore_epoll.Kvstore.Decimal.{print_decimal}
use kvstore_epoll.Log.Format.{Moment, label_of, stamp, date_of, printed}
use kvstore_epoll.Log.Write.{
  KvLog, split_lines, log_buffer_size, new_log, rotate, log_line, append_line, write_log,
}
use kvstore_epoll.Log.Stamp.{IsMoment, log_line-fits}

-- A line: when it is written, its level and its message.
pub record Line : Type 0 where
  pub moment : Moment
  pub level : ℕ
  pub message : Bytes

-- Calls of `write_log` one after another; every file can be opened.
unfoldable pub write_lines : List Line → KvLog → Run KvLog
write_lines [] l = ok l
write_lines (w ∷ ws) l = write_log w.moment true w.level w.message l >>= write_lines ws

-- The day of a log: its number in the month, how it is printed, and the file for its first lines.
pub record Day : Type 0 where
  pub number : ℕ
  pub text : Bytes
  pub base : Bytes

-- The line is of that day, and fits the buffer.
pub record IsLine (d : Day) (w : Line) : Type 0 where
  pub moment_ok : IsMoment w.moment
  pub same_day : w.moment.day ≡ d.number
  pub same_date : date_of w.moment ≡ d.text
  pub fits : length (label_of w.level) + length w.message ≤ 995

-- The file of the n-th line of a log: the first one, or the one numbered n / SPLIT_LINES.
unfoldable pub file_for : Day → KvLog → ℕ → Bytes
file_for d l n =
    if ltb n split_lines
    then d.base
    else printed 255 (
        (l.dir_name ++ (printed 16 d.text ++ l.log_name))
        ++ (b'.' ∷ print_decimal (n / split_lines)))

abbrev pub text_of : Line → Bytes
text_of w = stamp w.moment w.level ++ (w.message ++ (10 ∷ []))

-- The lines with their files, from the line number `n + 1` on, the last one first.
unfoldable pub filed : Day → KvLog → ℕ → List Line → List (Bytes × Bytes) → List (Bytes × Bytes)
filed d l n [] done = done
filed d l n (w ∷ ws) done = filed d l (n + 1) ws ((file_for d l (n + 1), text_of w) ∷ done)

-- The log has the right file open.
pub record IsFiled (d : Day) (l : KvLog) : Type 0 where
  pub lines : l.max_log_lines ≡ split_lines
  pub buffer : l.max_log_buffer_size ≡ log_buffer_size
  pub today : l.today ≡ d.number
  pub file : l.fp ≡ some (file_for d l l.used_lines)

abbrev counted : KvLog → KvLog
counted l = record l { used_lines = l.used_lines + 1 }

rotate-file :
    (d : Day) (l : KvLog) (w : Line)
    → IsFiled d l
    → IsLine d w
    → rotate w.moment true (counted l)
      ≡ record (counted l) { fp = some (file_for d l (l.used_lines + 1)) }
unfolding rotate new_log file_for
rotate-file d l w h line = ground (arith, ==_refl d.number)

abbrev wrote : Day → KvLog → Line → KvLog
wrote d l w = record (counted l) {
  fp = some (file_for d l (l.used_lines + 1));
  appended = (file_for d l (l.used_lines + 1), text_of w) ∷ l.appended;
}

log_line-line :
    (d : Day) (w : Line)
    → IsLine d w
    → log_line log_buffer_size (stamp w.moment w.level) w.message ≡ ok (text_of w)
log_line-line d w line =
    log_line-fits w.moment w.level w.message line.moment_ok
    ∙ rw (le→leb (length (label_of w.level) + length w.message) 995 line.fits)

write_log-file :
    (d : Day) (l : KvLog) (w : Line)
    → IsFiled d l
    → IsLine d w
    → write_log w.moment true w.level w.message l ≡ ok (wrote d l w)
unfolding write_log append_line
write_log-file d l w h line = ground (arith, rotate-file d l w h line, log_line-line d w line)

wrote-IsFiled : (d : Day) (l : KvLog) (w : Line) → IsFiled d l → IsFiled d (wrote d l w)
unfolding file_for
wrote-IsFiled d l w h = record { lines = h.lines; buffer = h.buffer; today = h.today; file = refl }

-- While the day of the log lasts and files can be opened, each line that fits the buffer is appended
-- whole, behind its stamp: the lines with a number below SPLIT_LINES to the first file, and those from
-- k * SPLIT_LINES on to the file with the number k in its name.
pub write_lines-filed :
    (d : Day) (l : KvLog) (ws : List Line)
    → IsFiled d l
    → All (IsLine d) ws
    → Returns (write_lines ws l) (λ l'. l'.appended ≡ filed d l l.used_lines ws l.appended)
unfolding write_lines filed file_for
write_lines-filed d l [] h lines = (l, refl, refl)
write_lines-filed d l (w ∷ ws) h lines =
    let (l', run, e) = write_lines-filed d (wrote d l w) ws (wrote-IsFiled d l w h) lines.1 in
    (l', rw (write_log-file d l w h lines.0) run, e ∙ filed-wrote ws (l.used_lines + 1) _)
  where
    filed-wrote :
        (vs : List Line) (n : ℕ) (done : List (Bytes × Bytes))
        → filed d (wrote d l w) n vs done ≡ filed d l n vs done
    filed-wrote [] n done = refl
    filed-wrote (v ∷ vs) n done = filed-wrote vs (n + 1) _
