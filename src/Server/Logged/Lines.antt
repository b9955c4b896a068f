-- ===== src/Server/Logged/Lines.antt =====
-- log/Log.h and Webserver.cpp: a line that fits the buffer of the log does not disturb the run around it.
use kvstore_epoll.Prelude.{
  ℕ, ◌+◌, ◌≤◌, ◌≡◌, refl, sym, ap, subst, ◌∙◌, Option, none, some, [], ◌∷◌, ◌++◌, Bytes, Bool, true,
  false, length, if◌then◌else◌, le→leb, Run, Fault, ok, fault, ◌>>=◌, Returns, arith,
}
use kvstore_epoll.Log.Format.{Moment, last_slash, label_of, stamp}
use kvstore_epoll.Log.Write.{
  KvLog, split_lines, log_buffer_size, kv_log, init, with_dir, rotate, append_line, write_log,
}
use kvstore_epoll.Log.Stamp.{IsMoment, log_line-fits, length-label}
use kvstore_epoll.Server.Logged.{Journal, Calls, log_message}

-- The limits of the log are those that its constructor sets.
pub record IsSound (j : Journal) : Type 0 where
  pub lines : j.log.max_log_lines ≡ split_lines
  pub buffer : j.log.max_log_buffer_size ≡ log_buffer_size

-- The run with a log ends as the run without one, and its journal has the property.
unfoldable pub Follows {ℓ} : (Journal → Type 0) → {A : Type ℓ} → Run A → Run (A × Journal) → Type ℓ
Follows Good (fault why) logged = logged ≡ fault why
Follows Good (ok a) logged = Returns logged (λ r. (r.0 ≡ a) × Good r.1)

pub Follows-ok {ℓ} :
    (Good : Journal → Type 0) {A : Type ℓ} (a : A) (j : Journal)
    → Good j
    → Follows Good (ok a) (ok (a, j))
unfolding Follows
Follows-ok Good a j sound = ((a, j), refl, (refl, sound))

pub Follows-fault {ℓ} :
    (Good : Journal → Type 0) (A : Type ℓ) (why : Fault)
    → Follows Good {A = A} (fault why) (fault why)
unfolding Follows
Follows-fault Good A why = refl

pub Follows-bind {κ ℓ} :
    (Good : Journal → Type 0) {A : Type κ} {B : Type ℓ} (p : Run A) (q : Run (A × Journal))
    (f : A → Run B) (g : A × Journal → Run (B × Journal))
    → Follows Good p q
    → ((a : A) (j : Journal) → Good j → Follows Good (f a) (g (a, j)))
    → Follows Good (p >>= f) (q >>= g)
unfolding Follows
Follows-bind Good (fault why) q f g same next = ap (λ t. t >>= g) same
Follows-bind Good (ok a) q f g (r, run, (same, sound)) next =
    subst (λ t. Follows Good (f a) (t >>= g)) (sym run)
      (subst (λ b. Follows Good (f b) (g r)) same (next r.0 r.1 sound))

-- What both runs do in the same way.
pub Follows-both {κ ℓ} :
    (Good : Journal → Type 0) {A : Type κ} {B : Type ℓ} (p : Run A) (f : A → Run B)
    (g : A → Run (B × Journal))
    → ((a : A) → Follows Good (f a) (g a))
    → Follows Good (p >>= f) (p >>= g)
unfolding Follows
Follows-both Good (fault why) f g next = refl
Follows-both Good (ok a) f g next = next a

pub Follows-last {ℓ} :
    (Good : Journal → Type 0) {A : Type ℓ} (p : Run A) (j : Journal)
    → Good j
    → Follows Good p (p >>= λ a. ok (a, j))
unfolding Follows
Follows-last Good (fault why) j sound = refl
Follows-last Good (ok a) j sound = ((a, j), refl, (refl, sound))

pub Follows-if {ℓ} :
    (Good : Journal → Type 0) {A : Type ℓ} (b : Bool) (p p' : Run A) (q q' : Run (A × Journal))
    → Follows Good p q
    → Follows Good p' q'
    → Follows Good (if b then p else p') (if b then q else q')
Follows-if Good true p p' q q' here there = here
Follows-if Good false p p' q q' here there = there

-- The run without its log.
abbrev pub without_log {ℓ} : {A : Type ℓ} → Run (A × Journal) → Run A
without_log logged = logged >>= λ r. ok r.0

pub Follows-without_log {ℓ} :
    (Good : Journal → Type 0) {A : Type ℓ} (p : Run A) (q : Run (A × Journal))
    → Follows Good p q
    → without_log q ≡ p
unfolding Follows
Follows-without_log Good (fault why) q same = rw same refl
Follows-without_log Good (ok a) q (r, run, (same, sound)) = rw (run, same) refl

-- The limits of the two logs are the same.
abbrev pub SameLimits : KvLog → KvLog → Type 0
SameLimits l l' =
    (l'.max_log_lines ≡ l.max_log_lines) × (l'.max_log_buffer_size ≡ l.max_log_buffer_size)

pub rotate-limits : (m : Moment) (opens : Bool) (l : KvLog) → SameLimits l (rotate m opens l)
unfolding rotate
rotate-limits m opens l = ground arith

pub append_line-returns :
    (file : Bytes) (m : Moment) (level : ℕ) (message : Bytes) (l : KvLog)
    → IsMoment m
    → length message ≤ 984
    → l.max_log_buffer_size ≡ log_buffer_size
    → Returns
        (append_line file m level message l)
        (λ l'. SameLimits l l' × (l'.fp ≡ l.fp) × (length l'.appended ≡ length l.appended + 1))
unfolding append_line
append_line-returns file m level message l moment short size =
    let fits : length (label_of level) + length message ≤ 995 = omega (arith, length-label level) in
    (
      record l { appended = (file, stamp m level ++ (message ++ (10 ∷ []))) ∷ l.appended },
      rw
          (
            size,
            log_line-fits m level message moment,
            le→leb (length (label_of level) + length message) 995 fits,
          )
          refl,
      ((refl, refl), refl, omega arith),
    )

module _ (m : Moment) (opens : Bool) (level : ℕ) (message : Bytes) (moment : IsMoment m)
    (short : length message ≤ 984) where
  -- The end of `write_log`, with the file that the rotation has left.
  put_line-returns :
      (file : Option Bytes) (l : KvLog)
      → l.max_log_buffer_size ≡ log_buffer_size
      → Returns
          (elim file [ none ↦ ok l | some name ↦ append_line name m level message l ])
          (SameLimits l)
  put_line-returns none l size = (l, refl, (refl, refl))
  put_line-returns (some name) l size =
      let (l', run, (same, kept, added)) =
        append_line-returns name m level message l moment short size in
      (l', run, same)

  write_log-returns :
      (l : KvLog)
      → l.max_log_buffer_size ≡ log_buffer_size
      → Returns (write_log m opens level message l) (SameLimits l)
  unfolding write_log
  write_log-returns l size = from l.fp
    where
      from :
          (file : Option Bytes)
          → Returns
              (elim file [
                | none ↦ ok l
                | some old ↦
                    let l' = rotate m opens (record l { used_lines = l.used_lines + 1 }) in
                    elim l'.fp [ none ↦ ok l' | some name ↦ append_line name m level message l' ]
              ])
              (SameLimits l)
      from none = (l, refl, (refl, refl))
      from (some old) =
          let counted = record l { used_lines = l.used_lines + 1 } in
          let (lines, buffer) = rotate-limits m opens counted in
          let (l', run, same) =
            put_line-returns (rotate m opens counted).fp (rotate m opens counted) (buffer ∙ size) in
          (l', run, (same.0 ∙ lines, same.1 ∙ buffer))

-- The times that the environment gives are times of day in a year of four digits.
abbrev pub AreMoments : Calls → Type 0
AreMoments env = (n : ℕ) → IsMoment (env n).0

-- A line that fits keeps the property.
abbrev pub Writes : (Journal → Type 0) → Calls → Type 0
Writes Good env =
    (level : ℕ) (message : Bytes) (j : Journal)
    → length message ≤ 984
    → Good j
    → Returns (log_message env level message j) Good

-- A line is written before the rest of the run.
pub Follows-log {ℓ} :
    {Good : Journal → Type 0} (env : Calls) (writes : Writes Good env) {A : Type ℓ} (level : ℕ)
    (message : Bytes) (j : Journal) (p : Run A) (g : Journal → Run (A × Journal))
    → length message ≤ 984
    → Good j
    → ((j' : Journal) → Good j' → Follows Good p (g j'))
    → Follows Good p (log_message env level message j >>= g)
Follows-log {Good} env writes level message j p g short good next =
    let (j', run, good') = writes level message j short good in
    subst (λ t. Follows Good p (t >>= g)) (sym run) (next j' good')

-- With such times, a log with the limits of the constructor keeps them.
pub IsSound-Writes : (env : Calls) → AreMoments env → Writes IsSound env
unfolding log_message
IsSound-Writes env moments level message j short sound =
    let (l, run, (lines, buffer)) =
      write_log-returns (env j.calls).0 (env j.calls).1 level message (moments j.calls) short j.log
        sound.buffer in
    (
      record { log = l; calls = j.calls + 1 },
      rw run refl,
      record { lines = lines ∙ sound.lines; buffer = buffer ∙ sound.buffer },
    )

-- The log that the constructor makes.
pub kv_log-returns :
    (m : Moment) (opens : Bool)
    → Returns (kv_log m opens) (λ r. IsSound (record { log = r.1; calls = 0 }))
unfolding kv_log init with_dir last_slash
kv_log-returns m opens = (_, refl, record { lines = refl; buffer = refl })
