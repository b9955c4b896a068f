-- ===== src/Timer/Rounds.antt =====
-- The rounds of the timers' thread, and a deletion between the parts of `mod_timer`.
use kvstore_epoll.Prelude.{
  ℕ, suc, ◌+◌, ◌-◌, ◌≤◌, ◌<◌, ◌≡◌, ◌≢◌, refl, ap, sym, ◌∙◌, Option, none, some, List, [], ◌∷◌, ◌++◌,
  true, if◌then◌else◌, ltb, leb, ==_refl, le→leb, All, All-map, length, Bool-cases, inl, inr, arith,
}
use kvstore_epoll.Timer.Clock.{
  Timer, Clock, lookup, insert, version_of, bump, push, del_timer, judge, deleted, collect,
}
use kvstore_epoll.Timer.Fired.{
  IsOrdered, IsVersioned, is_current, due, waiting, handle_timer-due, lookup-insert,
  version_of-insert,
}
use kvstore_epoll.Timer.Thread.{wait_time, plan, clock_round, clock_thread, finish_mod}

-- The callbacks of all timers that are current, in the order of the queue.
unfoldable pub current_callbacks : List (ℕ × ℕ) → List Timer → List ℕ
current_callbacks m [] = []
current_callbacks m (t ∷ ts) =
    let rest = current_callbacks m ts in if is_current m t then collect t.callback rest else rest

collect_append :
    (callback : Option ℕ) (xs ys : List ℕ) → collect callback (xs ++ ys) ≡ collect callback xs ++ ys
unfolding collect
collect_append none xs ys = refl
collect_append (some f) xs ys = refl

waiting_same : (now : ℕ) (ts : List Timer) → All (λ t. now < t.expire_time) ts → waiting now ts ≡ ts
unfolding waiting
waiting_same now [] h = refl
waiting_same now (t ∷ ts) h = ground (arith, waiting_same now ts h.1)

due_none :
    (now : ℕ) (m : List (ℕ × ℕ)) (ts : List Timer)
    → All (λ t. now < t.expire_time) ts
    → due now m ts ≡ []
unfolding due
due_none now m [] h = refl
due_none now m (t ∷ ts) h = ground (arith, due_none now m ts h.1)

-- In a queue in order the timers that are due come first.
due_waiting :
    (now : ℕ) (m : List (ℕ × ℕ)) (ts : List Timer)
    → IsOrdered ts
    → current_callbacks m ts ≡ due now m ts ++ current_callbacks m (waiting now ts)
unfolding due waiting current_callbacks
due_waiting now m [] h = refl
due_waiting now m (t ∷ ts) h = elim (Bool-cases (leb t.expire_time now)) [
  | inl early ↦ rw early (
      ground (
        arith,
        due_waiting now m ts h.1,
        collect_append t.callback (due now m ts) (current_callbacks m (waiting now ts)),
      ))
  | inr late ↦
      let later : All (λ u. now < u.expire_time) ts =
        All-map (λ u. t.expire_time ≤ u.expire_time) (λ u. now < u.expire_time) ts
          (λ u le. ground arith) h.0 in
      rw (late, due_none now m ts later, waiting_same now ts later) refl
]

waiting-All : (now : ℕ) (P : Timer → Type 0) (ts : List Timer) → All P ts → All P (waiting now ts)
unfolding waiting
waiting-All now P [] h = tt
waiting-All now P (t ∷ ts) h = elim (Bool-cases (leb t.expire_time now)) [
  | inl early ↦ rw early (waiting-All now P ts h.1)
  | inr late ↦ rw late (h.0, waiting-All now P ts h.1)
]

waiting-IsOrdered : (now : ℕ) (ts : List Timer) → IsOrdered ts → IsOrdered (waiting now ts)
unfolding waiting
waiting-IsOrdered now [] h = tt
waiting-IsOrdered now (t ∷ ts) h = elim (Bool-cases (leb t.expire_time now)) [
  | inl early ↦ rw early (waiting-IsOrdered now ts h.1)
  | inr late ↦
      rw late
        (waiting-All now (λ u. t.expire_time ≤ u.expire_time) ts h.0, waiting-IsOrdered now ts h.1)
]

length-waiting : (now : ℕ) (ts : List Timer) → length (waiting now ts) ≤ length ts
unfolding waiting
length-waiting now [] = omega arith
length-waiting now (t ∷ ts) = ground (arith, length-waiting now ts)

of_parts :
    (r : List ℕ × Clock) (fs : List ℕ) (q : List Timer) (m : List (ℕ × ℕ))
    → (r.0 ≡ fs) × (r.1.queue ≡ q) × (r.1.versions ≡ m)
    → r ≡ (fs, record { queue = q; versions = m })
of_parts r fs q m (e, e', e'') = rw (sym e, sym e', sym e'') refl

-- A round handles the timers at a time when the one on top, if there is one, is due.
round-due :
    (now delay : ℕ) (m : List (ℕ × ℕ)) (ts : List Timer)
    → IsOrdered ts
    → IsVersioned ts
    → let c : Clock = record { queue = ts; versions = m } in
      let later = now + wait_time now c + delay in
      clock_round now delay c ≡ (due later m ts, record { queue = waiting later ts; versions = m })
unfolding clock_round plan wait_time
round-due now delay m [] h v = unfold due waiting in refl
round-due now delay m (t ∷ ts) h v = elim (Bool-cases (ltb 0 (t.expire_time - now))) [
  | inl wait ↦
      rw (clock_round, wait)
        (of_parts _ _ _ _ (handle_timer-due (now + (t.expire_time - now) + delay) _ h v))
  | inr none_left ↦
      let over : t.expire_time - now ≡ 0 = ground arith in
      let same : now + (t.expire_time - now) + delay ≡ now + delay = omega arith in
      rw (clock_round, none_left, same) (of_parts _ _ _ _ (handle_timer-due (now + delay) _ h v))
]

round-shorter :
    (now delay n : ℕ) (m : List (ℕ × ℕ)) (ts : List Timer)
    → length ts ≤ suc n
    → length (waiting (now + wait_time now (record { queue = ts; versions = m }) + delay) ts) ≤ n
unfolding wait_time waiting
round-shorter now delay n m [] h = omega arith
round-shorter now delay n m (t ∷ ts) h =
    let later = now + (t.expire_time - now) + delay in
    let reached : leb t.expire_time later ≡ true = le→leb t.expire_time later (omega arith) in
    rw reached (omega (arith, length-waiting later ts))

module _ (m : List (ℕ × ℕ)) where
  clock_thread-calls :
      (delays : List ℕ) (now : ℕ) (ts : List Timer)
      → IsOrdered ts
      → IsVersioned ts
      → length ts ≤ length delays
      → clock_thread delays now (record { queue = ts; versions = m })
        ≡ (current_callbacks m ts, record { queue = []; versions = m })
  unfolding clock_thread
  clock_thread-calls [] now [] h v few = unfold current_callbacks in refl
  clock_thread-calls [] now (t ∷ ts) h v few = absurd (omega arith)
  clock_thread-calls (d ∷ ds) now ts h v few =
      let later = now + wait_time now (record { queue = ts; versions = m }) + d in
      let rest =
        clock_thread-calls ds later (waiting later ts) (waiting-IsOrdered later ts h)
          (waiting-All later (λ t. t.version ≢ 0) ts v)
          (round-shorter now d (length ds) m ts few) in
      rw (round-due now d m ts h v, rest)
        (ap (λ fs. (fs, record { queue = []; versions = m })) (sym (due_waiting later m ts h)))

-- Where no other step comes in between and the stop flag stays unset, as many rounds of the thread as
-- there are timers in an ordered queue without version 0, each with any delay, call back every timer
-- that is current once, in the order of the queue, and leave the queue empty and the versions as
-- they are.
pub clock_thread-calls_all :
    (delays : List ℕ) (now : ℕ) (c : Clock)
    → IsOrdered c.queue
    → IsVersioned c.queue
    → length c.queue ≤ length delays
    → clock_thread delays now c
      ≡ (current_callbacks c.versions c.queue, record { queue = []; versions = c.versions })
clock_thread-calls_all delays now c h v few =
    clock_thread-calls c.versions delays now c.queue h v few

module _ (id : ℕ) (c : Clock) where
  deleted_between : (del_timer id (bump id c)).1.versions ≡ insert id 0 (bump id c).versions
  unfolding bump del_timer insert
  deleted_between =
      let known = lookup-insert id id (version_of id c.versions + 1) c.versions in
      rw (del_timer, known, ==_refl id) refl

  queue-deleted : (del_timer id (bump id c)).1.queue ≡ c.queue
  unfolding bump del_timer
  queue-deleted =
      let known = lookup-insert id id (version_of id c.versions + 1) c.versions in
      rw (del_timer, known, ==_refl id) refl

  version_of-deleted : version_of id (del_timer id (bump id c)).1.versions ≡ 0
  version_of-deleted = rw (deleted_between, version_of-insert, ==_refl id) refl

-- If `del_timer` of the same id comes between the two parts of `mod_timer`, the timer that is added has
-- the version 0 and counts as deleted: it is the current one, and never called back.
pub mod_timer-deleted :
    (now id without : ℕ) (callback : Option ℕ) (c : Clock)
    → let c' = finish_mod now id without callback (del_timer id (bump id c)).1 in
      let added : Timer = record {
        timer_id = id;
        expire_time = now + without;
        callback = callback;
        version = 0;
      } in
      (c'.queue ≡ push added c.queue)
      × (lookup id c'.versions ≡ some 0)
      × (judge added c'.versions ≡ deleted)
unfolding finish_mod judge
mod_timer-deleted now id without callback c =
    let e = version_of-deleted id c in
    let known : lookup id (insert id 0 (del_timer id (bump id c)).1.versions) ≡ some 0 =
      lookup-insert id id 0 (del_timer id (bump id c)).1.versions ∙ rw (==_refl id) refl in
    (rw (e, queue-deleted id c) refl, rw (e, known) refl, rw (judge, e, known) refl)
