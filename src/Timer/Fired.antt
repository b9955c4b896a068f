-- ===== src/Timer/Fired.antt =====
-- Which timers fire, and which are passed over.
use kvstore_epoll.Prelude.{
  ℕ, ◌+◌, ◌≤◌, ◌<◌, ◌≡◌, ◌≢◌, refl, ap, Option, none, some, List, [], ◌∷◌, All, All-map, Bool, true,
  false, if◌then◌else◌, ltb, leb, ◌==◌, arith, Bool-cases, inl, inr,
}
use native.Mathlib.Decide.{ℕ_discrete}
use kvstore_epoll.Timer.Clock.{
  Timer, Clock, lookup, insert, version_of, push, add_timer, mod_timer, del_timer, outdated, live,
  judge, collect, drain, handle_timer,
}

-- The timers stand in the order in which they expire.
abbrev pub IsOrdered : List Timer → Type 0
IsOrdered [] = Unit {0}
IsOrdered (t ∷ ts) = All (λ u. t.expire_time ≤ u.expire_time) ts × IsOrdered ts

abbrev pub IsVersioned : List Timer → Type 0
IsVersioned = All (λ t. t.version ≢ 0)

-- The timers that are not due.
unfoldable pub waiting : ℕ → List Timer → List Timer
waiting now [] = []
waiting now (t ∷ ts) = if leb t.expire_time now then waiting now ts else t ∷ waiting now ts

-- The timer has a version other than 0, and no other version is registered for its id.
unfoldable pub is_current : List (ℕ × ℕ) → Timer → Bool
is_current m t =
    if t.version == 0
    then false
    else elim (lookup t.timer_id m) [ none ↦ true | some v ↦ t.version == v ]

-- The callbacks of the timers that are due and of the current version, in order.
unfoldable pub due : ℕ → List (ℕ × ℕ) → List Timer → List ℕ
due now m [] = []
due now m (t ∷ ts) =
    let rest = due now m ts in
    if leb t.expire_time now
    then (if is_current m t then collect t.callback rest else rest)
    else rest

waiting-later :
    (now : ℕ) (m : List (ℕ × ℕ)) (ts : List Timer)
    → All (λ u. now < u.expire_time) ts
    → (waiting now ts ≡ ts) × (due now m ts ≡ [])
unfolding waiting due
waiting-later now m [] h = (refl, refl)
waiting-later now m (t ∷ ts) h = ground (arith, waiting-later now m ts h.1)

drain-due :
    (now : ℕ) (m : List (ℕ × ℕ)) (ts : List Timer)
    → IsOrdered ts
    → IsVersioned ts
    → ((drain now ts m).0 ≡ due now m ts)
      × ((drain now ts m).1.queue ≡ waiting now ts)
      × ((drain now ts m).1.versions ≡ m)
unfolding drain due waiting judge is_current
drain-due now m [] h v = (refl, refl, refl)
drain-due now m (t ∷ ts) h v = elim (Bool-cases (leb t.expire_time now)) [
  | inl e ↦ ground (arith, e, v.0, drain-due now m ts h.1 v.1)
  | inr e ↦
      let late : now < t.expire_time = ground arith in
      let wait = waiting-later now m ts (
        All-map (λ u. t.expire_time ≤ u.expire_time) (λ u. now < u.expire_time) ts
          (λ u le. omega arith) h.0) in
      ground (arith, e, wait)
]

-- With the queue in order and no timer of version 0, one round of `handle_timer` calls back exactly
-- the timers that are due and current, in order, keeps exactly those that are not due, and leaves
-- the versions as they are.
pub handle_timer-due :
    (now : ℕ) (c : Clock)
    → IsOrdered c.queue
    → IsVersioned c.queue
    → let (fs, c') = handle_timer now c in
      (fs ≡ due now c.versions c.queue)
      × (c'.queue ≡ waiting now c.queue)
      × (c'.versions ≡ c.versions)
unfolding handle_timer
handle_timer-due now c h v = drain-due now c.versions c.queue h v

push-All : (P : Timer → Type 0) (t : Timer) (ts : List Timer) → P t → All P ts → All P (push t ts)
unfolding push
push-All P t [] p h = (p, tt)
push-All P t (u ∷ us) p h = elim (Bool-cases (ltb t.expire_time u.expire_time)) [
  | inl e ↦ rw e (p, h)
  | inr e ↦ rw e (h.0, push-All P t us p h.1)
]

-- A timer that is added goes to its place in the order.
pub push-IsOrdered : (t : Timer) (ts : List Timer) → IsOrdered ts → IsOrdered (push t ts)
unfolding push
push-IsOrdered t [] h = (tt, tt)
push-IsOrdered t (u ∷ us) h = elim (Bool-cases (ltb t.expire_time u.expire_time)) [
  | inl e ↦
      let early : t.expire_time < u.expire_time = ground arith in
      rw e (
        (
          omega arith,
          All-map (λ w. u.expire_time ≤ w.expire_time) (λ w. t.expire_time ≤ w.expire_time) us
              (λ w le. omega arith) h.0,
        ),
        h,
      )
  | inr e ↦
      let late : u.expire_time ≤ t.expire_time = ground arith in
      rw e (push-All (λ w. u.expire_time ≤ w.expire_time) t us late h.0, push-IsOrdered t us h.1)
]

pub lookup-insert :
    (id j v : ℕ) (m : List (ℕ × ℕ))
    → lookup j (insert id v m) ≡ (if id == j then some v else lookup j m)
unfolding lookup insert
lookup-insert id j v [] = refl
lookup-insert id j v ((i, w) ∷ m) = ground (arith, lookup-insert id j v m)

-- Every timer in the queue is at most as new as the current version of its id, and no version is 0.
pub record IsClock (c : Clock) : Type 0 where
  pub ordered : IsOrdered c.queue
  pub versioned : IsVersioned c.queue
  pub current : All (λ t. t.version ≤ version_of t.timer_id c.versions) c.queue

pub version_of-insert :
    (id j v : ℕ) (m : List (ℕ × ℕ))
    → version_of j (insert id v m) ≡ (if id == j then v else version_of j m)
unfolding version_of
version_of-insert id j v m = rw (version_of, lookup-insert id j v m) (ground arith)

module _ (now id without : ℕ) (callback : Option ℕ) (c : Clock) where
  abbrev pub next_version : ℕ
  next_version = version_of id c.versions + 1

  abbrev pub renewed : Timer
  renewed = record {
    timer_id = id;
    expire_time = now + without;
    callback = callback;
    version = next_version;
  }

  version_of-mod :
      (j : ℕ)
      → version_of j (mod_timer now id without callback c).1.versions
        ≡ (if id == j then next_version else version_of j c.versions)
  unfolding mod_timer
  version_of-mod j = simp version_of-insert (ground arith)

  pub lookup-mod :
      (j : ℕ)
      → lookup j (mod_timer now id without callback c).1.versions
        ≡ (if id == j then some next_version else lookup j c.versions)
  unfolding mod_timer
  lookup-mod j = simp (version_of-insert, lookup-insert) (ground arith)

  pub queue-mod : (mod_timer now id without callback c).1.queue ≡ push renewed c.queue
  unfolding mod_timer
  queue-mod = simp version_of-insert (ground arith)

  still_current :
      (t : Timer)
      → t.version ≤ version_of t.timer_id c.versions
      → t.version ≤ (if id == t.timer_id then next_version else version_of t.timer_id c.versions)
  still_current t le = elim (ℕ_discrete id t.timer_id) [
    | yes e ↦
        let same : (id == t.timer_id) ≡ true = ground arith in
        rw same (omega (arith, ap (λ i. version_of i c.versions) e))
    | no e ↦ let other : (id == t.timer_id) ≡ false = ground arith in rw other le
  ]

  -- `mod_timer` keeps the invariant of the clock: the queue is in the order of expiry, no timer has
  -- version 0, and none is newer than the current version of its id.
  pub mod_timer-IsClock : IsClock c → IsClock (mod_timer now id without callback c).1
  mod_timer-IsClock h = record {
    ordered = rw queue-mod (push-IsOrdered renewed c.queue h.ordered);
    versioned =
        rw queue-mod (push-All (λ t. t.version ≢ 0) renewed c.queue (omega arith) h.versioned);
    current = rw queue-mod (
        push-All
          (λ t. t.version ≤ version_of t.timer_id (mod_timer now id without callback c).1.versions)
          renewed c.queue (rw (version_of-mod id) (ground arith))
          (All-map _ _ c.queue (λ t le. rw (version_of-mod t.timer_id) (still_current t le))
            h.current));
  }

  judge-renewed : judge renewed (mod_timer now id without callback c).1.versions ≡ live
  unfolding judge
  judge-renewed = rw (judge, lookup-mod id) (ground arith)

  judge-mod :
      (t : Timer)
      → t.version ≤ version_of t.timer_id c.versions
      → judge t (mod_timer now id without callback c).1.versions
        ≡ (if id == t.timer_id then outdated else judge t c.versions)
  unfolding judge
  judge-mod t le =
      ground (arith, lookup-mod t.timer_id, ap (λ i. version_of i c.versions), still_current t le)

  -- On a clock whose invariant holds, `mod_timer` puts the new timer, with the next version of its id,
  -- at its place in the queue and registers that version; the invariant still holds. The new timer is
  -- live, every timer of the id that was in the queue is passed over as outdated, and the timers of
  -- other ids are judged as before.
  pub mod_timer-supersedes :
      IsClock c
      → let c' = (mod_timer now id without callback c).1 in
        let m = c'.versions in
        (c'.queue ≡ push renewed c.queue)
        × (lookup id m ≡ some next_version)
        × IsClock c'
        × (judge renewed m ≡ live)
        × All (λ t. judge t m ≡ (if id == t.timer_id then outdated else judge t c.versions)) c.queue
  mod_timer-supersedes h = (
    queue-mod,
    rw (lookup-mod id) (ground arith),
    mod_timer-IsClock h,
    judge-renewed,
    All-map _ _ c.queue (λ t le. judge-mod t le) h.current,
  )

-- A timer of version 1 that is in the queue, whose id is deleted and then added again with version
-- 1, as for a descriptor that is closed and used again, is live again.
pub revived :
    (now without : ℕ) (callback : Option ℕ) (c : Clock) (t : Timer)
    → t.version ≡ 1
    → let c' = (del_timer t.timer_id c).1 in
      let c'' = (add_timer now t.timer_id without callback 1 c').1 in judge t c''.versions ≡ live
unfolding add_timer judge
revived now without callback c t first =
    ground (arith, lookup-insert t.timer_id t.timer_id 1 (del_timer t.timer_id c).1.versions)

-- `del_timer` of an id that has a version returns true. Where no timer in the queue has version 0,
-- no timer of the id is live then, the timers of other ids are judged as before, and the id's entry
-- stays in the map with version 0.
pub del_timer-outdates :
    (id : ℕ) (c : Clock) (v : ℕ)
    → lookup id c.versions ≡ some v
    → IsVersioned c.queue
    → let (done, c') = del_timer id c in
      (done ≡ true)
      × (lookup id c'.versions ≡ some 0)
      × All
          (λ t. judge t c'.versions ≡ (if id == t.timer_id then outdated else judge t c.versions))
          c.queue
unfolding del_timer judge
del_timer-outdates id c v known versioned =
    rw (del_timer, known)
      (
        refl,
        rw (lookup-insert id id 0 c.versions) (ground arith),
        All-map _ _ c.queue (λ t ne. ground (arith, ne, lookup-insert id t.timer_id 0 c.versions))
            versioned,
      )
