-- ===== src/Timer/Clock.antt =====
-- timer/timer.cpp, class Thread_clockr: a heap of timers by the time at which they expire, and the
-- current version of each timer's id. The heap is the list of its timers in the order in which `top`
-- and `pop` give them out; timers of one second keep the order in which they were added, which
-- `std::priority_queue` leaves open. A callback is named by a number. All but `mod_timer` hold the lock
-- throughout, so their calls are steps; `time(nullptr)` is an argument.
use kvstore_epoll.Prelude.{
  ℕ, ◌+◌, Option, none, some, List, [], ◌∷◌, Bool, true, false, not, if◌then◌else◌, ltb, leb, ◌==◌,
}

-- `struct timer`
pub record Timer : Type 0 where
  pub timer_id : ℕ
  pub expire_time : ℕ
  pub callback : Option ℕ
  pub version : ℕ

-- `_timer_queue` and `_timer_map`
pub record Clock : Type 0 where
  pub queue : List Timer
  pub versions : List (ℕ × ℕ)

unfoldable pub lookup : ℕ → List (ℕ × ℕ) → Option ℕ
lookup id [] = none
lookup id ((i, v) ∷ rest) = if i == id then some v else lookup id rest

-- `_timer_map[id] = v`
unfoldable pub insert : ℕ → ℕ → List (ℕ × ℕ) → List (ℕ × ℕ)
insert id v [] = (id, v) ∷ []
insert id v ((i, w) ∷ rest) = if i == id then (id, v) ∷ rest else (i, w) ∷ insert id v rest

unfoldable pub erase : ℕ → List (ℕ × ℕ) → List (ℕ × ℕ)
erase id [] = []
erase id ((i, w) ∷ rest) = let others = erase id rest in if i == id then others else (i, w) ∷ others

-- `_timer_map[id]`, which makes an entry 0 where there is none
unfoldable pub version_of : ℕ → List (ℕ × ℕ) → ℕ
version_of id m = elim (lookup id m) [ none ↦ 0 | some v ↦ v ]

-- `_timer_queue.push`
unfoldable pub push : Timer → List Timer → List Timer
push t [] = t ∷ []
push t (u ∷ us) = if ltb t.expire_time u.expire_time then t ∷ u ∷ us else u ∷ push t us

-- `add_timer`
unfoldable pub add_timer : ℕ → ℕ → ℕ → Option ℕ → ℕ → Clock → ℕ × Clock
add_timer now id without callback version c =
    let t : Timer = record {
      timer_id = id;
      expire_time = now + without;
      callback = callback;
      version = version;
    } in
    (id, record { queue = push t c.queue; versions = insert id version c.versions })

-- `while (!_timer_queue.empty()) _timer_queue.pop()`
unfoldable pub pop_all : List Timer → List Timer
pop_all [] = []
pop_all (t ∷ ts) = pop_all ts

unfoldable pub del_all_timer : Clock → Bool × Clock
unfolding pop_all
del_all_timer c = (true, record c { queue = pop_all c.queue })

-- `_timer_map[timer_id]++`, the first part of `mod_timer`, under the lock
unfoldable pub bump : ℕ → Clock → Clock
bump id c = record c { versions = insert id (version_of id c.versions + 1) c.versions }

-- `mod_timer`, with no other thread between the two times that it takes the lock.
unfoldable pub mod_timer : ℕ → ℕ → ℕ → Option ℕ → Clock → Bool × Clock
unfolding bump add_timer
mod_timer now id without callback c =
    let c' = bump id c in
    (true, (add_timer now id without callback (version_of id c'.versions) c').1)

-- `del_timer`
unfoldable pub del_timer : ℕ → Clock → Bool × Clock
del_timer id c = elim (lookup id c.versions) [
  | none ↦ (false, c)
  | some v ↦ (true, record c { versions = insert id 0 c.versions })
]

-- What the loop of `handle_timer` does with the timer on top.
pub data Verdict : Type 0 where
  outdated deleted live : Verdict

unfoldable pub judge : Timer → List (ℕ × ℕ) → Verdict
judge t m =
    let current : Bool = elim (lookup t.timer_id m) [ none ↦ true | some v ↦ v == t.version ] in
    if not current then outdated else if t.version == 0 then deleted else live

-- `if (top->callback) callbacks.push_back(top->callback)`
unfoldable pub collect : Option ℕ → List ℕ → List ℕ
collect none cs = cs
collect (some f) cs = f ∷ cs

-- The callbacks in the order in which they are called, and the clock after the loop.
unfoldable pub drain : ℕ → List Timer → List (ℕ × ℕ) → List ℕ × Clock
drain now [] m = ([], record { queue = []; versions = m })
drain now (t ∷ ts) m = elim (leb t.expire_time now) [
  | false ↦ ([], record { queue = t ∷ ts; versions = m })
  | true ↦ elim (judge t m) [
    | outdated ↦ drain now ts m
    | deleted ↦ drain now ts (erase t.timer_id m)
    | live ↦ let (fs, c) = drain now ts m in (collect t.callback fs, c)
  ]
]

-- `handle_timer`, up to the calls of the callbacks
unfoldable pub handle_timer : ℕ → Clock → List ℕ × Clock
unfolding drain
handle_timer now c = drain now c.queue c.versions
