-- ===== src/SqlPool/Use.antt =====
-- The pool with the threads that use it. `waiting` threads stand in `wait`, and `signals` of their
-- wake-ups are under way; `held` are the connections that threads have got. The class gives `wait`
-- its mutex, which `std::condition_variable` does not take; it is read as a wait that holds no lock
-- before or after.
use kvstore_epoll.Prelude.{
  ℕ, suc, ◌≡◌, ◌⊎◌, none, some, List, [], ◌∷◌, ◌++◌, Bool, true, false, if◌then◌else◌, ltb, Run,
  Fault, ok, fault, null_pointer,
}
use kvstore_epoll.SqlPool.Pool.{SqlPool, has_none, front_taken, release_connection}

-- The wake-ups under way after `notify_one`, which Wakes a waiting thread if there is one left.
abbrev pub notify_one : ℕ → ℕ → ℕ
notify_one waiting signals = if ltb signals waiting then suc signals else signals

pub record Users : Type 0 where
  pub pool : SqlPool
  pub waiting : ℕ
  pub signals : ℕ
  pub held : List ℕ

-- What lets a thread return from `wait`: one of the wake-ups, or nothing at all.
abbrev pub Wakes : Bool → ℕ → ℕ → Type 0
Wakes spurious before after = (before ≡ suc after) ⊎ ((spurious ≡ true) × (before ≡ after))

-- `GetConnection` returns NULL, or begins to wait; a thread that returns from `wait` takes the first
-- connection, and `front` of an emptied list is undefined; `ReleaseConnection` gives back one that is held, and notifies a thread if one waits.
pub data Step (spurious : Bool) : Users → Run Users → Type 0 where
  find_none : (u : Users) → has_none u.pool ≡ true → Step spurious u (ok u)
  wait :
      (u : Users)
      → has_none u.pool ≡ false
      → Step spurious u (ok (record u { waiting = suc u.waiting }))
  woken :
      (u : Users) (n k con : ℕ) (cons : List ℕ)
      → u.waiting ≡ suc n
      → Wakes spurious u.signals k
      → u.pool.connection_list ≡ con ∷ cons
      → Step spurious u (
          ok (record {
            pool = (front_taken con cons u.pool).1;
            waiting = n;
            signals = k;
            held = con ∷ u.held;
          }))
  woken_empty :
      (u : Users) (n k : ℕ)
      → u.waiting ≡ suc n
      → Wakes spurious u.signals k
      → u.pool.connection_list ≡ []
      → Step spurious u (fault null_pointer)
  give_back :
      (u : Users) (before after : List ℕ) (con : ℕ)
      → u.held ≡ before ++ (con ∷ after)
      → Step spurious u (
          ok (record u {
            pool = (release_connection (some con) u.pool).1;
            signals = notify_one u.waiting u.signals;
            held = before ++ after;
          }))
  give_null :
      (u : Users) → Step spurious u (ok (record u { pool = (release_connection none u.pool).1 }))

-- Steps one after another, up to a state or to what went wrong.
pub data Steps (spurious : Bool) : Users → Run Users → Type 0 where
  done : {u : Users} → Steps spurious u (ok u)
  more :
      {u v : Users} {r : Run Users}
      → Step spurious u (ok v)
      → Steps spurious v r
      → Steps spurious u r
  broken : {u : Users} {why : Fault} → Step spurious u (fault why) → Steps spurious u (fault why)

-- A pool that no thread uses yet.
abbrev pub unused : SqlPool → Users
unused p = record { pool = p; waiting = 0; signals = 0; held = [] }
