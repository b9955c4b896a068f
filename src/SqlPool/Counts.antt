-- ===== src/SqlPool/Counts.antt =====
-- The counters against the connections.
use kvstore_epoll.Prelude.{
  occurs, ℕ, ◌+◌, ◌≡◌, some, List, [], ◌∷◌, length, Run, ok, fault, null_pointer, pos,
}
use kvstore_epoll.SqlPool.Pool.{SqlPool, Connects}
use kvstore_epoll.SqlPool.Use.{Users}

-- The counters count the connections that are free and those that are held, and each connection of
-- `all` is in one of the two places.
pub record IsCounted (all : List ℕ) (u : Users) : Type 0 where
  pub free : u.pool.free_connections ≡ pos (length u.pool.connection_list)
  pub current : u.pool.current_connections ≡ pos (length u.held)
  pub kept : (c : ℕ) → occurs c u.pool.connection_list + occurs c u.held ≡ occurs c all

-- What a run leaves: counted users, or a thread that was woken when all connections were held.
pub IsCountedRun : List ℕ → Run Users → Type 0
IsCountedRun all (ok u) = IsCounted all u
IsCountedRun all (fault why) =
    (u : Users) × IsCounted all u × (u.pool.connection_list ≡ []) × (why ≡ null_pointer)

-- The library's answers where every call returns a connection: for each one the results of
-- `mysql_init` and `mysql_real_connect`.
abbrev pub connected : List (ℕ × ℕ) → List Connects
connected [] = []
connected ((handle, con) ∷ rest) =
    record { mysql_init = some handle; mysql_real_connect = some con } ∷ connected rest

abbrev pub connections : List (ℕ × ℕ) → List ℕ
connections [] = []
connections ((handle, con) ∷ rest) = con ∷ connections rest

-- A pool with free connections only.
abbrev pub full : List ℕ → SqlPool
full cons = record {
  max_connections = pos (length cons);
  current_connections = pos 0;
  free_connections = pos (length cons);
  connection_list = cons;
  closed = [];
}
