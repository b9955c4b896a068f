-- ===== src/SqlPool/Pool.antt =====
-- The operations of Connection_Pool and Connection_RAII. A `MYSQL *` is a number, or none for NULL. The
-- client library is the environment: what `mysql_init` and `mysql_real_connect` return for the i-th
-- connection, and that `mysql_close` closes what it is given.
use kvstore_epoll.Prelude.{
  ℕ, Option, none, some, List, [], ◌∷◌, ◌++◌, Bool, true, false, Run, ok, fault, null_pointer,
  exited, ◌>>=◌, ℤ, pos, ◌+ℤ◌, ◌-ℤ◌,
}

-- The counters, `connection_list`, and the connections that were closed. The credentials are only
-- stored.
pub record SqlPool : Type 0 where
  pub max_connections : ℤ
  pub current_connections : ℤ
  pub free_connections : ℤ
  pub connection_list : List ℕ
  pub closed : List ℕ

-- `Connection_Pool()`
abbrev pub new_pool : SqlPool
new_pool = record {
  max_connections = pos 0;
  current_connections = pos 0;
  free_connections = pos 0;
  connection_list = [];
  closed = [];
}

-- What the library returns for one connection.
pub record Connects : Type 0 where
  pub mysql_init : Option ℕ
  pub mysql_real_connect : Option ℕ

-- One round of the loop of `init`, which ends the process where a call returns NULL.
unfoldable pub add_connection : Connects → SqlPool → Run SqlPool
add_connection c p = elim c.mysql_init [
  | none ↦ fault exited
  | some handle ↦ elim c.mysql_real_connect [
    | none ↦ fault exited
    | some con ↦ ok (record p {
      connection_list = p.connection_list ++ (con ∷ []);
      free_connections = p.free_connections +ℤ pos 1;
    })
  ]
]

unfoldable pub add_connections : List Connects → SqlPool → Run SqlPool
unfolding add_connection
add_connections [] p = ok p
add_connections (c ∷ cs) p = add_connection c p >>= add_connections cs

-- `init`, on the answers for each of the `maxConnections` rounds
unfoldable pub init : List Connects → SqlPool → Run SqlPool
unfolding add_connections
init cs p = do p' ← add_connections cs p; ok (record p' { max_connections = p'.free_connections })

-- The first test of `GetConnection`: where it holds, the result is NULL at once.
abbrev pub has_none : SqlPool → Bool
has_none p = elim p.connection_list [ [] ↦ true | c ∷ cs ↦ false ]

-- `front`, `pop_front` and the counters, on a list with the first connection `con`.
abbrev pub front_taken : ℕ → List ℕ → SqlPool → ℕ × SqlPool
front_taken con cons p = (
  con,
  record p {
    connection_list = cons;
    free_connections = p.free_connections -ℤ pos 1;
    current_connections = p.current_connections +ℤ pos 1;
  },
)

-- `GetConnection` behind `wait`: `front` and `pop_front` of an empty list are undefined.
unfoldable pub take_front : SqlPool → Run (ℕ × SqlPool)
take_front p = elim p.connection_list [
  | [] ↦ fault null_pointer
  | con ∷ cons ↦ ok (front_taken con cons p)
]

-- `ReleaseConnection`, which then notifies one waiting thread where it returns true.
unfoldable pub release_connection : Option ℕ → SqlPool → Bool × SqlPool
release_connection none p = (false, p)
release_connection (some con) p = (
  true,
  record p {
    connection_list = p.connection_list ++ (con ∷ []);
    free_connections = p.free_connections +ℤ pos 1;
    current_connections = p.current_connections -ℤ pos 1;
  },
)

-- `DestroyPool`: the counters are reset only where there is a connection to close.
unfoldable pub destroy_pool : SqlPool → SqlPool
destroy_pool p = elim p.connection_list [
  | [] ↦ p
  | con ∷ cons ↦ record p {
    current_connections = pos 0;
    free_connections = pos 0;
    connection_list = [];
    closed = p.closed ++ (con ∷ cons);
  }
]

abbrev pub get_free_connections : SqlPool → ℤ
get_free_connections p = p.free_connections

-- `~Connection_RAII`: the connection that the constructor got, NULL too, is released.
abbrev pub end_raii : Option ℕ → SqlPool → Bool × SqlPool
end_raii = release_connection
