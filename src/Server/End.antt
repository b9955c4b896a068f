-- ===== src/Server/End.antt =====
-- Webserver.h, `~Webserver` with the destructors of the members, which run in the reverse order of
-- their declarations, and src/main.cpp.
use kvstore_epoll.Prelude.{
  ℕ, Option, none, some, List, [], ◌∷◌, ◌++◌, Run, fault, ok, ◌>>=◌, ℤ, pos_part,
}
use kvstore_epoll.Hash.Disk.{Disk}
use kvstore_epoll.Hash.Table.{Engine}
use kvstore_epoll.Kvstore.Protocol.{exit_kvengine}
use kvstore_epoll.Http.Factory.{registrations}
use kvstore_epoll.Router.Task.{routes}
use kvstore_epoll.ConnPool.End.{Residue, end_conn_pool}
use kvstore_epoll.Sockets.Tcp.{closed_by}
use kvstore_epoll.Sockets.Epoll.{end_epoll}
use kvstore_epoll.Server.Start.{Boot, webserver}
use kvstore_epoll.Server.Loop.{Setup, World, Waited, event_loop}

abbrev pub fd_list : Option ℤ → List ℕ
fd_list none = []
fd_list (some fd) = pos_part fd ∷ []

-- What the loop finds in the members, as the constructor has made them.
abbrev pub setup_of : Boot → ℕ → Setup
setup_of b object_size = record {
  listen_fd = pos_part b.socket_calls.socket;
  pipe_fd = b.pipe_fd;
  object_size = object_size;
  registry = registrations;
  routes = routes;
}

-- The body of `~Webserver`: the descriptors that it closes, and the data file.
unfoldable pub end_webserver : Boot → World → Disk → Run (List ℕ × Disk)
end_webserver b w d = do (d', h) ← exit_kvengine w.engine d; ok (b.pipe_fd ∷ b.pipe_write ∷ [], d')

-- The members. The timers and the thread pool close no descriptor; `contents` is what the blocks of
-- the pool read as.
unfoldable pub end_members : Boot → ℕ → (ℕ → Residue) → World → Run (List ℕ)
end_members b object_size contents w = do
  fds ← end_conn_pool object_size b.pool_granted contents w.server.pool
  ok (fds ++ (fd_list (closed_by b.socket_calls.socket) ++ fd_list (end_epoll b.epoll_create)))

-- The server is constructed, runs its loop, and the body of its destructor.
unfoldable pub run_server : Boot → ℕ → List Waited → Engine → Disk → Run (World × List ℕ × Disk)
unfolding end_webserver
run_server b object_size rounds engine d = do
  w ← webserver b engine d
  w' ← event_loop (setup_of b object_size) rounds w
  (fds, d') ← end_webserver b w' d
  ok (w', fds, d')

-- What a process leaves: the data file, and the descriptors that it has closed, or what went wrong.
pub record Exit : Type 0 where
  pub disk : Disk
  pub closed : Run (List ℕ)

-- The members are destroyed after the file is written. The file is as before where the process did
-- not come that far.
unfoldable pub finish : Boot → ℕ → (ℕ → Residue) → Disk → Run (World × List ℕ × Disk) → Exit
finish b object_size contents d (fault why) = record { disk = d; closed = fault why }
finish b object_size contents d (ok (w, fds, d')) = record {
  disk = d';
  closed = end_members b object_size contents w >>= λ more. ok (fds ++ more);
}

-- `main`
unfoldable pub main : Boot → ℕ → List Waited → (ℕ → Residue) → Engine → Disk → Exit
unfolding run_server finish
main b object_size rounds contents engine d =
    finish b object_size contents d (run_server b object_size rounds engine d)
