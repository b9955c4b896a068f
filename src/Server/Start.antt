-- ===== src/Server/Start.antt =====
-- Webserver.h, the constructor of Webserver.
use kvstore_epoll.Prelude.{
  List, ℕ, ◌≡◌, refl, some, [], ◌∷◌, Bool, true, false, ◌||◌, if◌then◌else◌, Run, ok, fault,
  uncaught, assertion, ◌>>=◌, ℤ, pos, pos_part, is_negative,
}
use kvstore_epoll.Hash.Table.{Engine}
use kvstore_epoll.Hash.Disk.{Disk}
use kvstore_epoll.Kvstore.Protocol.{init_kvengine}
use kvstore_epoll.Kvstore.Restart.{restart}
use kvstore_epoll.Sockets.Tcp.{SocketCalls, tcp_socket, tcp_socket_lem, get_listen_fd, all_succeed}
use kvstore_epoll.Sockets.Epoll.{Epoll, EpollCtl, ctl_add, new_epoll, epoll_add}
use kvstore_epoll.ConnPool.Blocks.{Block, conn_pool}
use kvstore_epoll.Connection.{ConnectionInfo}
use kvstore_epoll.Server.Events.{Server}
use kvstore_epoll.Server.Loop.{World}

-- MAX_EVENTS
abbrev pub max_events : ℕ
max_events = 1024

-- EPOLLIN
abbrev pub epoll_in : ℕ
epoll_in = 1

-- SA_RESTART
abbrev pub sa_restart : ℕ
sa_restart = 268435456

-- A `struct sigaction`: the flags, and whether the mask has all signals. The handler is
-- `sigint_handler`.
pub record SigAction : Type 0 where
  pub flags : ℕ
  pub mask_full : Bool

-- `add_sig`, on the signals that have the handler; `sigaction` says whether the call of that name
-- succeeds.
unfoldable pub add_sig : (ℕ → SigAction → Bool) → ℕ → Bool → List ℕ → Run (List ℕ)
add_sig sigaction signal restart handlers =
    let sa : SigAction = record { flags = if restart then sa_restart else 0; mask_full = true } in
    if sigaction signal sa then ok (signal ∷ handlers) else fault assertion

-- What the system answers while the server is constructed: `epoll_create`, the calls of the socket,
-- whether `malloc` gives the pool its memory, `socketpair` with both ends, `epoll_ctl`, and whether
-- a call of `sigaction` succeeds; and what the fresh memory of the pool reads as.
pub record Boot : Type 0 where
  pub epoll_create : ℤ
  pub socket_calls : SocketCalls
  pub pool_granted : Bool
  pub socketpair : ℤ
  pub pipe_fd : ℕ
  pub pipe_write : ℕ
  pub epoll_ctl : EpollCtl
  pub sigaction : ℕ → SigAction → Bool
  pub memory : Block → ConnectionInfo

-- The end of the constructor, where the listening socket is watched and the engine initialised.
unfoldable pub watch_listener : Boot → Epoll → ℤ → List ℕ → Engine → Disk → Run (List ℕ × Engine)
watch_listener b e fd watched engine d = do
  listen_fd ← get_listen_fd fd
  if is_negative (epoll_add b.epoll_ctl e listen_fd epoll_in)
      then fault uncaught
      else (do engine' ← init_kvengine engine d; ok (pos_part listen_fd ∷ watched, engine'))

-- The members of a new server, of which epoll watches no descriptor.
unfoldable pub new_server : Boot → Server
new_server b = record {
  watched = [];
  handlers = [];
  pool = conn_pool 10240 1024 b.pool_granted;
  objects = b.memory;
  clock = record { queue = []; versions = [] };
  stop = false;
}

-- The body of the constructor
unfoldable pub constructor_body : Boot → Epoll → ℤ → Engine → Disk → Run World
unfolding watch_listener add_sig
constructor_body b e fd engine d =
    if is_negative b.socketpair || is_negative (epoll_add b.epoll_ctl e (pos b.pipe_fd) epoll_in)
    then fault uncaught
    else (do
      on_sigint ← add_sig b.sigaction 2 true []
      handlers ← add_sig b.sigaction 15 true on_sigint
      (watched, engine') ← watch_listener b e fd (b.pipe_fd ∷ []) engine d
      ok (record {
        server = record (new_server b) { watched = watched; handlers = handlers };
        engine = engine';
      }))

-- `Webserver()`
unfoldable pub webserver : Boot → Engine → Disk → Run World
unfolding constructor_body new_server
webserver b engine d = do
  epoll ← new_epoll max_events b.epoll_create
  fd ← tcp_socket b.socket_calls
  constructor_body b epoll fd engine d

-- The system has given everything that the constructor asks for.
pub record IsBoot (b : Boot) (listen_fd : ℕ) : Type 0 where
  pub created : is_negative b.epoll_create ≡ false
  pub socket_ok : all_succeed b.socket_calls ≡ true
  pub listen_eq : b.socket_calls.socket ≡ pos listen_fd
  pub paired : is_negative b.socketpair ≡ false
  pub added : (epfd fd : ℤ) → is_negative (b.epoll_ctl epfd ctl_add fd (some epoll_in)) ≡ false
  pub signals : (signal : ℕ) (sa : SigAction) → b.sigaction signal sa ≡ true

-- The server when its constructor is through.
abbrev pub started : Boot → ℕ → Engine → World
started b listen_fd e = record {
  server = record (new_server b) { watched = listen_fd ∷ b.pipe_fd ∷ []; handlers = 15 ∷ 2 ∷ [] };
  engine = e;
}

-- A server whose system calls succeed starts where `init_kvengine` returns.
pub webserver-starts :
    {b : Boot} {listen_fd : ℕ} (start e : Engine) (d : Disk)
    → IsBoot b listen_fd
    → init_kvengine start d ≡ ok e
    → webserver b start d ≡ ok (started b listen_fd e)
unfolding webserver new_epoll get_listen_fd epoll_add
webserver-starts {b} {listen_fd} start e d boot back =
    rw
      (
        boot.created,
        ◌>>=◌,
        tcp_socket_lem b.socket_calls,
        boot.socket_ok,
        boot.listen_eq,
        boot.paired,
        boot.added b.epoll_create (pos b.pipe_fd),
        boot.added b.epoll_create (pos listen_fd),
        boot.signals 2 _,
        boot.signals 15 _,
        back,
      )
      refl
