-- ===== src/Sockets/Tcp.antt =====
-- network/tcp.cpp, class tcp_socket.
use kvstore_epoll.Prelude.{
  ◌≡◌, Option, none, some, Bool, not, ◌&&◌, if◌then◌else◌, Run, ok, fault, uncaught, ◌>>=◌, ℤ,
  negsuc, is_negative, arith,
}

-- What `socket`, `setsockopt`, `bind` and `listen` return.
pub record SocketCalls : Type 0 where
  pub socket : ℤ
  pub setsockopt : ℤ
  pub bind : ℤ
  pub listen : ℤ

-- `create`: its result, and `_socket_fd` after it.
unfoldable pub create : SocketCalls → ℤ × ℤ
create c =
    if is_negative c.socket
    then (negsuc 0, c.socket)
    else if is_negative c.setsockopt
    then (c.setsockopt, c.socket)
    else if is_negative c.bind
    then (c.bind, c.socket)
    else if is_negative c.listen
    then (negsuc 0, c.socket)
    else (c.socket, c.socket)

-- The constructor: `_socket_fd`, or an exception, which nothing catches.
unfoldable pub tcp_socket : SocketCalls → Run ℤ
unfolding create
tcp_socket c = let (ret, fd) = create c in if is_negative ret then fault uncaught else ok fd

unfoldable pub get_listen_fd : ℤ → Run ℤ
get_listen_fd fd = if is_negative fd then fault uncaught else ok fd

-- `Accept_tcp`, on what `accept` returns
unfoldable pub accept_tcp : ℤ → ℤ → Run ℤ
unfolding get_listen_fd
accept_tcp fd accepted = do
  listen_fd ← get_listen_fd fd
  ok (if is_negative accepted then negsuc 0 else accepted)

-- The descriptor that the destructor closes.
unfoldable pub closed_by : ℤ → Option ℤ
closed_by fd = if is_negative fd then none else some fd

-- All four calls have succeeded.
abbrev pub all_succeed : SocketCalls → Bool
all_succeed c =
    not (is_negative c.socket)
    && (not (is_negative c.setsockopt) && (not (is_negative c.bind) && not (is_negative c.listen)))

-- The constructor gives a listening socket exactly where all four calls succeed, namely the
-- descriptor that `socket` has returned, and ends the process by an exception where one fails.
pub tcp_socket_lem :
    (c : SocketCalls) → tcp_socket c ≡ (if all_succeed c then ok c.socket else fault uncaught)
unfolding tcp_socket
tcp_socket_lem c = ground arith
