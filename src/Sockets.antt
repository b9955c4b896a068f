-- ===== src/Sockets.antt =====
-- network/tcp.cpp and network/epoll.cpp: the classes around the system calls, which are the
-- environment.
pub mod Tcp
pub mod Epoll
