-- ===== src/Sockets/Epoll.antt =====
-- network/epoll.cpp, class Epoll. `epoll_ctl` is the environment's: a function of the descriptor of
-- the epoll object, the operation, the descriptor and the events.
use kvstore_epoll.Prelude.{
  ℕ, Option, none, some, if◌then◌else◌, Run, ok, fault, uncaught, ℤ, is_negative,
}

-- EPOLL_CTL_ADD, EPOLL_CTL_DEL and EPOLL_CTL_MOD
pub data Operation : Type 0 where
  ctl_add ctl_del ctl_mod : Operation

pub record Epoll : Type 0 where
  pub epoll_fd : ℤ
  pub max_events : ℕ

abbrev pub EpollCtl : Type 0
EpollCtl = ℤ → Operation → ℤ → Option ℕ → ℤ

-- The constructor, on what `epoll_create` returns
unfoldable pub new_epoll : ℕ → ℤ → Run Epoll
new_epoll max_events created =
    if is_negative created
    then fault uncaught
    else ok (record { epoll_fd = created; max_events = max_events })

unfoldable pub epoll_add : EpollCtl → Epoll → ℤ → ℕ → ℤ
epoll_add epoll_ctl e fd events = epoll_ctl e.epoll_fd ctl_add fd (some events)

unfoldable pub epoll_del : EpollCtl → Epoll → ℤ → ℤ
epoll_del epoll_ctl e fd = epoll_ctl e.epoll_fd ctl_del fd none

unfoldable pub epoll_mod : EpollCtl → Epoll → ℤ → ℕ → ℤ
epoll_mod epoll_ctl e fd events = epoll_ctl e.epoll_fd ctl_mod fd (some events)

-- `wait`, on the environment's `epoll_wait`
unfoldable pub epoll_wait_for : (ℤ → ℕ → ℤ → ℤ) → Epoll → ℤ → ℤ
epoll_wait_for epoll_wait e timeout = epoll_wait e.epoll_fd e.max_events timeout

unfoldable pub get_epoll_fd : Epoll → Run ℤ
get_epoll_fd e = if is_negative e.epoll_fd then fault uncaught else ok e.epoll_fd

-- The descriptor that the destructor closes.
unfoldable pub end_epoll : ℤ → Option ℤ
end_epoll fd = if is_negative fd then none else some fd
