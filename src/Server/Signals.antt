-- ===== src/Server/Signals.antt =====
-- Webserver.h, `sigint_handler`, and Webserver.cpp, `del_signal`: signals go through a pair of stream
-- sockets as the four bytes of an `int`, the lowest first.
use kvstore_epoll.Prelude.{
  ◌⊎◌, ◌↔◌, inl, inr, Any, Bool-cases, ℕ, ◌+◌, ◌*◌, ◌/◌, ◌%◌, ◌^◌, ◌<◌, ◌≡◌, refl, ap, ◌∙◌, List,
  [], ◌∷◌, ◌++◌, Bytes, Bool, true, false, ◌||◌, if◌then◌else◌, ◌==◌, All, arith, append_assoc,
  append-nil,
}
use kvstore_epoll.Connection.{Received, failed, bytes}
use kvstore_epoll.Server.Events.{Server}

-- The bytes of an `int` that is not negative.
unfoldable pub int_bytes : ℕ → Bytes
int_bytes n = (n % 256) ∷ (n / 256 % 256) ∷ (n / 65536 % 256) ∷ (n / 16777216 % 256) ∷ []

-- `sigint_handler`, on the bytes that stand in the pipe; `ready` is whether `_pipe_fd` is set.
unfoldable pub sigint_handler : Bool → ℕ → Bytes → Bytes
unfolding int_bytes
sigint_handler ready signal pipe = if ready then pipe ++ int_bytes signal else pipe

-- What a signal puts into the pipe of a server in which these signals have the handler.
unfoldable pub delivered : List ℕ → ℕ → Bytes
unfolding sigint_handler
delivered [] signal = []
delivered (h ∷ hs) signal =
    if h == signal then sigint_handler true signal [] else delivered hs signal

-- The whole `int`s among the received bytes: `num_ints = ret / sizeof(int)`
unfoldable pub ints_of : Bytes → List ℕ
ints_of [] = []
ints_of (a ∷ []) = []
ints_of (a ∷ b ∷ []) = []
ints_of (a ∷ b ∷ c ∷ []) = []
ints_of (a ∷ b ∷ c ∷ d ∷ bs) = (a + 256 * b + 65536 * c + 16777216 * d) ∷ ints_of bs

-- SIGTERM and SIGINT
abbrev pub is_stop_signal : ℕ → Bool
is_stop_signal signal = (signal == 15) || (signal == 2)

-- `for (int i = 0; i < num_ints; ++i)`
unfoldable pub any_stop : List ℕ → Bool
any_stop [] = false
any_stop (signal ∷ signals) = is_stop_signal signal || any_stop signals

-- SIGINT or SIGTERM
abbrev pub IsStop : ℕ → Type 0
IsStop signal = (signal ≡ 2) ⊎ (signal ≡ 15)

pub any_stop-Any : (signals : List ℕ) → Any IsStop signals → any_stop signals ≡ true
unfolding any_stop
any_stop-Any [] stops = absurd stops
any_stop-Any (n ∷ ns) (inl (inl e)) = ground arith
any_stop-Any (n ∷ ns) (inl (inr e)) = ground arith
any_stop-Any (n ∷ ns) (inr rest) = ground (arith, any_stop-Any ns rest)

Any-any_stop : (signals : List ℕ) → any_stop signals ≡ true → Any IsStop signals
unfolding any_stop
Any-any_stop [] e = absurd (ground arith)
Any-any_stop (n ∷ ns) e = elim (Bool-cases (is_stop_signal n)) [
  | inl here ↦ inl (ground arith)
  | inr other ↦ inr (Any-any_stop ns (ground arith))
]

-- `del_signal`, on what `recv` returns
unfoldable pub del_signal : Received → Server → Bool × Server
unfolding any_stop ints_of
del_signal failed s = (false, s)
del_signal (bytes []) s = (false, s)
del_signal (bytes (b ∷ bs)) s = (true, record s { stop = s.stop || any_stop (ints_of (b ∷ bs)) })

-- The pipe after the handler has run for each signal.
unfoldable pub sent : List ℕ → Bytes → Bytes
sent [] pipe = pipe
sent (signal ∷ signals) pipe = sent signals (sigint_handler true signal pipe)

ints_of-int_bytes :
    (n : ℕ) (rest : Bytes) → n < 2 ^ 32 → ints_of (int_bytes n ++ rest) ≡ n ∷ ints_of rest
unfolding ints_of int_bytes
ints_of-int_bytes n rest h = ap (λ k. k ∷ ints_of rest) (omega arith)

-- The bytes of several `int`s.
all_bytes : List ℕ → Bytes
all_bytes [] = []
all_bytes (n ∷ ns) = int_bytes n ++ all_bytes ns

sent-all_bytes : (signals : List ℕ) (pipe : Bytes) → sent signals pipe ≡ pipe ++ all_bytes signals
unfolding sent sigint_handler all_bytes
sent-all_bytes [] pipe = rw append-nil
sent-all_bytes (n ∷ ns) pipe =
    sent-all_bytes ns (pipe ++ int_bytes n) ∙ append_assoc pipe (int_bytes n) (all_bytes ns)

ints_of-all_bytes :
    (signals : List ℕ) → All (λ n. n < 2 ^ 32) signals → ints_of (all_bytes signals) ≡ signals
unfolding all_bytes
ints_of-all_bytes [] h = unfold ints_of in refl
ints_of-all_bytes (n ∷ ns) h =
    ints_of-int_bytes n (all_bytes ns) h.0 ∙ ap (λ t. n ∷ t) (ints_of-all_bytes ns h.1)

-- The signals come out of the pipe as the handler has put them in.
pub ints_of-sent :
    (signals : List ℕ) → All (λ n. n < 2 ^ 32) signals → ints_of (sent signals []) ≡ signals
ints_of-sent signals h = ap ints_of (sent-all_bytes signals []) ∙ ints_of-all_bytes signals h

pub stop-del_signal :
    (text : Bytes) (s : Server)
    → (del_signal (bytes text) s).1 ≡ record s { stop = s.stop || any_stop (ints_of text) }
unfolding del_signal
stop-del_signal [] s = unfold ints_of any_stop in ground arith
stop-del_signal (b ∷ bs) s = refl

-- Where `recv` returns all the bytes of the signals that the handler has sent, of values that an
-- `int` holds, `del_signal` changes nothing but the stop flag, and sets it, if it was not set,
-- exactly where SIGINT or SIGTERM is among the signals.
pub del_signal-sent :
    (signals : List ℕ) (s : Server)
    → All (λ n. n < 2 ^ 32) signals
    → s.stop ≡ false
    → let s' = (del_signal (bytes (sent signals [])) s).1 in
      (s' ≡ record s { stop = s'.stop }) × ((s'.stop ≡ true) ↔ Any IsStop signals)
del_signal-sent signals s h unset =
    rw flag_set (refl, (λ e. Any-any_stop signals e, λ stops. any_stop-Any signals stops))
  where
    flag_set : (del_signal (bytes (sent signals [])) s).1 ≡ record s { stop = any_stop signals }
    flag_set = stop-del_signal (sent signals []) s ∙ rw (ints_of-sent signals h, unset) refl
