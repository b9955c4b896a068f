-- ===== src/Kvstore/Split.antt =====
-- kv_core/kvstore.cpp: `kvstore_split_token`, with the C library's `strtok(msg, " ")`.
use kvstore_epoll.Prelude.{
  ℕ, zero, suc, ◌-◌, Option, none, some, List, [], ◌∷◌, Bytes, length, if◌then◌else◌, ◌==◌, Run, ok,
  fault, out_of_bounds, ◌>>=◌,
}

abbrev pub space : ℕ
space = 32

-- KVSTORE_MAX_TOKENS, the size of the caller's array
abbrev pub max_tokens : ℕ
max_tokens = 128

unfoldable pub skip_spaces : Bytes → Bytes
skip_spaces [] = []
skip_spaces (b ∷ bs) = if b == space then skip_spaces bs else b ∷ bs

-- The bytes before the next space, and those behind it.
unfoldable pub word_of : Bytes → Bytes × Bytes
word_of [] = ([], [])
word_of (b ∷ bs) =
    let (word, rest) = word_of bs in if b == space then ([], bs) else (b ∷ word, rest)

-- One call of `strtok`: the token, and where the next call goes on.
unfoldable pub strtok : Bytes → Option (Bytes × Bytes)
strtok msg = elim (skip_spaces msg) [ [] ↦ none | b ∷ bs ↦ some (word_of (b ∷ bs)) ]

-- `while (token != NULL) tokens[idx++] = token`, with so many cells of the array left. The fuel is
-- the length of the message.
unfoldable pub split_loop : ℕ → ℕ → Bytes → Run (List Bytes)
split_loop zero room msg = ok []
split_loop (suc fuel) room msg = elim (strtok msg) [
  | none ↦ ok []
  | some (token, rest) ↦
      if room == 0
      then fault out_of_bounds
      else (do tokens ← split_loop fuel (room - 1) rest; ok (token ∷ tokens))
]

-- The tokens; their number is what the function returns.
unfoldable pub kvstore_split_token : Bytes → Run (List Bytes)
unfolding split_loop
kvstore_split_token msg = split_loop (length msg) max_tokens msg
