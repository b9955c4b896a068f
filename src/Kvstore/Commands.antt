-- ===== src/Kvstore/Commands.antt =====
-- The requests of the store, and what each asks of a map and its size.
use kvstore_epoll.Prelude.{
  ℕ, ◌-◌, ◌≡◌, ◌∙◌, Option, none, some, List, [], ◌∷◌, Bytes, codes, take, if◌then◌else◌, ap, sym,
  ◌+◌, ℤ, pos_part, strcmp_eq,
}
use kvstore_epoll.Memory.{NeverFails}
use kvstore_epoll.Hash.Table.{Engine, max_table_size}
use kvstore_epoll.Hash.Index.{IsIndexed}
use kvstore_epoll.Hash.View.{view, IsValid, nodes_of, total}
use kvstore_epoll.Hash.Put.{or_insert}
use kvstore_epoll.Hash.Modify.{replace}
use kvstore_epoll.Hash.Disk.{buffer_length}
use kvstore_epoll.Kvstore.Decimal.{print_decimal}
use kvstore_epoll.Kvstore.Words.{IsWord}

pub data Command : Type 0 where
  hset : Bytes → Bytes → Command
  hget : Bytes → Command
  hdel : Bytes → Command
  hmod : Bytes → Bytes → Command
  hcount : Command

abbrev pub words : Command → List Bytes
words (hset k v) = codes "HSET" ∷ k ∷ v ∷ []
words (hget k) = codes "HGET" ∷ k ∷ []
words (hdel k) = codes "HDEL" ∷ k ∷ []
words (hmod k v) = codes "HMOD" ∷ k ∷ v ∷ []
words hcount = codes "HCOUNT" ∷ []

-- The keys are words with an index, and the values are words.
abbrev pub IsCommand : Command → Type 0
IsCommand (hset k v) = IsWord k × IsIndexed k × IsWord v
IsCommand (hget k) = IsWord k × IsIndexed k
IsCommand (hdel k) = IsWord k × IsIndexed k
IsCommand (hmod k v) = IsWord k × IsIndexed k × IsWord v
IsCommand hcount = Unit

-- The text that a command is answered with, from the map and its size before the command.
abbrev pub spec_reply : (Bytes → Option Bytes) → ℕ → Command → Bytes
spec_reply m n (hset k v) = elim (m k) [ some old ↦ codes "EXISTS" | none ↦ codes "SUCCESS" ]
spec_reply m n (hget k) = elim (m k) [
  | some v ↦ take (buffer_length - 1) v
  | none ↦ codes "NO EXIST"
]
spec_reply m n (hdel k) = elim (m k) [ some old ↦ codes "SUCCESS" | none ↦ codes "ERROR" ]
spec_reply m n (hmod k v) = elim (m k) [ some old ↦ codes "SUCCESS" | none ↦ codes "ERROR" ]
spec_reply m n hcount = print_decimal n

-- The map after a command.
abbrev pub spec_map : (Bytes → Option Bytes) → Command → Bytes → Option Bytes
spec_map m (hset k v) j = or_insert m k v j
spec_map m (hget k) j = m j
spec_map m (hdel k) j = if strcmp_eq k j then none else m j
spec_map m (hmod k v) j = replace m k v j
spec_map m hcount j = m j

-- The number of pairs in the table.
abbrev pub size : Engine → ℕ
size e = total (nodes_of e.hash) max_table_size

-- The number of pairs after a command.
abbrev pub spec_size : (Bytes → Option Bytes) → ℕ → Command → ℕ
spec_size m n (hset k v) = elim (m k) [ some old ↦ n | none ↦ n + 1 ]
spec_size m n (hget k) = n
spec_size m n (hdel k) = elim (m k) [ some old ↦ n - 1 | none ↦ n ]
spec_size m n (hmod k v) = n
spec_size m n hcount = n

-- What a request has done when it returns `r`.
pub record Serves (e : Engine) (c : Command) (r : Option Bytes × Engine) : Type 0 where
  pub valid : IsValid r.1
  pub reply : r.0 ≡ some (spec_reply (view e.hash) (size e) c)
  pub map : (j : Bytes) → view r.1.hash j ≡ spec_map (view e.hash) c j
  pub count : size r.1 ≡ spec_size (view e.hash) (size e) c
  pub memory : NeverFails r.1.heap

-- The number of pairs, from the counter of a valid table.
pub size-counted : {e : Engine} {z : ℤ} → IsValid e → e.hash.count ≡ z → size e ≡ pos_part z
size-counted valid count = ap pos_part (sym valid.counted ∙ count)
