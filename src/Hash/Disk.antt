-- ===== src/Hash/Disk.antt =====
-- kv_core/hash.cpp: `save_to_disk` and `load_from_disk`. What `printf` reports is left out.
-- The file is the environment's: its bytes, and whether `fopen` opens it.
pub mod Lines
pub mod Saved
pub mod Loaded
pub mod RoundTrip
pub mod Ascii
use kvstore_epoll.Prelude.{
  ℕ, zero, suc, ◌+◌, ◌-◌, Option, none, some, List, [], ◌∷◌, ◌++◌, Bytes, Bool, true, false, ◌||◌,
  length, if◌then◌else◌, ◌==◌, ℤ, pos, negsuc, Run, ok, ◌>>=◌,
}
use kvstore_epoll.Memory.{to}
use kvstore_epoll.Hash.Chain.{Node}
use kvstore_epoll.Hash.Table.{Hashtable, Engine, read_bucket}
use kvstore_epoll.Hash.Ops.{put_kv_hashtable}

-- The file of the name that is passed; `none` where there is no such file.
pub record Disk : Type 0 where
  pub file : Option Bytes
  pub writable : Bool
  pub readable : Bool

-- BUFFER_LENGTH
abbrev pub buffer_length : ℕ
buffer_length = 512

abbrev pub newline : ℕ
newline = 10

abbrev pub colon : ℕ
colon = b':'

-- `fprintf(fp, "%s:%s\n", node->key, node->value)`
unfoldable pub print_node : Node → Bytes
print_node n = n.key ++ (colon ∷ (n.value ++ (newline ∷ [])))

unfoldable pub print_chain : List Node → Bytes
print_chain [] = []
print_chain (n ∷ ns) = print_node n ++ print_chain ns

-- `for (i = first; i < first + count; i++)`
unfoldable pub print_buckets : Hashtable → ℕ → ℕ → Run Bytes
print_buckets t first zero = ok []
print_buckets t first (suc count) = do
  ns ← read_bucket t (pos first)
  rest ← print_buckets t (first + 1) count
  ok (print_chain ns ++ rest)

unfoldable pub save_to_disk : Engine → Disk → Run (ℤ × Disk)
save_to_disk e d =
    if d.writable
    then (do
      text ← print_buckets e.hash 0 e.hash.max_slots
      ok (pos 0, record d { file = some text }))
    else ok (negsuc 0, d)

-- `fgets` with room for so many bytes: the line with its newline, and what stays in the file.
unfoldable pub read_line : ℕ → Bytes → Bytes × Bytes
read_line zero bs = ([], bs)
read_line (suc room) [] = ([], [])
read_line (suc room) (b ∷ bs) =
    let (line, rest) = read_line room bs in if b == newline then (b ∷ [], bs) else (b ∷ line, rest)

-- The string in the buffer after `line[strcspn(line, "\n")] = 0`.
unfoldable pub line_text : Bytes → Bytes
line_text [] = []
line_text (b ∷ bs) = if (b == newline) || (b == 0) then [] else b ∷ line_text bs

abbrev pub onto_key : ℕ → Option (Bytes × Bytes) → Option (Bytes × Bytes)
onto_key b none = none
onto_key b (some (k, v)) = some (b ∷ k, v)

-- `strchr(line, ':')`, and the two strings on its sides.
unfoldable pub split_colon : Bytes → Option (Bytes × Bytes)
split_colon [] = none
split_colon (b ∷ bs) =
    let rest = onto_key b (split_colon bs) in if b == colon then some ([], bs) else rest

unfoldable pub load_line : Bytes → Engine → Run Engine
load_line line e = elim (split_colon (line_text line)) [
  | none ↦ ok e
  | some (key, value) ↦ do (code, e') ← put_kv_hashtable (to key) (to value) e; ok e'
]

-- `while (fgets(line, sizeof(line), fp))`; the fuel is the number of bytes left at the start.
unfoldable pub load_lines : ℕ → Bytes → Engine → Run Engine
load_lines zero bytes e = ok e
load_lines (suc fuel) [] e = ok e
load_lines (suc fuel) (b ∷ bs) e =
    let (line, rest) = read_line (buffer_length - 1) (b ∷ bs) in
    do e' ← load_line line e; load_lines fuel rest e'

unfoldable pub load_from_disk : Engine → Disk → Run (ℤ × Engine)
load_from_disk e d = elim d.file [
  | none ↦ ok (pos 0, e)
  | some bytes ↦
      if d.readable
      then (do e' ← load_lines (length bytes) bytes e; ok (pos 0, e'))
      else ok (negsuc 0, e)
]
