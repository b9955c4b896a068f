-- ===== src/Hash/Disk/Ascii.antt =====
-- Loading any file of ASCII bytes, well formed or not.
use kvstore_epoll.Prelude.{
  ℕ, zero, suc, ◌-◌, ◌<◌, refl, none, some, [], ◌∷◌, ◌==◌, Option, Bytes, arith, length,
  Option-cases, Bool-cases, inl, inr, Returns, pos, negsuc,
}
use kvstore_epoll.Memory.{NeverFails}
use kvstore_epoll.Hash.Table.{Engine}
use kvstore_epoll.Hash.Index.{IsAscii, ascii-IsIndexed}
use kvstore_epoll.Hash.View.{IsValid}
use kvstore_epoll.Hash.Put.{put-Puts}
use kvstore_epoll.Hash.Disk.{
  Disk, buffer_length, read_line, line_text, split_colon, onto_key, colon, load_line, load_lines,
  load_from_disk,
}

read_line-IsAscii :
    (room : ℕ) (bs : Bytes)
    → IsAscii bs
    → IsAscii (read_line room bs).0 × IsAscii (read_line room bs).1
unfolding read_line
read_line-IsAscii zero bs h = (tt, h)
read_line-IsAscii (suc room) [] h = (tt, tt)
read_line-IsAscii (suc room) (b ∷ bs) h = ground (arith, h.0, h.1, read_line-IsAscii room bs h.1)

line_text-IsAscii : (bs : Bytes) → IsAscii bs → IsAscii (line_text bs)
unfolding line_text
line_text-IsAscii [] h = tt
line_text-IsAscii (b ∷ bs) h = ground (arith, h.0, line_text-IsAscii bs h.1)

-- The key of a split line, if it splits, is ASCII.
abbrev AsciiKey : Option (Bytes × Bytes) → Type 0
AsciiKey none = Unit
AsciiKey (some (k, v)) = IsAscii k

onto_key-AsciiKey :
    (b : ℕ) (o : Option (Bytes × Bytes)) → b < 128 → AsciiKey o → AsciiKey (onto_key b o)
onto_key-AsciiKey b none low h = tt
onto_key-AsciiKey b (some (k, v)) low h = (low, h)

split_colon-AsciiKey : (bs : Bytes) → IsAscii bs → AsciiKey (split_colon bs)
unfolding split_colon
split_colon-AsciiKey [] h = tt
split_colon-AsciiKey (b ∷ bs) h = elim (Bool-cases (b == colon)) [
  | inl here ↦ rw here tt
  | inr other ↦ rw other (onto_key-AsciiKey b (split_colon bs) h.0 (split_colon-AsciiKey bs h.1))
]

-- A valid table, with memory at hand.
abbrev pub IsLive : Engine → Type 0
IsLive e = IsValid e × NeverFails e.heap

load_line-IsLive :
    (line : Bytes) (e : Engine) → IsAscii line → IsLive e → Returns (load_line line e) IsLive
unfolding load_line
load_line-IsLive line e h live = elim (Option-cases (split_colon (line_text line))) [
  | inl absent ↦ (e, rw (load_line, absent) refl, live)
  | inr ((k, v), found) ↦
      let key = rw found at (split_colon-AsciiKey (line_text line) (line_text-IsAscii line h)) in
      let ((code, e'), run, p) = put-Puts live.0 k (ascii-IsIndexed k key).0 v live.1 in
      (e', rw (load_line, found, run) refl, (p.valid, p.memory))
]

load_lines-IsLive :
    (fuel : ℕ) (bytes : Bytes) (e : Engine)
    → IsAscii bytes
    → IsLive e
    → Returns (load_lines fuel bytes e) IsLive
unfolding load_lines
load_lines-IsLive zero bytes e h live = (e, refl, live)
load_lines-IsLive (suc fuel) [] e h live = (e, refl, live)
load_lines-IsLive (suc fuel) (b ∷ bs) e h live =
    let (line, rest) = read_line-IsAscii (buffer_length - 1) (b ∷ bs) h in
    let (e1, run1, live1) =
      load_line-IsLive (read_line (buffer_length - 1) (b ∷ bs)).0 e line live in
    let (e2, run2, live2) =
      load_lines-IsLive fuel (read_line (buffer_length - 1) (b ∷ bs)).1 e1 rest live1 in
    (e2, rw (run1, run2) refl, live2)

-- The file, if there is one, has only ASCII bytes.
abbrev pub AsciiFile : Disk → Type 0
AsciiFile d = elim d.file [ none ↦ Unit | some bytes ↦ IsAscii bytes ]

pub load_from_disk-IsLive :
    (e : Engine) (d : Disk)
    → AsciiFile d
    → IsLive e
    → Returns (load_from_disk e d) (λ r. IsLive r.1)
unfolding load_from_disk
load_from_disk-IsLive e d h live = elim (Option-cases d.file) [
  | inl absent ↦ ((pos 0, e), rw (load_from_disk, absent) refl, live)
  | inr (bytes, there) ↦ elim (Bool-cases d.readable) [
    | inl opens ↦
        let (e1, run, live1) = load_lines-IsLive (length bytes) bytes e (rw there at h) live in
        ((pos 0, e1), rw (load_from_disk, there, opens, run) refl, live1)
    | inr refused ↦ ((negsuc 0, e), rw (load_from_disk, there, refused) refl, live)
  ]
]
