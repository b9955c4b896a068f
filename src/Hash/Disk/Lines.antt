-- ===== src/Hash/Disk/Lines.antt =====
-- The lines that `fgets` returns, and the pairs in them.
use kvstore_epoll.Prelude.{
  ℕ, zero, suc, ◌-◌, ◌≤◌, ◌<◌, ◌≡◌, ◌≢◌, refl, ap, fun_ext, some, [], ◌∷◌, ◌++◌, Bytes, All, arith,
  length, append_assoc, length-append, Run, ◌>>=◌,
}
use kvstore_epoll.Hash.Table.{Engine}
use kvstore_epoll.Hash.Disk.{
  newline, colon, buffer_length, read_line, line_text, split_colon, load_line, load_lines,
}

-- A string of C without a newline.
abbrev pub IsLine : Bytes → Type 0
IsLine = All (λ b. (b ≢ newline) × (b ≢ 0))

abbrev pub HasNoColon : Bytes → Type 0
HasNoColon = All (λ b. b ≢ colon)

pub read_line-line :
    (room : ℕ) (line rest : Bytes)
    → IsLine line
    → length line < room
    → read_line room (line ++ (newline ∷ rest)) ≡ (line ++ (newline ∷ []), rest)
unfolding read_line
read_line-line zero line rest h short = absurd (omega arith)
read_line-line (suc room) [] rest h short = refl
read_line-line (suc room) (b ∷ line) rest h short =
    ground (arith, read_line-line room line rest h.1)

-- What is read and what stays make up the file.
pub read_line-append : (room : ℕ) (bs : Bytes) → (read_line room bs).0 ++ (read_line room bs).1 ≡ bs
unfolding read_line
read_line-append zero bs = refl
read_line-append (suc room) [] = refl
read_line-append (suc room) (b ∷ bs) = ground (arith, read_line-append room bs)

pub read_line-shorter :
    (room b : ℕ) (bs : Bytes) → length (read_line (suc room) (b ∷ bs)).1 ≤ length bs
unfolding read_line
read_line-shorter room b bs = ground (
  arith,
  ap length (read_line-append room bs),
  length-append (read_line room bs).0 (read_line room bs).1,
)

pub line_text-line : (line : Bytes) → IsLine line → line_text (line ++ (newline ∷ [])) ≡ line
unfolding line_text
line_text-line [] h = refl
line_text-line (b ∷ line) h = ground (arith, line_text-line line h.1)

pub split_colon-pair :
    (key value : Bytes) → HasNoColon key → split_colon (key ++ (colon ∷ value)) ≡ some (key, value)
unfolding split_colon
split_colon-pair [] value h = refl
split_colon-pair (b ∷ key) value h = ground (arith, split_colon-pair key value h.1)

-- A colon in a key splits the line inside the key.
pub split_colon-first :
    (key rest value : Bytes)
    → HasNoColon key
    → split_colon ((key ++ (colon ∷ rest)) ++ (colon ∷ value)) ≡ some (key, rest ++ (colon ∷ value))
split_colon-first key rest value h =
    rw (append_assoc key (colon ∷ rest) (colon ∷ value))
      (split_colon-pair key (rest ++ (colon ∷ value)) h)

-- As many rounds as the file has bytes are enough for the loop of `load_from_disk`: any number from
-- there on gives the same result.
pub load_lines-fuel :
    (f g : ℕ) (bytes : Bytes) (e : Engine)
    → length bytes ≤ f
    → length bytes ≤ g
    → load_lines f bytes e ≡ load_lines g bytes e
unfolding load_lines
load_lines-fuel zero zero bytes e p q = refl
load_lines-fuel zero (suc g) [] e p q = refl
load_lines-fuel zero (suc g) (b ∷ bs) e p q = absurd (omega arith)
load_lines-fuel (suc f) zero [] e p q = refl
load_lines-fuel (suc f) zero (b ∷ bs) e p q = absurd (omega arith)
load_lines-fuel (suc f) (suc g) [] e p q = refl
load_lines-fuel (suc f) (suc g) (b ∷ bs) e p q =
    let shorter = read_line-shorter (buffer_length - 2) b bs in
    ap (λ (k : Engine → Run Engine). load_line (read_line (buffer_length - 1) (b ∷ bs)).0 e >>= k)
      (fun_ext λ e'.
        load_lines-fuel f g (read_line (buffer_length - 1) (b ∷ bs)).1 e' (omega arith)
          (omega arith))
