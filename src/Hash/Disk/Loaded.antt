-- ===== src/Hash/Disk/Loaded.antt =====
-- What `load_from_disk` makes of a file of pairs.
use mathlib.Core.Option.{or_else}
use kvstore_epoll.Prelude.{
  ℕ, zero, suc, ◌+◌, ◌-◌, ◌≤◌, ◌<◌, ◌≡◌, ◌≢◌, refl, ap, ◌∙◌, List, [], ◌∷◌, ◌++◌, Bytes, All, arith,
  All-append, length, length-append, append_assoc, Run, ok, ◌>>=◌, strcmp_eq_iff, Returns, fun_ext,
}
use kvstore_epoll.Memory.{NeverFails, to}
use kvstore_epoll.Hash.Chain.{Node, find}
use kvstore_epoll.Hash.Table.{Engine}
use kvstore_epoll.Hash.Ops.{put_kv_hashtable}
use kvstore_epoll.Hash.Index.{IsIndexed}
use kvstore_epoll.Hash.View.{view, IsValid}
use kvstore_epoll.Hash.Put.{put-Puts, or_insert}
use kvstore_epoll.Hash.Disk.{
  newline, colon, buffer_length, read_line, load_line, load_lines, print_node, print_chain,
}
use kvstore_epoll.Hash.Disk.Lines.{
  IsLine, HasNoColon, read_line-line, line_text-line, split_colon-pair, split_colon-first,
}

-- A pair that the file format keeps: its line fits the buffer and splits at the right colon.
pub record IsStorable (n : Node) : Type 0 where
  pub key_line : IsLine n.key
  pub no_colon : HasNoColon n.key
  pub value_line : IsLine n.value
  pub fits : length n.key + length n.value + 2 < buffer_length

-- The effect of one line on the table.
pub put_pair : Bytes → Bytes → Engine → Run Engine
put_pair key value e = do (code, e') ← put_kv_hashtable (to key) (to value) e; ok e'

pub put_all : List Node → Engine → Run Engine
put_all [] e = ok e
put_all (n ∷ ns) e = put_pair n.key n.value e >>= put_all ns

load_lines-step :
    (fuel : ℕ) (bytes : Bytes) (e : Engine)
    → bytes ≢ []
    → load_lines (suc fuel) bytes e
      ≡ load_line (read_line (buffer_length - 1) bytes).0 e
        >>= load_lines fuel (read_line (buffer_length - 1) bytes).1
unfolding load_lines
load_lines-step fuel [] e h = absurd (h refl)
load_lines-step fuel (b ∷ bs) e h = refl

abbrev line_of : Node → Bytes
line_of n = n.key ++ (colon ∷ n.value)

print_node-line : (n : Node) (rest : Bytes) → print_node n ++ rest ≡ line_of n ++ (newline ∷ rest)
unfolding print_node
print_node-line n rest = simp append_assoc

line_of-IsLine : (n : Node) → IsStorable n → IsLine (line_of n)
line_of-IsLine n h =
    All-append (λ b. (b ≢ newline) × (b ≢ 0)) n.key (colon ∷ n.value) h.key_line
      ((omega arith, omega arith), h.value_line)

not_empty : (line rest : Bytes) → line ++ (newline ∷ rest) ≢ []
not_empty [] rest e = cc
not_empty (b ∷ line) rest e = cc

module _ (n : Node) (ok_n : IsStorable n) where
  read_line-node :
      (rest : Bytes)
      → read_line (buffer_length - 1) (print_node n ++ rest) ≡ (line_of n ++ (newline ∷ []), rest)
  read_line-node rest = rw (print_node-line n rest) (
      read_line-line (buffer_length - 1) (line_of n) rest (line_of-IsLine n ok_n)
        (omega (arith, ok_n.fits, length-append n.key (colon ∷ n.value))))

  load_line-node :
      (e : Engine) → load_line (line_of n ++ (newline ∷ [])) e ≡ put_pair n.key n.value e
  unfolding load_line put_pair
  load_line-node e = rw (
    load_line,
    line_text-line (line_of n) (line_of-IsLine n ok_n),
    split_colon-pair n.key n.value ok_n.no_colon,
  )

-- Loading the lines of some pairs puts the pairs in order.
pub load_lines-pairs :
    (ns : List Node) (fuel : ℕ) (e : Engine)
    → All IsStorable ns
    → length (print_chain ns) ≤ fuel
    → load_lines fuel (print_chain ns) e ≡ put_all ns e
unfolding print_chain put_all load_lines
load_lines-pairs [] zero e h f = refl
load_lines-pairs [] (suc fuel) e h f = refl
load_lines-pairs (n ∷ ns) zero e h f = absurd (
    omega (
      arith,
      f,
      ap length (print_node-line n (print_chain ns)),
      length-append (line_of n) (newline ∷ print_chain ns),
    ))
load_lines-pairs (n ∷ ns) (suc fuel) e h f =
    let long = ap length (print_node-line n (print_chain ns)) in
    let more = length-append (line_of n) (newline ∷ print_chain ns) in
    load_lines-step fuel (print_node n ++ print_chain ns) e
      (rw (print_node-line n (print_chain ns)) (not_empty (line_of n) (print_chain ns)))
    ∙ rw (read_line-node n h.0 (print_chain ns), load_line-node n h.0 e)
        (ap (λ (k : Engine → Run Engine). put_pair n.key n.value e >>= k)
          (fun_ext λ e'. load_lines-pairs ns fuel e' h.1 (omega arith)))

-- Pairs that are put in order: the first pair for a key that was not there stays.
pub put_all-view :
    (ns : List Node) (f : Engine)
    → IsValid f
    → NeverFails f.heap
    → All (λ n. IsIndexed n.key) ns
    → Returns (put_all ns f) λ g.
      IsValid g
      × NeverFails g.heap
      × ((j : Bytes) → view g.hash j ≡ or_else (view f.hash j) (find j ns))
unfolding put_all put_pair find or_else
put_all-view [] f valid memory h = (f, refl, (valid, memory, λ j. ground arith))
put_all-view (n ∷ ns) f valid memory h =
    let ((code, f'), run, p) = put-Puts valid n.key h.0 n.value memory in
    let (g, rest, (valid', memory', map')) = put_all-view ns f' p.valid p.memory h.1 in
    (
      g,
      rw (put_pair, run, ◌>>=◌) rest,
      (
        valid',
        memory',
        λ j. rw (map' j, p.map j, or_insert) (ground (arith, strcmp_eq_iff n.key j)),
      ),
    )

-- A pair whose key has a colon, without newlines or NULs, comes back from its line as another pair:
-- the key is what stands before the first colon, and the rest of the key goes in front of the value.
pub load_line-colon :
    (before after value : Bytes) (e : Engine)
    → HasNoColon before
    → IsLine before
    → IsLine after
    → IsLine value
    → load_line
        (line_of (record { key = before ++ (colon ∷ after); value = value }) ++ (newline ∷ []))
        e
      ≡ put_pair before (after ++ (colon ∷ value)) e
unfolding load_line put_pair
load_line-colon before after value e plain b a v =
    let line = (before ++ (colon ∷ after)) ++ (colon ∷ value) in
    rw (
      load_line,
      line_text-line line (
          All-append (λ b. (b ≢ newline) × (b ≢ 0)) (before ++ (colon ∷ after)) (colon ∷ value)
            (All-append (λ b. (b ≢ newline) × (b ≢ 0)) before (colon ∷ after) b
              ((omega arith, omega arith), a))
            ((omega arith, omega arith), v)),
      split_colon-first before after value plain,
    )
