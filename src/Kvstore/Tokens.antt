-- ===== src/Kvstore/Tokens.antt =====
-- `kvstore_split_token` on any message, against the words that stand in it.
use kvstore_epoll.Prelude.{
  ℕ, zero, suc, ◌-◌, ◌≤◌, ◌<◌, ◌≡◌, refl, ◌∙◌, none, some, List, [], ◌∷◌, Bytes, arith, length,
  if◌then◌else◌, ◌==◌, ok, fault, out_of_bounds, leb, inl, inr, ◌⊎◌, true, false,
}
use native.Mathlib.Decide.{ℕ_discrete}
use kvstore_epoll.Kvstore.Split.{
  space, max_tokens, skip_spaces, word_of, strtok, split_loop, kvstore_split_token,
}

-- A byte in front of the first word.
unfoldable pub onto_first : ℕ → List Bytes → List Bytes
onto_first b [] = (b ∷ []) ∷ []
onto_first b (w ∷ ws) = (b ∷ w) ∷ ws

-- A byte in front of a text with these words; it begins a word where a space follows.
unfoldable pub begin_word : ℕ → Bytes → List Bytes → List Bytes
begin_word b [] ws = (b ∷ []) ∷ ws
begin_word b (c ∷ cs) ws = if c == space then (b ∷ []) ∷ ws else onto_first b ws

-- The longest runs of bytes other than the space, in order.
unfoldable pub words_in : Bytes → List Bytes
unfolding begin_word onto_first
words_in [] = []
words_in (b ∷ bs) = let later = words_in bs in if b == space then later else begin_word b bs later

words_in-word_of :
    (b : ℕ) (bs : Bytes)
    → (b == space) ≡ false
    → words_in (b ∷ bs) ≡ (word_of (b ∷ bs)).0 ∷ words_in (word_of (b ∷ bs)).1
unfolding words_in word_of
words_in-word_of b [] h = rw h refl
words_in-word_of b (c ∷ cs) h = elim (ℕ_discrete c space) [
  | yes same ↦ let e : (c == space) ≡ true = ground arith in rw (h, e) refl
  | no other ↦
      let e : (c == space) ≡ false = ground arith in ground (arith, h, e, words_in-word_of c cs e)
]

word_of-shorter : (bs : Bytes) → length (word_of bs).1 ≤ length bs
unfolding word_of
word_of-shorter [] = omega arith
word_of-shorter (b ∷ bs) = ground (arith, word_of-shorter bs)

step_space :
    (b : ℕ) (bs : Bytes)
    → b ≡ space
    → (strtok (b ∷ bs) ≡ strtok bs) × (words_in (b ∷ bs) ≡ words_in bs)
unfolding strtok skip_spaces words_in
step_space b bs h = rw h (refl, refl)

step_word : (b : ℕ) (bs : Bytes) → (b == space) ≡ false → strtok (b ∷ bs) ≡ some (word_of (b ∷ bs))
unfolding strtok skip_spaces
step_word b bs h = ground (arith, h)

word_of-rest :
    (b : ℕ) (bs : Bytes) → (b == space) ≡ false → length (word_of (b ∷ bs)).1 < length (b ∷ bs)
unfolding word_of
word_of-rest b bs h = rw h (omega (arith, word_of-shorter bs))

-- What one call of `strtok` returns: nothing where no word is left, and else the first word.
strtok-words :
    (msg : Bytes)
    → ((strtok msg ≡ none) × (words_in msg ≡ []))
      ⊎ ((t : Bytes × Bytes) × (strtok msg ≡ some t)
          × (words_in msg ≡ t.0 ∷ words_in t.1)
          × (length t.1 < length msg))
strtok-words [] = inl (unfold strtok skip_spaces in refl, unfold words_in in refl)
strtok-words (b ∷ bs) = elim (ℕ_discrete b space) [
  | yes same ↦
      let (s, w) = step_space b bs same in
      elim (strtok-words bs) [
        | inl (n, e) ↦ inl (s ∙ n, w ∙ e)
        | inr (t, found, ws, short) ↦ inr (t, s ∙ found, w ∙ ws, omega arith)
      ]
  | no other ↦
      let e : (b == space) ≡ false = ground arith in
      inr (word_of (b ∷ bs), step_word b bs e, words_in-word_of b bs e, word_of-rest b bs e)
]

split_loop-words :
    (fuel room : ℕ) (msg : Bytes)
    → length msg ≤ fuel
    → split_loop fuel room msg
      ≡ (if leb (length (words_in msg)) room then ok (words_in msg) else fault out_of_bounds)
unfolding split_loop words_in
split_loop-words zero room [] h = ground arith
split_loop-words zero room (b ∷ bs) h = absurd (omega arith)
split_loop-words (suc fuel) room msg h = elim (strtok-words msg) [
  | inl (none_left, ws) ↦ rw (split_loop, none_left, ws) (ground arith)
  | inr (t, found, ws, short) ↦
      rw (split_loop, found, ws)
        (ground (arith, split_loop-words fuel (room - 1) t.1 (omega arith)))
]

-- Of any message `kvstore_split_token` returns the words that stand in it, in order, where they are
-- at most 128, and else it writes past the end of the array.
pub split_token-words :
    (msg : Bytes)
    → kvstore_split_token msg
      ≡ (if leb (length (words_in msg)) max_tokens then ok (words_in msg) else fault out_of_bounds)
unfolding kvstore_split_token
split_token-words msg = split_loop-words (length msg) max_tokens msg (omega arith)
