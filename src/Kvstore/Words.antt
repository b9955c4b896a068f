-- ===== src/Kvstore/Words.antt =====
-- What `kvstore_split_token` makes of a message.
use kvstore_epoll.Prelude.{
  ℕ, zero, suc, ◌-◌, ◌≤◌, ◌<◌, ◌≡◌, ◌≢◌, refl, some, List, [], ◌∷◌, ◌++◌, Bytes, All, arith, length,
  length-append, if◌then◌else◌, ok, fault, out_of_bounds, append-nil, subst, leb,
}
use kvstore_epoll.Kvstore.Split.{
  space, max_tokens, skip_spaces, word_of, strtok, split_loop, kvstore_split_token,
}

abbrev pub HasNoSpace : Bytes → Type 0
HasNoSpace = All (λ b. b ≢ space)

abbrev pub IsWord : Bytes → Type 0
IsWord w = (w ≢ []) × HasNoSpace w

-- The words with one space between neighbours.
unfoldable pub join : List Bytes → Bytes
join [] = []
join (w ∷ []) = w
join (w ∷ v ∷ vs) = w ++ (space ∷ join (v ∷ vs))

skip_spaces-word : (w rest : Bytes) → IsWord w → skip_spaces (w ++ rest) ≡ w ++ rest
unfolding skip_spaces
skip_spaces-word [] rest h = absurd (h.0 refl)
skip_spaces-word (b ∷ w) rest h = ground (arith, h.1.0)

word_of-space : (w rest : Bytes) → HasNoSpace w → word_of (w ++ (space ∷ rest)) ≡ (w, rest)
unfolding word_of
word_of-space [] rest h = refl
word_of-space (b ∷ w) rest h = ground (arith, word_of-space w rest h.1)

word_of-end : (w : Bytes) → HasNoSpace w → word_of w ≡ (w, [])
unfolding word_of
word_of-end [] h = refl
word_of-end (b ∷ w) h = ground (arith, word_of-end w h.1)

strtok-space : (w rest : Bytes) → IsWord w → strtok (w ++ (space ∷ rest)) ≡ some (w, rest)
unfolding strtok
strtok-space [] rest h = absurd (h.0 refl)
strtok-space (b ∷ w) rest h =
    rw (strtok, skip_spaces-word (b ∷ w) (space ∷ rest) h, word_of-space (b ∷ w) rest h.1)

strtok-end : (w : Bytes) → IsWord w → strtok w ≡ some (w, [])
unfolding strtok
strtok-end [] h = absurd (h.0 refl)
strtok-end (b ∷ w) h =
    let e : skip_spaces (b ∷ w) ≡ b ∷ w =
      subst (λ t. skip_spaces t ≡ t) (append-nil (b ∷ w)) (skip_spaces-word (b ∷ w) [] h) in
    rw (strtok, e, word_of-end (b ∷ w) h.1)

word_length : (w : Bytes) → w ≢ [] → 0 < length w
word_length [] h = absurd (h refl)
word_length (b ∷ w) h = omega arith

-- The loop gives the words back, as long as the array has room.
split_loop-join :
    (ws : List Bytes) (fuel room : ℕ)
    → All IsWord ws
    → length (join ws) ≤ fuel
    → split_loop fuel room (join ws) ≡ (if leb (length ws) room then ok ws else fault out_of_bounds)
unfolding split_loop join strtok skip_spaces
split_loop-join [] zero room h f = ground arith
split_loop-join [] (suc fuel) room h f = ground arith
split_loop-join (w ∷ []) zero room h f = absurd (omega (arith, word_length w h.0.0))
split_loop-join (w ∷ []) (suc zero) room h f = rw (split_loop, strtok-end w h.0) (ground arith)
split_loop-join (w ∷ []) (suc (suc fuel)) room h f =
    rw (split_loop, strtok-end w h.0) (ground arith)
split_loop-join (w ∷ v ∷ vs) zero room h f =
    absurd (omega (arith, length-append w (space ∷ join (v ∷ vs))))
split_loop-join (w ∷ v ∷ vs) (suc fuel) room h f =
    let ih =
      split_loop-join (v ∷ vs) fuel (room - 1) h.1
        (omega (arith, length-append w (space ∷ join (v ∷ vs)))) in
    rw (split_loop, strtok-space w (join (v ∷ vs)) h.0, ih) (ground arith)

-- Up to 128 words, joined by single spaces, are split into the same words; with more words the
-- code writes past the end of the array.
pub split_token-join :
    (ws : List Bytes)
    → All IsWord ws
    → kvstore_split_token (join ws)
      ≡ (if leb (length ws) max_tokens then ok ws else fault out_of_bounds)
unfolding kvstore_split_token
split_token-join ws h = split_loop-join ws (length (join ws)) max_tokens h (omega arith)
