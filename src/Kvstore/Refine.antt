-- ===== src/Kvstore/Refine.antt =====
-- The requests of the store against a map from keys to values.
use kvstore_epoll.Kvstore.Commands.{
  Command, hset, hget, hdel, hmod, hcount, IsCommand, words, Serves,
}
use kvstore_epoll.Memory.{wild, NeverFails}
use kvstore_epoll.Kvstore.Switch.{
  answer_hset-Serves, answer_hget-Serves, answer_hdel-Serves, answer_hmod-Serves,
  answer_hcount-Serves,
}
use kvstore_epoll.Prelude.{
  ◌≡◌, refl, ◌∙◌, List, [], ◌∷◌, Bytes, codes, All, arith, length, ok, ◌>>=◌, strcmp_eq, Returns,
  leb, true,
}
use kvstore_epoll.Hash.Table.{Engine}
use kvstore_epoll.Hash.View.{IsValid}
use kvstore_epoll.Kvstore.Split.{max_tokens}
use kvstore_epoll.Kvstore.Words.{IsWord, join, split_token-join}
use kvstore_epoll.Kvstore.Protocol.{
  commands, command_from, token_at, answer, kvstore_parser_protocol, kvstore_request,
}

pub request-words :
    (w : Bytes) (ws : List Bytes) (e : Engine)
    → All IsWord (w ∷ ws)
    → leb (length (w ∷ ws)) max_tokens ≡ true
    → kvstore_request (join (w ∷ ws)) e
      ≡ answer (command_from 0 commands w) (token_at ws 0) (token_at ws 1) e >>= λ r.
          ok (r.0.wmsg, r.1)
unfolding kvstore_request kvstore_parser_protocol
request-words w ws e h short = rw (split_token-join (w ∷ ws) h, short)

module _ {e : Engine} (valid : IsValid e) (memory : NeverFails e.heap) where
  serve-hset :
      (k v : Bytes)
      → IsCommand (hset k v)
      → Returns (kvstore_request (join (words (hset k v))) e) (Serves e (hset k v))
  unfolding command_from token_at strcmp_eq
  serve-hset k v h =
      let (r, run, p) = answer_hset-Serves valid memory k v h.1 in
      (
        r,
        request-words (codes "HSET") (k ∷ v ∷ []) e ((λ q. cc, omega arith), (h.0, (h.2, tt))) refl
            ∙ run,
        p,
      )

  serve-hget :
      (k : Bytes)
      → IsCommand (hget k)
      → Returns (kvstore_request (join (words (hget k))) e) (Serves e (hget k))
  unfolding command_from token_at strcmp_eq
  serve-hget k h =
      let (r, run, p) = answer_hget-Serves valid memory k wild h.1 in
      (r, request-words (codes "HGET") (k ∷ []) e ((λ q. cc, omega arith), (h.0, tt)) refl ∙ run, p)

  serve-hdel :
      (k : Bytes)
      → IsCommand (hdel k)
      → Returns (kvstore_request (join (words (hdel k))) e) (Serves e (hdel k))
  unfolding command_from token_at strcmp_eq
  serve-hdel k h =
      let (r, run, p) = answer_hdel-Serves valid memory k wild h.1 in
      (r, request-words (codes "HDEL") (k ∷ []) e ((λ q. cc, omega arith), (h.0, tt)) refl ∙ run, p)

  serve-hmod :
      (k v : Bytes)
      → IsCommand (hmod k v)
      → Returns (kvstore_request (join (words (hmod k v))) e) (Serves e (hmod k v))
  unfolding command_from token_at strcmp_eq
  serve-hmod k v h =
      let (r, run, p) = answer_hmod-Serves valid memory k v h.1 in
      (
        r,
        request-words (codes "HMOD") (k ∷ v ∷ []) e ((λ q. cc, omega arith), (h.0, (h.2, tt))) refl
            ∙ run,
        p,
      )

  serve-hcount : Returns (kvstore_request (join (words (hcount))) e) (Serves e (hcount))
  unfolding command_from token_at strcmp_eq
  serve-hcount =
      let (r, run, p) = answer_hcount-Serves valid memory wild wild in
      (r, request-words (codes "HCOUNT") ([]) e ((λ q. cc, omega arith), tt) refl ∙ run, p)

  -- A command whose keys and values are words without spaces, and whose keys have an index of the
  -- array, sent as its words with one space between them to a valid table with memory at hand, is
  -- answered with the text of the specification and changes the map as the specification says; the
  -- table stays valid.
  pub serve :
      (c : Command) → IsCommand c → Returns (kvstore_request (join (words c)) e) (Serves e c)
  serve (hset k v) h = serve-hset k v h
  serve (hget k) h = serve-hget k h
  serve (hdel k) h = serve-hdel k h
  serve (hmod k v) h = serve-hmod k v h
  serve hcount h = serve-hcount
