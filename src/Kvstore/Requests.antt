-- ===== src/Kvstore/Requests.antt =====
-- Every message that a client can send, and what becomes of it.
use kvstore_epoll.Kvstore.Messages.{
  Request, unimplemented, unknown, asked, hset_key, hmod_key, unimplemented_names, served_names,
  member, with_key, with_value, request_of, message_request, Does, on_words, command_from-found,
  get_elem-there, member-commands, member-All,
}
use kvstore_epoll.Prelude.{
  ◌≡◌, ◌≢◌, refl, subst, Option, none, some, List, [], ◌∷◌, Bytes, codes, Bool, true, false, All,
  Option-cases, Bool-cases, inl, inr, arith, length, if◌then◌else◌, Run, ok, fault, wild_pointer,
  ◌>>=◌, strcmp_eq, strcmp_eq_iff, leb, negsuc, pos,
}
use kvstore_epoll.Memory.{NeverFails, to, wild, load_string}
use kvstore_epoll.Hash.Table.{Engine}
use kvstore_epoll.Hash.Index.{IsIndexed}
use kvstore_epoll.Hash.View.{view, IsValid, chain_at, read_bucket-valid}
use kvstore_epoll.Kvstore.Split.{max_tokens}
use kvstore_epoll.Kvstore.Tokens.{words_in, split_token-words}
use kvstore_epoll.Kvstore.Commands.{hset, hget, hdel, hmod, hcount}
use kvstore_epoll.Kvstore.Protocol.{
  commands, command_from, token_at, answer, answer_default, kvstore_parser_protocol,
  kvstore_request, answer_hset, answer_hget, answer_hdel, answer_hmod, status,
}
use kvstore_epoll.Hash.Chain.{find}
use kvstore_epoll.Hash.Ops.{
  put_kv_hashtable, get_kv_hashtable, delete_kv_hashtable, kvs_hash_modify, insert_front,
  replace_value,
}
use kvstore_epoll.Kvstore.Errors.{create_node-wild, command_from-unknown}
use kvstore_epoll.Kvstore.Switch.{
  answer_hset-Serves, answer_hget-Serves, answer_hdel-Serves, answer_hmod-Serves,
  answer_hcount-Serves,
}

module _ {e : Engine} (valid : IsValid e) (memory : NeverFails e.heap) where
  -- Without a value, a pair is only looked up.
  put-wild :
      (k : Bytes)
      → IsIndexed k
      → put_kv_hashtable (to k) wild e
        ≡ elim (view e.hash k) [ some old ↦ ok (pos 1, e) | none ↦ fault wild_pointer ]
  unfolding put_kv_hashtable view
  put-wild k indexed =
      rw (read_bucket-valid valid k indexed, ◌>>=◌)
        (elim (Option-cases (find k (chain_at e.hash k))) [
          | inl absent ↦ rw (absent, insert_front, create_node-wild k e memory)
          | inr (old, there) ↦ rw there refl
        ])

  modify-wild :
      (k : Bytes)
      → IsIndexed k
      → kvs_hash_modify (to k) wild e
        ≡ elim (view e.hash k) [ none ↦ ok (negsuc 0, e) | some old ↦ fault wild_pointer ]
  unfolding kvs_hash_modify view load_string
  modify-wild k indexed =
      rw (read_bucket-valid valid k indexed, ◌>>=◌)
        (elim (Option-cases (find k (chain_at e.hash k))) [
          | inl absent ↦ rw absent refl
          | inr (old, there) ↦ rw (there, replace_value) refl
        ])

  hset-Does :
      (ws : List Bytes)
      → All IsIndexed ws
      → Does e (with_value hset hset_key ws) (on_words (codes "HSET" ∷ ws) e)
  unfolding kvstore_parser_protocol command_from strcmp_eq token_at answer answer_hset
      put_kv_hashtable status
  hset-Does [] h = refl
  hset-Does (k ∷ []) h = elim (Option-cases (view e.hash k)) [
    | inl absent ↦ rw (put-wild k h.0, absent) refl
    | inr (old, there) ↦ rw (put-wild k h.0, there) refl
  ]
  hset-Does (k ∷ v ∷ ws) h = answer_hset-Serves valid memory k v h.0

  hget-Does :
      (ws : List Bytes)
      → All IsIndexed ws
      → Does e (with_key hget ws) (on_words (codes "HGET" ∷ ws) e)
  unfolding kvstore_parser_protocol command_from strcmp_eq token_at answer answer_hget
      get_kv_hashtable
  hget-Does [] h = refl
  hget-Does (k ∷ ws) h = answer_hget-Serves valid memory k (token_at ws 0) h.0

  hdel-Does :
      (ws : List Bytes)
      → All IsIndexed ws
      → Does e (with_key hdel ws) (on_words (codes "HDEL" ∷ ws) e)
  unfolding kvstore_parser_protocol command_from strcmp_eq token_at answer answer_hdel
      delete_kv_hashtable
  hdel-Does [] h = refl
  hdel-Does (k ∷ ws) h = answer_hdel-Serves valid memory k (token_at ws 0) h.0

  hmod-Does :
      (ws : List Bytes)
      → All IsIndexed ws
      → Does e (with_value hmod hmod_key ws) (on_words (codes "HMOD" ∷ ws) e)
  unfolding kvstore_parser_protocol command_from strcmp_eq token_at answer answer_hmod
      kvs_hash_modify status
  hmod-Does [] h = refl
  hmod-Does (k ∷ []) h = elim (Option-cases (view e.hash k)) [
    | inl absent ↦ rw (modify-wild k h.0, absent) refl
    | inr (old, there) ↦ rw (modify-wild k h.0, there) refl
  ]
  hmod-Does (k ∷ v ∷ ws) h = answer_hmod-Serves valid memory k v h.0

  hcount-Does : (ws : List Bytes) → Does e (asked hcount) (on_words (codes "HCOUNT" ∷ ws) e)
  unfolding kvstore_parser_protocol command_from strcmp_eq
  hcount-Does ws = answer_hcount-Serves valid memory (token_at ws 0) (token_at ws 1)

  if-Does :
      (run : Run (Option Bytes × Engine)) (b : Bool) (q r : Request)
      → (b ≡ true → Does e q run)
      → (b ≡ false → Does e r run)
      → Does e (if b then q else r) run
  if-Does run true q r holds fails = holds refl
  if-Does run false q r holds fails = fails refl

  word-Does :
      (w v : Bytes) (ws : List Bytes) (q : Request)
      → strcmp_eq v w ≡ true
      → Does e q (on_words (v ∷ ws) e)
      → Does e q (on_words (w ∷ ws) e)
  word-Does w v ws q same h =
      subst (λ t. Does e q (on_words (t ∷ ws) e)) ((strcmp_eq_iff v w).0 same) h

  unimplemented-Does :
      (w : Bytes) (ws : List Bytes)
      → member w unimplemented_names ≡ true
      → Does e unimplemented (on_words (w ∷ ws) e)
  unfolding kvstore_parser_protocol answer answer_default
  unimplemented-Does w ws h =
      let (low, high) = command_from-found 0 unimplemented_names served_names w h in
      let (name, there) =
        get_elem-there commands (command_from 0 commands w) (omega (arith, high)) in
      ground (arith, high, there)

  unknown-Does :
      (w : Bytes) (ws : List Bytes)
      → All (λ c. c ≢ w) commands
      → Does e unknown (on_words (w ∷ ws) e)
  unfolding kvstore_parser_protocol answer answer_default
  unknown-Does w ws h = rw (command_from-unknown 0 commands w h) refl

  words-Does : (ws : List Bytes) → All IsIndexed ws → Does e (request_of ws) (on_words ws e)
  words-Does [] h = unfold kvstore_parser_protocol in refl
  words-Does (w ∷ ws) h =
      let run = on_words (w ∷ ws) e in
      if-Does run (strcmp_eq (codes "HSET") w) _ _
        (λ y. word-Does w _ ws (with_value hset hset_key ws) y (hset-Does ws h.1))
        λ n0.
          if-Does run (strcmp_eq (codes "HGET") w) _ _
            (λ y. word-Does w _ ws (with_key hget ws) y (hget-Does ws h.1))
            λ n1.
              if-Does run (strcmp_eq (codes "HDEL") w) _ _
                (λ y. word-Does w _ ws (with_key hdel ws) y (hdel-Does ws h.1))
                λ n2.
                  if-Does run (strcmp_eq (codes "HMOD") w) _ _
                    (λ y. word-Does w _ ws (with_value hmod hmod_key ws) y (hmod-Does ws h.1))
                    λ n3.
                      if-Does run (strcmp_eq (codes "HCOUNT") w) _ _
                        (λ y. word-Does w _ ws (asked hcount) y (hcount-Does ws))
                        λ n4.
                          if-Does run (member w unimplemented_names) unimplemented unknown
                            (unimplemented-Does w ws)
                            λ n5.
                              unknown-Does w ws
                                (member-All w commands (member-commands w n5 n0 n1 n2 n3 n4))

  -- On a valid table with memory at hand, the call on any message whose words have an index of the
  -- array does what the message asks for: it returns without an answer where there is no word, serves
  -- a command with all its operands as the specification says, and answers ERROR for the ten names
  -- without a branch. It follows an uninitialised pointer where HSET, HGET, HDEL or HMOD comes without
  -- a key, and where the value is missing and the key is absent for HSET or there for HMOD, as long as
  -- the uninitialised pointers are not null; with a name that is not in the table, or with more than
  -- 128 words, it accesses an array out of bounds.
  pub request-Does :
      (msg : Bytes)
      → All IsIndexed (words_in msg)
      → Does e (message_request msg) (kvstore_request msg e)
  unfolding kvstore_request
  request-Does msg h = elim (Bool-cases (leb (length (words_in msg)) max_tokens)) [
    | inl short ↦ rw (split_token-words msg, short) (words-Does (words_in msg) h)
    | inr long ↦ rw (split_token-words msg, long) refl
  ]
