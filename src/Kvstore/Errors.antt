-- ===== src/Kvstore/Errors.antt =====
-- Requests that the protocol does not answer.
use kvstore_epoll.Prelude.{
  ℕ, ◌+◌, ◌≤◌, ◌<◌, ◌≡◌, ◌≢◌, refl, ◌∙◌, none, List, [], ◌∷◌, Bytes, codes, All, arith, length,
  fault, out_of_bounds, wild_pointer, ◌>>=◌, strcmp_eq, strcmp_eq_iff, le→leb,
}
use kvstore_epoll.Memory.{NeverFails, to, wild, load_string, kvstore_malloc}
use kvstore_epoll.Hash.Table.{
  Engine, max_table_size, hash_of, node_size, bucket_at, read_bucket, create_node,
}
use kvstore_epoll.Hash.Ops.{put_kv_hashtable, get_kv_hashtable, delete_kv_hashtable, insert_front}
use kvstore_epoll.Hash.Index.{IsIndexed, IsHigh, hash_of-high}
use kvstore_epoll.Hash.View.{view, IsValid, read_bucket-valid}
use kvstore_epoll.Kvstore.Split.{max_tokens}
use kvstore_epoll.Kvstore.Words.{IsWord, join}
use kvstore_epoll.Kvstore.Refine.{request-words}
use kvstore_epoll.Kvstore.Protocol.{
  commands, command_from, token_at, answer, answer_default, answer_hset, kvstore_request,
}

pub command_from-unknown :
    (cmd : ℕ) (cs : List Bytes) (w : Bytes)
    → All (λ c. c ≢ w) cs
    → command_from cmd cs w ≡ cmd + length cs
unfolding command_from
command_from-unknown cmd [] w h = omega arith
command_from-unknown cmd (c ∷ cs) w h =
    ground (arith, strcmp_eq_iff c w, command_from-unknown (cmd + 1) cs w h.1)

-- A request of at most 128 words whose first word is none of the fifteen names makes the code read
-- the table of names behind its end.
pub unknown_command :
    (w : Bytes) (ws : List Bytes) (e : Engine)
    → All IsWord (w ∷ ws)
    → length (w ∷ ws) ≤ max_tokens
    → All (λ c. c ≢ w) commands
    → kvstore_request (join (w ∷ ws)) e ≡ fault out_of_bounds
unfolding answer answer_default
unknown_command w ws e h short unknown =
    request-words w ws e h (le→leb (length (w ∷ ws)) max_tokens short)
    ∙ rw (command_from-unknown 0 commands w unknown)

pub create_node-wild :
    (k : Bytes) (e : Engine) → NeverFails e.heap → create_node k wild e.heap ≡ fault wild_pointer
unfolding create_node kvstore_malloc load_string
create_node-wild k e memory =
    simp (memory e.heap.calls node_size, memory (e.heap.calls + 1) (length k + 1))

module _ {e : Engine} (valid : IsValid e) where
  -- On a valid table with memory at hand, HSET with a key that has an index and is not there, and no
  -- value, follows an uninitialised pointer.
  pub hset_without_value :
      (k : Bytes)
      → IsWord k
      → IsIndexed k
      → view e.hash k ≡ none
      → NeverFails e.heap
      → kvstore_request (join (codes "HSET" ∷ k ∷ [])) e ≡ fault wild_pointer
  unfolding command_from token_at strcmp_eq answer put_kv_hashtable view
  hset_without_value k word indexed absent memory =
      request-words (codes "HSET") (k ∷ []) e ((λ q. cc, omega arith), (word, tt)) refl
      ∙ rw (
        answer_hset,
        read_bucket-valid valid k indexed,
        ◌>>=◌,
        absent,
        insert_front,
        create_node-wild k e memory,
      )

  high_read :
      (b : ℕ) (bs : Bytes)
      → IsHigh (b ∷ bs)
      → length (b ∷ bs) < 800
      → read_bucket e.hash (hash_of (b ∷ bs) max_table_size) ≡ fault out_of_bounds
  unfolding read_bucket bucket_at
  high_read b bs high short = rw ((hash_of-high b bs high short).1, valid.array)

  -- On a valid table, a put, a get and a delete of a nonempty key of bytes above 127 only, shorter
  -- than 800 bytes, each index the array of buckets below 0.
  pub high_key :
      (b : ℕ) (bs v : Bytes)
      → IsHigh (b ∷ bs)
      → length (b ∷ bs) < 800
      → (put_kv_hashtable (to (b ∷ bs)) (to v) e ≡ fault out_of_bounds)
        × (get_kv_hashtable (to (b ∷ bs)) e ≡ fault out_of_bounds)
        × (delete_kv_hashtable (to (b ∷ bs)) e ≡ fault out_of_bounds)
  unfolding put_kv_hashtable get_kv_hashtable delete_kv_hashtable
  high_key b bs v high short =
      let e' = high_read b bs high short in (rw e' refl, rw e' refl, rw e' refl)
