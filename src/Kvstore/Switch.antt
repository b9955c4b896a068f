-- ===== src/Kvstore/Switch.antt =====
-- The branches of the `switch` that reach the table, against a map and its size.
use kvstore_epoll.Kvstore.Commands.{
  hset, hget, hdel, hmod, hcount, spec_reply, size, Serves, size-counted,
}
use kvstore_epoll.Memory.{Ptr, to, NeverFails}
use kvstore_epoll.Kvstore.Protocol.{
  Reply, cmd_hset, cmd_hget, cmd_hdel, cmd_hmod, cmd_hcount, format, status, answer, answer_hset,
  answer_hget, answer_hdel, answer_hmod, answer_hcount,
}
use kvstore_epoll.Prelude.{
  Run, refl, ◌∙◌, Option, some, Bytes, arith, ok, ◌+ℤ◌, ◌-ℤ◌, ◌>>=◌, Returns,
}
use kvstore_epoll.Hash.Table.{Engine}
use kvstore_epoll.Hash.Index.{IsIndexed}
use kvstore_epoll.Hash.View.{view, IsValid}
use kvstore_epoll.Hash.Put.{put-Puts, get-view}
use kvstore_epoll.Hash.Delete.{delete-Deletes}
use kvstore_epoll.Hash.Modify.{modify-Modifies}

-- The requests' way to return: the text in `wmsg`, and the store.
abbrev pub written_text : Reply × Engine → Run (Option Bytes × Engine)
written_text r = ok (r.0.wmsg, r.1)

module _ {e : Engine} (valid : IsValid e) (memory : NeverFails e.heap) where
  pub answer_hset-Serves :
      (k v : Bytes)
      → IsIndexed k
      → Returns (answer cmd_hset (to k) (to v) e >>= written_text) (Serves e (hset k v))
  unfolding answer status ◌+ℤ◌ ◌-ℤ◌
  answer_hset-Serves k v h =
      let ((code, e'), run, p) = put-Puts valid k h v memory in
      (
        (some (spec_reply (view e.hash) (size e) (hset k v)), e'),
        rw (answer_hset, run, p.code) (ground arith),
        record {
          valid = p.valid;
          reply = refl;
          map = p.map;
          count = size-counted p.valid p.count ∙ rw valid.counted (ground arith);
          memory = p.memory;
        },
      )

  pub answer_hget-Serves :
      (k : Bytes) (value : Ptr)
      → IsIndexed k
      → Returns (answer cmd_hget (to k) value e >>= written_text) (Serves e (hget k))
  unfolding answer format
  answer_hget-Serves k value h = (
    (some (spec_reply (view e.hash) (size e) (hget k)), e),
    rw (answer_hget, get-view valid k h) refl,
    record { valid = valid; reply = refl; map = λ j. refl; count = refl; memory = memory },
  )

  pub answer_hdel-Serves :
      (k : Bytes) (value : Ptr)
      → IsIndexed k
      → Returns (answer cmd_hdel (to k) value e >>= written_text) (Serves e (hdel k))
  unfolding answer status ◌+ℤ◌ ◌-ℤ◌
  answer_hdel-Serves k value h =
      let ((code, e'), run, p) = delete-Deletes valid k h in
      (
        (some (spec_reply (view e.hash) (size e) (hdel k)), e'),
        rw (answer_hdel, run, p.code) (ground arith),
        record {
          valid = p.valid;
          reply = refl;
          map = p.map;
          count = size-counted p.valid p.count ∙ rw valid.counted (ground arith);
          memory = rw p.grants memory;
        },
      )

  pub answer_hmod-Serves :
      (k v : Bytes)
      → IsIndexed k
      → Returns (answer cmd_hmod (to k) (to v) e >>= written_text) (Serves e (hmod k v))
  unfolding answer status
  answer_hmod-Serves k v h =
      let ((code, e'), run, p) = modify-Modifies valid k h v memory in
      (
        (some (spec_reply (view e.hash) (size e) (hmod k v)), e'),
        rw (answer_hmod, run, p.code) (ground arith),
        record {
          valid = p.valid;
          reply = refl;
          map = p.map;
          count = size-counted p.valid (p.count ∙ valid.counted);
          memory = p.memory;
        },
      )

  pub answer_hcount-Serves :
      (key value : Ptr)
      → Returns (answer cmd_hcount key value e >>= written_text) (Serves e (hcount))
  unfolding answer
  answer_hcount-Serves key value = (
    (some (spec_reply (view e.hash) (size e) hcount), e),
    simp (answer_hcount, valid.counted),
    record { valid = valid; reply = refl; map = λ j. refl; count = refl; memory = memory },
  )
