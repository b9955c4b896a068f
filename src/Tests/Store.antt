-- ===== src/Tests/Store.antt =====
-- The operations of the store and its requests.
use kvstore_epoll.Prelude.{codes, arith, Returns}
use kvstore_epoll.Memory.{to}
use kvstore_epoll.Hash.Ops.{put_kv_hashtable, delete_kv_hashtable, kvs_hash_modify}
use kvstore_epoll.Hash.Index.{ascii-IsIndexed}
use kvstore_epoll.Hash.Put.{Puts, put-Puts}
use kvstore_epoll.Hash.Delete.{Deletes, delete-Deletes}
use kvstore_epoll.Hash.Modify.{Modifies, modify-Modifies}
use kvstore_epoll.Kvstore.Words.{join}
use kvstore_epoll.Kvstore.Protocol.{kvstore_request}
use kvstore_epoll.Kvstore.Commands.{hset, Serves}
use kvstore_epoll.Kvstore.Refine.{serve}
use kvstore_epoll.Tests.Sample.{
  empty, empty-IsValid, empty-memory, a-IsIndexed, sample, sample-IsValid, sample-memory,
}

put-Puts_example :
    Returns
      (put_kv_hashtable (to (codes "a")) (to (codes "1")) empty)
      (Puts empty (codes "a") (codes "1"))
put-Puts_example = put-Puts empty-IsValid (codes "a") a-IsIndexed (codes "1") empty-memory

delete-Deletes_example :
    Returns (delete_kv_hashtable (to (codes "a")) sample) (Deletes sample (codes "a"))
delete-Deletes_example = delete-Deletes sample-IsValid (codes "a") a-IsIndexed

modify-Modifies_example :
    Returns
      (kvs_hash_modify (to (codes "a")) (to (codes "2")) sample)
      (Modifies sample (codes "a") (codes "2"))
modify-Modifies_example =
    modify-Modifies sample-IsValid (codes "a") a-IsIndexed (codes "2") sample-memory

serve_example :
    Returns
      (kvstore_request (codes "HSET b 2") sample)
      (Serves sample (hset (codes "b") (codes "2")))
unfolding join
serve_example = serve sample-IsValid sample-memory (hset (codes "b") (codes "2")) (
  ((λ e. cc), omega arith),
  (ascii-IsIndexed (codes "b") (omega arith)).0,
  ((λ e. cc), omega arith),
)
