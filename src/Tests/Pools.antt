-- ===== src/Tests/Pools.antt =====
-- The pool of connection objects.
use kvstore_epoll.Prelude.{◌≡◌, true, ok, arith}
use kvstore_epoll.ConnPool.Blocks.{null, at_, Pool, conn_pool, acquire}
use kvstore_epoll.ConnPool.Limits.{Overlap, two_objects}

-- The pool of the server, with objects of 2104 bytes.
two_objects_example :
    (p : Pool) × (q : Pool) × (acquire 2104 (conn_pool 10240 1024 true) ≡ ok (at_ 0, p))
    × (acquire 2104 p ≡ ok (at_ 1, q))
    × (acquire 2104 q ≡ ok (null, q))
    × Overlap 2104 1024 0 1
two_objects_example = two_objects 10240 1024 2104 (omega arith) (omega arith) (omega arith)
