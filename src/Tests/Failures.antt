-- ===== src/Tests/Failures.antt =====
-- Requests and keys that end in a fault.
use kvstore_epoll.Prelude.{
  ◌≡◌, ◌≢◌, ◌<◌, refl, none, [], ◌∷◌, Bytes, codes, false, arith, All, All-map, ap, length, fault,
  out_of_bounds, ◌==◌,
}
use kvstore_epoll.Memory.{kvstore_malloc, to}
use kvstore_epoll.Hash.Table.{Engine, init_hashtable, node_size}
use kvstore_epoll.Hash.Ops.{put_kv_hashtable, get_kv_hashtable, delete_kv_hashtable}
use kvstore_epoll.Hash.Destroy.{init-IsValid}
use kvstore_epoll.Hash.View.{view, IsValid}
use kvstore_epoll.Kvstore.Protocol.{commands}
use kvstore_epoll.Kvstore.Errors.{high_key}
use kvstore_epoll.Tests.Sample.{start, start_heap, empty, empty-IsValid}

no_such_command : All (λ c. c ≢ codes "FLUSHALL") commands
no_such_command =
    All-map (λ c. length c < 7) (λ c. c ≢ codes "FLUSHALL") commands longer (omega arith)
  where
    longer : (c : Bytes) → length c < 7 → c ≢ codes "FLUSHALL"
    longer c short e = omega (arith, ap length e)

-- The UTF-8 bytes of one Chinese character.
abbrev chinese : Bytes
chinese = 0xe4 ∷ 0xb8 ∷ 0xad ∷ []

high_key_example :
    (put_kv_hashtable (to chinese) (to (codes "1")) empty ≡ fault out_of_bounds)
    × (get_kv_hashtable (to chinese) empty ≡ fault out_of_bounds)
    × (delete_kv_hashtable (to chinese) empty ≡ fault out_of_bounds)
high_key_example =
    high_key empty-IsValid 0xe4 (0xb8 ∷ 0xad ∷ []) (codes "1") (omega arith) (omega arith)

-- Memory for the first request alone.
abbrev scarce : Engine
scarce = record start { heap = record start_heap { grants = λ call size. call == 0 } }

abbrev scarce_empty : Engine
scarce_empty = (init_hashtable scarce).1

scarce_empty-IsValid : IsValid scarce_empty
scarce_empty-IsValid = (init-IsValid scarce refl (λ i h. refl) refl).1

scarce_empty-view : (key : Bytes) → view scarce_empty.hash key ≡ none
scarce_empty-view = (init-IsValid scarce refl (λ i h. refl) refl).2

scarce_empty-refuses : scarce_empty.heap.grants scarce_empty.heap.calls node_size ≡ false
unfolding init_hashtable kvstore_malloc
scarce_empty-refuses = refl
