-- ===== src/Kvstore/Restart.antt =====
-- The engine that is stopped and started again.
use kvstore_epoll.Prelude.{refl, ℕ, ◌≡◌, ◌<◌, Bytes, ◌>>=◌, Returns, true}
use kvstore_epoll.Memory.{NeverFails}
use kvstore_epoll.Hash.Table.{Engine, max_table_size}
use kvstore_epoll.Hash.View.{view, IsValid}
use kvstore_epoll.Hash.Destroy.{init-IsValid, init-memory, dest-leaks}
use kvstore_epoll.Hash.Disk.{Disk}
use kvstore_epoll.Hash.Disk.RoundTrip.{AllStorable, load-save}
use kvstore_epoll.Hash.Disk.Ascii.{IsLive, AsciiFile, load_from_disk-IsLive}
use kvstore_epoll.Kvstore.Protocol.{init_kvengine, exit_kvengine}

-- What a process finds at its start: memory at hand, a fresh array that reads as null, and no block
-- in use.
pub record IsStart (e : Engine) : Type 0 where
  pub memory : NeverFails e.heap
  pub cleared : (i : ℕ) → i < max_table_size → e.heap.cleared e.heap.calls i ≡ true
  pub balanced : e.heap.allocated ≡ e.heap.freed

module _ {e start : Engine} (d : Disk) (valid : IsValid e) (storable : AllStorable e)
    (s : IsStart start) (w : d.writable ≡ true) (r : d.readable ≡ true) where
  -- The next process finds the same map, and memory at hand.
  pub restarted : Returns (exit_kvengine e d) λ stopped.
      Returns
        (init_kvengine start stopped.0)
        λ e'. IsValid e' × ((key : Bytes) → view e'.hash key ≡ view e.hash key) × NeverFails e'.heap
  unfolding exit_kvengine init_kvengine
  restarted =
      let (code, valid_f, empty) = init-IsValid start (s.memory _ _) s.cleared s.balanced in
      let ((c, d'), saved, (z, ((c', e'), loaded, (z', valid', map, memory)))) =
        load-save d valid storable valid_f (init-memory start s.memory) empty w r in
      let (h, freed, leak) = dest-leaks valid in
      ((d', h), rw (saved, ◌>>=◌, freed), (e', rw loaded, (valid', map, memory)))

-- Where the data file opens for writing and for reading, a valid table of storable pairs that is
-- written by `exit_kvengine` is read back by the `init_kvengine` of the next process, which has
-- memory at hand and a fresh array of null pointers, as a valid table that is the same map.
pub restart :
    {e start : Engine} (d : Disk)
    → IsValid e
    → AllStorable e
    → IsStart start
    → d.writable ≡ true
    → d.readable ≡ true
    → Returns (exit_kvengine e d) λ stopped.
      Returns
        (init_kvengine start stopped.0)
        λ e'. IsValid e' × ((key : Bytes) → view e'.hash key ≡ view e.hash key)
restart d valid storable s w r =
    let (stopped, left, (e', back, (valid', map, memory))) = restarted d valid storable s w r in
    (stopped, left, (e', back, (valid', map)))

-- A process that has memory at hand and a fresh array of null pointers starts, whatever ASCII bytes
-- the data file holds, and whether or not there is a file and it opens: `init_kvengine` leaves a valid
-- table, with memory still at hand.
pub init_kvengine-IsLive :
    (start : Engine) (d : Disk)
    → IsStart start
    → AsciiFile d
    → Returns (init_kvengine start d) IsLive
unfolding init_kvengine
init_kvengine-IsLive start d s ascii =
    let (code, valid, empty) = init-IsValid start (s.memory _ _) s.cleared s.balanced in
    let (r, run, live) = load_from_disk-IsLive _ d ascii (valid, init-memory start s.memory) in
    (r.1, rw run refl, live)
