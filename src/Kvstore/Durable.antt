-- ===== src/Kvstore/Durable.antt =====
-- Two processes one after the other, against one session.
use kvstore_epoll.Prelude.{
  ℕ, ◌≡◌, refl, sym, ap, ◌∙◌, Option, some, List, [], ◌∷◌, ◌++◌, Bytes, All, Run, ok, ◌>>=◌,
  Returns, map, fun_ext, true, arith, strcmp_eq_iff,
}
use kvstore_epoll.Memory.{NeverFails}
use kvstore_epoll.Hash.Table.{Engine}
use kvstore_epoll.Hash.View.{view, IsValid}
use kvstore_epoll.Hash.Same.{total-view, All-view}
use kvstore_epoll.Hash.Disk.{Disk}
use kvstore_epoll.Hash.Disk.Loaded.{IsStorable}
use kvstore_epoll.Kvstore.Protocol.{init_kvengine, exit_kvengine}
use kvstore_epoll.Kvstore.Commands.{
  Command, hset, hget, hdel, hmod, hcount, IsCommand, spec_map, spec_reply, spec_size, size,
}
use kvstore_epoll.Kvstore.Restart.{IsStart, restarted}
use kvstore_epoll.Kvstore.Session.{serve_all, spec_replies, spec_maps, spec_sizes, text_of, session}

-- The pairs of a map, and the pairs that a command brings, are such that the file keeps them.
abbrev pub MapStorable : (Bytes → Option Bytes) → Type 0
MapStorable m = (k v : Bytes) → m k ≡ some v → IsStorable (record { key = k; value = v })

abbrev pub CommandStorable : Command → Type 0
CommandStorable (hset k v) = IsStorable (record { key = k; value = v })
CommandStorable (hget k) = Unit
CommandStorable (hdel k) = Unit
CommandStorable (hmod k v) = IsStorable (record { key = k; value = v })
CommandStorable hcount = Unit

IsStorable-eq :
    (k v j u : Bytes)
    → IsStorable (record { key = k; value = v })
    → k ≡ j
    → v ≡ u
    → IsStorable (record { key = j; value = u })
IsStorable-eq k v j u h e f = rw (sym e, sym f) h

pub spec_map-MapStorable :
    (m : Bytes → Option Bytes) (c : Command)
    → MapStorable m
    → CommandStorable c
    → MapStorable (spec_map m c)
spec_map-MapStorable m (hset k v) h s j u e =
    ground (arith, h j u, IsStorable-eq k v j u s, strcmp_eq_iff k j, e)
spec_map-MapStorable m (hget k) h s j u e = h j u e
spec_map-MapStorable m (hdel k) h s j u e = ground (arith, h j u, e)
spec_map-MapStorable m (hmod k v) h s j u e =
    ground (arith, h j u, IsStorable-eq k v j u s, strcmp_eq_iff k j, e)
spec_map-MapStorable m hcount h s j u e = h j u e

spec_maps-MapStorable :
    (m : Bytes → Option Bytes) (cs : List Command)
    → MapStorable m
    → All CommandStorable cs
    → MapStorable (spec_maps m cs)
spec_maps-MapStorable m [] h s = h
spec_maps-MapStorable m (c ∷ cs) h s =
    spec_maps-MapStorable (spec_map m c) cs (spec_map-MapStorable m c h s.0) s.1

spec_replies-append :
    (m : Bytes → Option Bytes) (n : ℕ) (cs ds : List Command)
    → spec_replies m n (cs ++ ds)
      ≡ spec_replies m n cs ++ spec_replies (spec_maps m cs) (spec_sizes m n cs) ds
spec_replies-append m n [] ds = refl
spec_replies-append m n (c ∷ cs) ds =
    ap (λ t. some (spec_reply m n c) ∷ t)
      (spec_replies-append (spec_map m c) (spec_size m n c) cs ds)

spec_maps-append :
    (m : Bytes → Option Bytes) (cs ds : List Command)
    → spec_maps m (cs ++ ds) ≡ spec_maps (spec_maps m cs) ds
spec_maps-append m [] ds = refl
spec_maps-append m (c ∷ cs) ds = spec_maps-append (spec_map m c) cs ds

-- A process that serves some requests and ends, and the next one, which serves some more.
unfoldable pub two_processes :
    List Bytes → List Bytes → Engine → Engine → Disk → Run (List (Option Bytes) × Engine)
two_processes first second e start d = do
  (replies, e1) ← serve_all first e
  (d', h) ← exit_kvengine e1 d
  e2 ← init_kvengine start d'
  (more, e3) ← serve_all second e2
  ok (replies ++ more, e3)

-- A process with a valid table and memory at hand, whose pairs the file format keeps, serves a list of
-- commands whose pairs it keeps too, and ends; the next process, which has memory at hand and a fresh
-- array of null pointers, serves another list. Where the data file opens for writing and for reading,
-- the clients get the answers, and the map is left, that the specification gives for the two lists
-- in one session: the restart between them is not seen.
pub unseen_restart :
    {e start : Engine} (d : Disk) (cs ds : List Command)
    → All IsCommand cs
    → All CommandStorable cs
    → All IsCommand ds
    → IsValid e
    → NeverFails e.heap
    → MapStorable (view e.hash)
    → IsStart start
    → d.writable ≡ true
    → d.readable ≡ true
    → Returns (two_processes (map text_of cs) (map text_of ds) e start d) λ r.
      IsValid r.1
      × (r.0 ≡ spec_replies (view e.hash) (size e) (cs ++ ds))
      × (view r.1.hash ≡ spec_maps (view e.hash) (cs ++ ds))
unfolding two_processes
unseen_restart {e} {start} d cs ds h kept hs valid memory storable s w r =
    let ((replies, e1), run1, p) = session cs h valid memory in
    let kept1 : MapStorable (view e1.hash) =
      rw p.map (spec_maps-MapStorable (view e.hash) cs storable kept) in
    let (stopped, left, (e2, back, (valid2, same, memory2))) =
      restarted d p.valid (All-view IsStorable p.valid kept1) s w r in
    let ((more, e3), run2, q) = session ds hs valid2 memory2 in
    let view2 : view e2.hash ≡ spec_maps (view e.hash) cs = fun_ext same ∙ p.map in
    let size2 : size e2 ≡ spec_sizes (view e.hash) (size e) cs =
      total-view valid2 p.valid same ∙ p.count in
    (
      (replies ++ more, e3),
      rw (run1, left, back, run2) refl,
      (
        q.valid,
        rw (p.replies, q.replies, view2, size2)
            (sym (spec_replies-append (view e.hash) (size e) cs ds)),
        rw (q.map, view2) (sym (spec_maps-append (view e.hash) cs ds)),
      ),
    )
