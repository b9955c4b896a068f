-- ===== src/Kvstore/Session.antt =====
-- Requests one after another, against a map and its size.
use kvstore_epoll.Prelude.{
  ℕ, ◌≡◌, refl, Option, some, List, [], ◌∷◌, Bytes, All, Run, ok, ◌>>=◌, Returns, map, fun_ext,
}
use kvstore_epoll.Memory.{NeverFails}
use kvstore_epoll.Hash.Table.{Engine}
use kvstore_epoll.Hash.View.{view, IsValid}
use kvstore_epoll.Kvstore.Words.{join}
use kvstore_epoll.Kvstore.Protocol.{kvstore_request}
use kvstore_epoll.Kvstore.Commands.{
  Command, IsCommand, words, spec_reply, spec_map, spec_size, size,
}
use kvstore_epoll.Kvstore.Refine.{serve}

-- The requests that the tasks hand to `kvstore_request` in turn, and what is written for each.
unfoldable pub serve_all : List Bytes → Engine → Run (List (Option Bytes) × Engine)
serve_all [] e = ok ([], e)
serve_all (msg ∷ msgs) e = do
  (reply, e1) ← kvstore_request msg e
  (replies, e2) ← serve_all msgs e1
  ok (reply ∷ replies, e2)

-- The replies, the map and its size that the specification gives for a list of commands.
abbrev pub spec_replies : (Bytes → Option Bytes) → ℕ → List Command → List (Option Bytes)
spec_replies m n [] = []
spec_replies m n (c ∷ cs) =
    some (spec_reply m n c) ∷ spec_replies (spec_map m c) (spec_size m n c) cs

abbrev pub spec_maps : (Bytes → Option Bytes) → List Command → Bytes → Option Bytes
spec_maps m [] = m
spec_maps m (c ∷ cs) = spec_maps (spec_map m c) cs

abbrev pub spec_sizes : (Bytes → Option Bytes) → ℕ → List Command → ℕ
spec_sizes m n [] = n
spec_sizes m n (c ∷ cs) = spec_sizes (spec_map m c) (spec_size m n c) cs

abbrev pub text_of : Command → Bytes
text_of c = join (words c)

-- What a session has done when it returns `r`.
pub record ServesAll (e : Engine) (cs : List Command) (r : List (Option Bytes) × Engine)
    : Type 0 where
  pub valid : IsValid r.1
  pub replies : r.0 ≡ spec_replies (view e.hash) (size e) cs
  pub map : view r.1.hash ≡ spec_maps (view e.hash) cs
  pub count : size r.1 ≡ spec_sizes (view e.hash) (size e) cs
  pub memory : NeverFails r.1.heap

-- Any list of commands whose keys and values are words without spaces, and whose keys have an index
-- of the array, sent one after another to a valid table with memory at hand, is answered, each
-- command, with the text that the specification gives for it after the commands before it; the
-- final map and its number of pairs are those of the specification, and the table is still valid.
pub session :
    (cs : List Command) {e : Engine}
    → All IsCommand cs
    → IsValid e
    → NeverFails e.heap
    → Returns (serve_all (map text_of cs) e) (ServesAll e cs)
unfolding serve_all
session [] {e} h valid memory = (
  ([], e),
  refl,
  record { valid = valid; replies = refl; map = refl; count = refl; memory = memory },
)
session (c ∷ cs) {e} h valid memory =
    let ((reply, e1), run, p) = serve valid memory c h.0 in
    let ((replies, e2), runs, q) = session cs h.1 p.valid p.memory in
    let map : view e1.hash ≡ spec_map (view e.hash) c = fun_ext p.map in
    (
      (reply ∷ replies, e2),
      rw (run, runs) refl,
      record {
        valid = q.valid;
        replies = rw (p.reply, q.replies, map, p.count) refl;
        map = rw (q.map, map) refl;
        count = rw (q.count, map, p.count) refl;
        memory = q.memory;
      },
    )
