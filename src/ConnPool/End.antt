-- ===== src/ConnPool/End.antt =====
-- utils/memory.h, `~Conn_pool`, and connect_info.h, `~ConnectionInfo`, which the pool calls for every
-- block, used or not. What the bytes of a block read as is the environment's.
use kvstore_epoll.Prelude.{
  ap, ◌∙◌, ℕ, zero, suc, ◌+◌, ◌<◌, ◌≡◌, ◌≢◌, Bool-cases, refl, inl, inr, List, [], ◌∷◌, Bool, true,
  if◌then◌else◌, ◌*◌, ◌++◌, sym, ltb, out_of_bounds, Run, ok, fault, wild_pointer, ◌>>=◌, ℤ,
  is_negative, pos_part, arith,
}
use kvstore_epoll.ConnPool.Blocks.{Pool}

-- `_request`: null, an object that the connection owns, or bytes that are no pointer to one.
pub data Pointer : Type 0 where
  unset owned stray : Pointer

-- `_fd` and `_request`, as they stand in a block.
pub record Residue : Type 0 where
  pub fd : ℤ
  pub request : Pointer

-- `if (_fd >= 0) close(_fd)`
abbrev pub closed_fd : Residue → List ℕ
closed_fd r = if is_negative r.fd then [] else pos_part r.fd ∷ []

-- `~ConnectionInfo`: the descriptor that it closes.
unfoldable pub end_connection : Residue → Run (List ℕ)
end_connection r = elim r.request [
  | unset ↦ ok (closed_fd r)
  | owned ↦ ok (closed_fd r)
  | stray ↦ fault wild_pointer
]

-- `for (i = first; i < first + count; ++i)`: the descriptors in the order in which they are closed. An
-- object that does not end inside the memory of the pool is read behind its end.
unfoldable pub end_blocks : ℕ → Pool → (ℕ → Residue) → ℕ → ℕ → Run (List ℕ)
unfolding end_connection
end_blocks object_size p contents first zero = ok []
end_blocks object_size p contents first (suc count) = do
  closed ←
      (if ltb (p.total_blocks * p.block_size) (first * p.block_size + object_size)
        then fault out_of_bounds
        else end_connection (contents first))
  rest ← end_blocks object_size p contents (first + 1) count
  ok (closed ++ rest)

-- `~Conn_pool`; `granted` is whether `malloc` gave the memory.
unfoldable pub end_conn_pool : ℕ → Bool → (ℕ → Residue) → Pool → Run (List ℕ)
unfolding end_blocks
end_conn_pool object_size granted contents p =
    if granted then end_blocks object_size p contents 0 p.total_blocks else ok []

module _ (object_size : ℕ) (p : Pool) (large : p.block_size < object_size) (contents : ℕ → Residue)
    (sound : (k : ℕ) → (contents k).request ≢ stray) where
  end_connection_lem : (k : ℕ) → end_connection (contents k) ≡ ok (closed_fd (contents k))
  unfolding end_connection
  end_connection_lem k = ground (arith, sound k)

  last_outside :
      (first : ℕ)
      → first + 1 ≡ p.total_blocks
      → ltb (p.total_blocks * p.block_size) (first * p.block_size + object_size) ≡ true
  last_outside first e =
      let size : p.total_blocks * p.block_size ≡ first * p.block_size + p.block_size =
        rw (sym e) (omega arith) in
      ground (arith, size)

  end_blocks-outside :
      (count first : ℕ)
      → first + suc count ≡ p.total_blocks
      → end_blocks object_size p contents first (suc count) ≡ fault out_of_bounds
  unfolding end_blocks
  end_blocks-outside zero first e = rw (last_outside first (omega (arith, e))) refl
  end_blocks-outside (suc count) first e =
      elim (Bool-cases (ltb (p.total_blocks * p.block_size) (first * p.block_size + object_size))) [
        | inl outside ↦ rw outside refl
        | inr inside ↦
            let rest = end_blocks-outside count (first + 1) (omega (arith, e)) in
            rw (inside, end_connection_lem first, ◌>>=◌, rest) refl
      ]

  -- With objects larger than the blocks, `~Conn_pool` of a pool that has its memory and a block reads
  -- behind the end of that memory, where no block holds a stray pointer to a request.
  pub end_conn_pool-outside :
      (n : ℕ)
      → p.total_blocks ≡ suc n
      → end_conn_pool object_size true contents p ≡ fault out_of_bounds
  unfolding end_conn_pool
  end_conn_pool-outside n e =
      ap (end_blocks object_size p contents 0) e ∙ end_blocks-outside n 0 (omega (arith, e))
