-- ===== src/Kvstore/Protocol.antt =====
-- kv_core/kvstore.cpp: `kvstore_parser_protocol`, `kvstore_request`, `init_kvengine` and
-- `exit_kvengine`. The array `tokens` is not initialised: its cells behind the last token are wild
-- pointers. The buffers `msg`, `tokens` and `wmsg` are never null at the call in `kvstore_request`.
use kvstore_epoll.Prelude.{
  ℕ, zero, suc, ◌+◌, ◌-◌, Option, none, some, List, [], ◌∷◌, Bytes, codes, strcmp_eq, take,
  get_elem?, if◌then◌else◌, ◌==◌, Run, ok, fault, out_of_bounds, ◌>>=◌, ℤ, negsuc, pos_part,
  is_negative, is_zero,
}
use kvstore_epoll.Memory.{Heap, Ptr, to, wild}
use kvstore_epoll.Hash.Table.{Engine}
use kvstore_epoll.Hash.Ops.{
  kvstore_hash_create, kvstore_hash_destory, kvs_hash_set, kvs_hash_get, kvs_hash_delete,
  kvs_hash_modify, kvs_hash_count,
}
use kvstore_epoll.Hash.Disk.{Disk, buffer_length, load_from_disk, save_to_disk}
use kvstore_epoll.Kvstore.Split.{kvstore_split_token}
use kvstore_epoll.Kvstore.Decimal.{print_decimal}

-- The calls on the global `Hash`.
abbrev pub kvstore_hash_set : Ptr → Ptr → Engine → Run (ℤ × Engine)
kvstore_hash_set = kvs_hash_set

abbrev pub kvstore_hash_get : Ptr → Engine → Run (Option Bytes)
kvstore_hash_get = kvs_hash_get

abbrev pub kvstore_hash_delete : Ptr → Engine → Run (ℤ × Engine)
kvstore_hash_delete = kvs_hash_delete

abbrev pub kvstore_hash_modify : Ptr → Ptr → Engine → Run (ℤ × Engine)
kvstore_hash_modify = kvs_hash_modify

abbrev pub kvstore_hash_count : Engine → ℤ
kvstore_hash_count = kvs_hash_count

abbrev pub commands : List Bytes
commands =
    codes "SET"
    ∷ codes "GET"
    ∷ codes "DEL"
    ∷ codes "MOD"
    ∷ codes "COUNT"
    ∷ codes "RSET"
    ∷ codes "RGET"
    ∷ codes "RDEL"
    ∷ codes "RMOD"
    ∷ codes "RCOUNT"
    ∷ codes "HSET"
    ∷ codes "HGET"
    ∷ codes "HDEL"
    ∷ codes "HMOD"
    ∷ codes "HCOUNT"
    ∷ []

-- `for (cmd = KVS_CMD_START; cmd < KVS_CMD_SIZE; cmd++)`: the index of the command, or KVS_CMD_SIZE
unfoldable pub command_from : ℕ → List Bytes → Bytes → ℕ
command_from cmd [] token = cmd
command_from cmd (c ∷ cs) token = if strcmp_eq c token then cmd else command_from (cmd + 1) cs token

-- `tokens[i]`
unfoldable pub token_at : List Bytes → ℕ → Ptr
token_at [] i = wild
token_at (t ∷ ts) zero = to t
token_at (t ∷ ts) (suc i) = token_at ts i

-- `snprintf(wmsg, BUFFER_LENGTH, "%s", text)` into a cleared buffer
unfoldable pub format : Bytes → Bytes
format text = take (buffer_length - 1) text

-- The answer of the branches that look at the sign of `res`.
unfoldable pub status : Bytes → ℤ → Bytes
status positive res =
    if is_negative res then codes "ERROR" else if is_zero res then codes "SUCCESS" else positive

-- What a call leaves: the value that it returns, if it reaches a `return`, and the text in `wmsg`,
-- if it wrote one.
pub record Reply : Type 0 where
  pub code : Option ℤ
  pub wmsg : Option Bytes

-- After the `switch` the function ends without a `return`.
abbrev pub written_reply : Bytes → Reply
written_reply text = record { code = none; wmsg = some text }

-- `KVS_CMD_HSET` to `KVS_CMD_HCOUNT`
abbrev pub cmd_hset : ℕ
cmd_hset = 10

abbrev pub cmd_hget : ℕ
cmd_hget = 11

abbrev pub cmd_hdel : ℕ
cmd_hdel = 12

abbrev pub cmd_hmod : ℕ
cmd_hmod = 13

abbrev pub cmd_hcount : ℕ
cmd_hcount = 14

unfoldable pub answer_hset : Ptr → Ptr → Engine → Run (Reply × Engine)
answer_hset key value e = do
  (res, e') ← kvstore_hash_set key value e
  ok (written_reply (status (codes "EXISTS") res), e')

unfoldable pub answer_hget : Ptr → Engine → Run (Reply × Engine)
answer_hget key e = do
  val ← kvstore_hash_get key e
  ok (written_reply (elim val [ some v ↦ format v | none ↦ codes "NO EXIST" ]), e)

unfoldable pub answer_hdel : Ptr → Engine → Run (Reply × Engine)
answer_hdel key e = do
  (res, e') ← kvstore_hash_delete key e
  ok (written_reply (status (codes "NO EXIST") res), e')

unfoldable pub answer_hmod : Ptr → Ptr → Engine → Run (Reply × Engine)
answer_hmod key value e = do
  (res, e') ← kvstore_hash_modify key value e
  ok (written_reply (status (codes "NO EXIST") res), e')

unfoldable pub answer_hcount : Engine → Run (Reply × Engine)
answer_hcount e =
    let count = kvstore_hash_count e in
    ok (
      written_reply (if is_negative count then codes "ERROR" else print_decimal (pos_part count)),
      e,
    )

-- `printf("cmd: %s\n", commands[cmd])`, which reads the table of names at `cmd`
unfoldable pub answer_default : ℕ → Engine → Run (Reply × Engine)
answer_default cmd e = elim (get_elem? commands cmd) [
  | none ↦ fault out_of_bounds
  | some name ↦ ok (written_reply (codes "ERROR"), e)
]

-- `switch (cmd)`
unfoldable pub answer : ℕ → Ptr → Ptr → Engine → Run (Reply × Engine)
unfolding answer_hset answer_hget answer_hdel answer_hmod answer_hcount answer_default
answer cmd key value e =
    if cmd == cmd_hset
    then answer_hset key value e
    else if cmd == cmd_hget
    then answer_hget key e
    else if cmd == cmd_hdel
    then answer_hdel key e
    else if cmd == cmd_hmod
    then answer_hmod key value e
    else if cmd == cmd_hcount
    then answer_hcount e
    else answer_default cmd e

unfoldable pub kvstore_parser_protocol : List Bytes → Engine → Run (Reply × Engine)
kvstore_parser_protocol [] e = ok (record { code = some (negsuc 0); wmsg = none }, e)
kvstore_parser_protocol (token ∷ tokens) e =
    answer (command_from 0 commands token) (token_at tokens 0) (token_at tokens 1) e

-- What `kvstore_request` leaves in `wmsg`; it returns 0 whatever the parser does.
unfoldable pub kvstore_request : Bytes → Engine → Run (Option Bytes × Engine)
kvstore_request rmsg e = do
  tokens ← kvstore_split_token rmsg
  (reply, e') ← kvstore_parser_protocol tokens e
  ok (reply.wmsg, e')

-- The results of both calls are ignored.
unfoldable pub init_kvengine : Engine → Disk → Run Engine
init_kvengine e d = do
  let (created, e') = kvstore_hash_create e
  (loaded, e'') ← load_from_disk e' d
  ok e''

unfoldable pub exit_kvengine : Engine → Disk → Run (Disk × Heap)
exit_kvengine e d = do (saved, d') ← save_to_disk e d; h ← kvstore_hash_destory e; ok (d', h)
