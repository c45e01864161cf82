-- ===== src/Config/Commands.antt =====
-- `handle_config`, `handle_key` of src/rdb_handler.c and `write_to_file` of src/handler.c.
use codecrafters_redis_c.Base.{
  ℕ, zero, suc, ◌+◌, ℤ, Bytes, codes, crlf, str_eq, List, [], ◌∷◌, ◌++◌, map, Option, none, some,
  Bool, not, length, drop, take, ltb, if◌then◌else◌,
}
use codecrafters_redis_c.Outcome
use codecrafters_redis_c.Outcome.{Outcome, done, undefined}
use codecrafters_redis_c.Libc.{
  print_nat, bulk, upper, empty_buffer, print_all, sent_bytes, concat, skip_space,
}
use codecrafters_redis_c.Libc.Scan.{contains, starts_with, until_space}
use codecrafters_redis_c.Resp.Request.{Request}
use codecrafters_redis_c.Resp.Encode.{encoded_parts}
use codecrafters_redis_c.Keyspace.{Chain, nil, wild, node, Table}
use codecrafters_redis_c.Keyspace.Hash.{table_size}
use codecrafters_redis_c.Server.{RedisConfig}
use codecrafters_redis_c.Server.Exec.{
  Exec, ◌>>=◌, pure, lift, gets, send, formatted, from_table, arg,
}

-- An array of a name and a value.
abbrev pub config_pair : Bytes → Bytes → Bytes
config_pair name value = codes "*2\r\n" ++ (bulk name ++ bulk value)

-- The reply for the name in upper case, if the function knows it.
unfoldable pub config_reply : Bytes → RedisConfig → Option Bytes
config_reply name config =
    if str_eq name (codes "DIR")
    then some (formatted 2048 (config_pair (codes "dir") config.rdb_directory))
    else if str_eq name (codes "DBFILENAME")
    then some (formatted 2048 (config_pair (codes "dir") config.rdb_name))
    else if str_eq name (codes "APPENDONLY")
    then some (formatted 1024 (config_pair (codes "appendonly") config.append_only))
    else if str_eq name (codes "APPENDDIRNAME")
    then some (formatted 2048 (config_pair (codes "appenddirname") config.appenddirname))
    else if str_eq name (codes "APPENDFILENAME")
    then some (formatted 1024 (config_pair (codes "appendfilename") config.appendfilename))
    else if str_eq name (codes "APPENDFSYNC")
    then some (formatted 1024 (config_pair (codes "appendfsync") config.appendfsync))
    else none

-- The request has the command CONFIG GET where `handle` calls the function.
unfoldable pub handle_config : Request → ℤ → Exec (Unit {0})
unfolding config_reply upper
handle_config req client_fd = if ltb 2 (length req.args) then pure tt else (do
  name ← arg req 0
  config ← gets (λ s. s.config)
  elim (config_reply (upper name) config) [ none ↦ pure tt | some text ↦ send client_fd text ])

unfoldable pub chain_keys : Chain → Outcome (List Bytes)
chain_keys nil = done []
chain_keys wild = undefined
chain_keys (node e next) = elim (chain_keys next) [
  | undefined ↦ undefined
  | done keys ↦ done (e.key ∷ keys)
]

-- The keys of `n` buckets from index `i` on.
unfoldable pub keys_from : ℕ → ℕ → Table → Outcome (List Bytes)
unfolding chain_keys
keys_from zero i table = done []
keys_from (suc n) i table = elim (chain_keys (table i)) [
  | undefined ↦ undefined
  | done keys ↦ elim (keys_from n (i + 1) table) [
    | undefined ↦ undefined
    | done rest ↦ done (keys ++ rest)
  ]
]

-- The reply for the first 256 keys.
unfoldable pub keys_reply : List Bytes → Outcome Bytes
keys_reply keys =
    Outcome.◌>>=◌
      (print_all 8192 ((b'*' ∷ (print_nat (length keys) ++ crlf)) ∷ map bulk keys) empty_buffer)
      (sent_bytes 8192)

unfoldable pub handle_key : ℤ → Exec (Unit {0})
unfolding keys_from keys_reply
handle_key client_fd = do
  keys ← from_table (keys_from table_size 0)
  reply ← lift (keys_reply (take 256 keys))
  send client_fd reply

-- The file system: the lines of the manifest, if it can be opened, and whether the append-only file
-- can be.
pub record Files : Type 0 where
  pub manifest : Option (List Bytes)
  pub aof_opens : Bool

-- sscanf(line, "file %s seq", name), where `name` has 256 bytes.
unfoldable pub file_name : Bytes → Outcome (Option Bytes)
unfolding until_space skip_space
file_name line =
    let word = until_space (length line) (skip_space (drop 4 line)) in
    if not (starts_with (codes "file") line) then done none else elim word [
      | [] ↦ done none
      | c ∷ rest ↦ if ltb (length (c ∷ rest)) 256 then done (some (c ∷ rest)) else undefined
    ]

unfoldable pub active_aof_name : List Bytes → Outcome (Option Bytes)
unfolding file_name contains
active_aof_name [] = done none
active_aof_name (line ∷ lines) =
    let rest = active_aof_name lines in
    if contains line (codes "type i")
    then (Outcome.◌>>=◌ (file_name line) λ name. elim name [ none ↦ rest | some n ↦ done (some n) ])
    else rest

abbrev pub named_file : Option Bytes → RedisConfig → RedisConfig
named_file none config = config
named_file (some name) config = record config { appendfilename = name }

module _ (files : Files) where
  unfoldable pub write_to_file : Request → Exec (Unit {0})
  unfolding active_aof_name encoded_parts upper
  write_to_file req s =
      if not (str_eq (upper s.config.append_only) (codes "YES"))
      then done (tt, s)
      else elim files.manifest [
        | none ↦ undefined
        | some lines ↦ elim (active_aof_name lines) [
          | undefined ↦ undefined
          | done name ↦ done (
            tt,
            record s {
              config = named_file name s.config;
              aof = if files.aof_opens then s.aof ++ concat (encoded_parts req) ∷ [] else s.aof;
            },
          )
        ]
      ]
