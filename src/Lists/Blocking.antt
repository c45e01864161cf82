-- ===== src/Lists/Blocking.antt =====
-- BLPOP: `handle_blpop`, and `handle_endblpop`, which the event loop calls for each client; with
-- `hasValue` of src/utils.c on lists.
use codecrafters_redis_c.Base.{
  ℕ, ◌-◌, ℤ, pos, eqb_ℤ, leb_ℤ, Bytes, codes, Option, none, some, Bool, true, false, not, ◌&&◌,
  length, ltb, if◌then◌else◌,
}
use codecrafters_redis_c.Outcome.{Outcome, done, undefined}
use codecrafters_redis_c.Libc.Doubles.{Doubles, double_eq}
use codecrafters_redis_c.Resp.Request.{Request}
use codecrafters_redis_c.Keyspace.{ArrayList, Value, list}
use codecrafters_redis_c.Keyspace.Store.{store_get_entry, store_put_value}
use codecrafters_redis_c.Server.{Client, Address}
use codecrafters_redis_c.Server.Exec.{
  Exec, ◌>>=◌, ◌>>◌, pure, lift, send, formatted, get_current_time_ms, from_table, to_table, load,
  store, arg,
}
use codecrafters_redis_c.Lists.Array.{read_cell}
use codecrafters_redis_c.Lists.Commands.{as_list, entry_value, is_null, pair_reply, drop_first}

-- The immediate pop of BLPOP.
unfoldable pub blpop_now : Bytes → ArrayList → ℤ → Exec (Unit {0})
unfolding read_cell drop_first
blpop_now key l fd = do
  v ← lift (read_cell l.values 0)
  send fd (formatted 1024 (pair_reply key v))
  l' ← lift (drop_first l)
  to_table (store_put_value key (list l'))

module _ (doubles : Doubles) where
  open doubles use {atof, milliseconds_later}

  -- The client is made to wait; it waits for ever if the last argument is zero.
  unfoldable pub blpop_wait : Request → Bytes → Address → Exec (Unit {0})
  blpop_wait req key p = do
    text ← arg req (length req.args - 1)
    let sec = atof text
    before ←
        (if double_eq sec 0
          then pure (pos 0)
          else (do now ← get_current_time_ms; pure (milliseconds_later now sec)))
    now ← get_current_time_ms
    c ← load p
    store p (record c {
      timeout_at = before;
      is_blpop = true;
      is_blocked = true;
      blocked_at = pos now;
      waiting_for_key = some key;
    })

  unfoldable pub handle_blpop : Request → Address → Exec (Unit {0})
  unfolding blpop_wait blpop_now entry_value as_list
  handle_blpop req p = if ltb (length req.args) 2 then pure tt else (do
    key ← arg req 0
    entry ← from_table (store_get_entry key)
    if is_null (entry_value entry) then blpop_wait req key p else (do
      l ← lift (as_list (entry_value entry))
      if ltb 0 l.size then (do c ← load p; blpop_now key l c.fd) else blpop_wait req key p))

-- hasValue(TYPE_LIST, key)
unfoldable pub has_list_value : Value → Outcome Bool
unfolding as_list
has_list_value value =
    if is_null value
    then done false
    else elim (as_list value) [ done l ↦ done (ltb 0 l.size) | undefined ↦ undefined ]

-- The reply to a client whose BLPOP timed out: the first element, which stays in the list, or nil.
unfoldable pub endblpop_reply : Bytes → Value → Outcome Bytes
unfolding has_list_value
endblpop_reply key value = elim (has_list_value value) [
  | undefined ↦ undefined
  | done false ↦ done (codes "*-1\r\n")
  | done true ↦ elim (as_list value) [
    | undefined ↦ undefined
    | done l ↦ elim (read_cell l.values 0) [
      | undefined ↦ undefined
      | done v ↦ done (formatted 1024 (pair_reply key v))
    ]
  ]
]

-- A client that waits in BLPOP with a time limit that has passed.
unfoldable pub blpop_expired : Client → ℕ → Bool
blpop_expired c now =
    c.is_blpop && (not (eqb_ℤ c.timeout_at (pos 0)) && leb_ℤ c.timeout_at (pos now))

unfoldable pub handle_endblpop : Option Address → Exec (Unit {0})
unfolding entry_value endblpop_reply
handle_endblpop none = do now ← get_current_time_ms; pure tt
handle_endblpop (some p) = do
  now ← get_current_time_ms
  c ← load p
  if blpop_expired c now
      then (do
        key ← lift (elim c.waiting_for_key [ none ↦ undefined | some k ↦ done k ])
        entry ← from_table (store_get_entry key)
        reply ← lift (endblpop_reply key (entry_value entry))
        send c.fd reply
        store p (record c { is_blocked = false; is_blpop = false; waiting_for_key = none }))
      else pure tt
