-- ===== src/Channels/Commands.antt =====
-- SUBSCRIBE, PUBLISH, UNSUBSCRIBE: `handle_subscribe`, `handle_publish`, `handle_unsubscribe`.
use codecrafters_redis_c.Base.{
  ℕ, zero, suc, ◌+◌, ◌-◌, ℤ, Bytes, codes, str_eq, List, [], ◌∷◌, ◌++◌, Option, none, some, Bool,
  true, false, length, ltb, leb, if◌then◌else◌,
}
use codecrafters_redis_c.Outcome
use codecrafters_redis_c.Outcome.{Outcome, done, undefined}
use codecrafters_redis_c.Libc.{bulk}
use codecrafters_redis_c.Resp.Request.{Request}
use codecrafters_redis_c.Server.{Client, Address}
use codecrafters_redis_c.Server.Exec.{
  Exec, ◌>>=◌, ◌>>◌, pure, lift, gets, send, formatted, load, store, arg,
}
use codecrafters_redis_c.Lists.Commands.{number_reply}

-- client->channel_subed, as far as it was written
abbrev pub Channels : Type 0
Channels = List (Option Bytes)

-- The inner loop of SUBSCRIBE over the first `n` cells. `strcmp` of a NULL cell is undefined.
unfoldable pub subscribed_to : Bytes → ℕ → Channels → Outcome Bool
subscribed_to channel zero cells = done false
subscribed_to channel (suc n) [] = undefined
subscribed_to channel (suc n) (none ∷ cells) = undefined
subscribed_to channel (suc n) (some c ∷ cells) =
    if str_eq c channel then done true else subscribed_to channel n cells

-- channel_subed[n] = strdup(channel)
unfoldable pub put_channel : ℕ → Bytes → Channels → Channels
put_channel n channel [] = some channel ∷ []
put_channel zero channel (_ ∷ cells) = some channel ∷ cells
put_channel (suc n) channel (c ∷ cells) = c ∷ put_channel n channel cells

-- "*3\r\n$9\r\nsubscribe\r\n", the channel, and the number of channels
abbrev pub subscribe_text : Bytes → ℕ → Bytes
subscribe_text channel n = codes "*3\r\n$9\r\nsubscribe\r\n" ++ (bulk channel ++ number_reply n)

-- The loop of SUBSCRIBE, up to the first text that does not fit the 1024 bytes.
unfoldable pub subscribe_all : List Bytes → Client → Bytes → Outcome (Client × Bytes)
unfolding subscribed_to put_channel
subscribe_all [] c text = done (c, text)
subscribe_all (channel ∷ channels) c text =
    if leb 64 c.channel_count
    then done (c, text)
    else Outcome.◌>>=◌ (subscribed_to channel c.channel_count c.channel_subed) λ already.
      (let c' : Client = if already then c else record c {
        channel_subed = put_channel c.channel_count channel c.channel_subed;
        channel_count = c.channel_count + 1;
      } in
        let text' = text ++ subscribe_text channel c'.channel_count in
        let rest = subscribe_all channels c' text' in
        if ltb (length text') 1024 then rest else done (c', text))

unfoldable pub handle_subscribe : Request → Address → Exec (Unit {0})
unfolding subscribe_all
handle_subscribe req p = do
  c ← load p
  (c', text) ← lift (subscribe_all req.args (record c { is_subscribed = true }) [])
  store p c'
  send c'.fd text

-- "*3\r\n$7\r\nmessage\r\n", the channel and the message
abbrev pub message_text : Bytes → Bytes → Bytes
message_text channel message = codes "*3\r\n$7\r\nmessage\r\n" ++ (bulk channel ++ bulk message)

-- The loop of PUBLISH over the first `n` channels of one client; the number counts the deliveries.
unfoldable pub publish_to : Bytes → Bytes → ℤ → ℕ → Channels → ℕ → Exec ℕ
publish_to channel message fd zero cells count = pure count
publish_to channel message fd (suc n) [] count = lift undefined
publish_to channel message fd (suc n) (none ∷ cells) count = lift undefined
publish_to channel message fd (suc n) (some c ∷ cells) count = elim (str_eq c channel) [
  | true ↦ do
    send fd (formatted 1024 (message_text channel message))
    publish_to channel message fd n cells (count + 1)
  | false ↦ publish_to channel message fd n cells count
]

-- The loop of PUBLISH over `clients`.
unfoldable pub publish_all : Bytes → Bytes → List (Option Address) → ℕ → Exec ℕ
publish_all channel message [] count = pure count
publish_all channel message (none ∷ slots) count = publish_all channel message slots count
publish_all channel message (some p ∷ slots) count = do
  c ← load p
  count' ← publish_to channel message c.fd c.channel_count c.channel_subed count
  publish_all channel message slots count'

unfoldable pub handle_publish : Request → ℤ → Exec (Unit {0})
handle_publish req client_fd = if ltb (length req.args) 2 then pure tt else (do
  channel ← arg req 0
  message ← arg req 1
  slots ← gets (λ s. s.clients)
  count ← publish_all channel message slots 0
  send client_fd (formatted 64 (number_reply count)))

-- The loop of UNSUBSCRIBE from the cell `i` on; the bound of the loop is the count that it changes.
unfoldable pub unsubscribe_from : Bytes → ℕ → Channels → ℕ → Outcome (Channels × ℕ)
unsubscribe_from channel i [] count = if ltb i count then undefined else done ([], count)
unsubscribe_from channel i (cell ∷ cells) count =
    if ltb i count
    then elim cell [
      | none ↦ undefined
      | some c ↦ elim (str_eq c channel) [
        | true ↦
            Outcome.◌>>=◌ (unsubscribe_from channel (i + 1) cells (count - 1))
              λ r. done (none ∷ r.0, r.1)
        | false ↦
            Outcome.◌>>=◌ (unsubscribe_from channel (i + 1) cells count)
              λ r. done (some c ∷ r.0, r.1)
      ]
    ]
    else done (cell ∷ cells, count)

-- "*3\r\n$11\r\nunsubscribe\r\n", the channel, and the number of channels left
abbrev pub unsubscribe_text : Bytes → ℕ → Bytes
unsubscribe_text channel n =
    codes "*3\r\n$11\r\nunsubscribe\r\n" ++ (bulk channel ++ number_reply n)

unfoldable pub handle_unsubscribe : Request → Address → Exec (Unit {0})
unfolding unsubscribe_from
handle_unsubscribe req p = if ltb (length req.args) 1 then pure tt else (do
  channel ← arg req 0
  c ← load p
  (cells, count) ← lift (unsubscribe_from channel 0 c.channel_subed c.channel_count)
  store p (record c { channel_subed = cells; channel_count = count })
  send c.fd (formatted 1024 (unsubscribe_text channel count)))
