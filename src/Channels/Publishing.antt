-- ===== src/Channels/Publishing.antt =====
-- Whom PUBLISH reaches, and PUBLISH after UNSUBSCRIBE.
use codecrafters_redis_c.Base.{
  ℕ, ◌+◌, ℤ, Bytes, str_eq, str_eq_refl, List, [], ◌∷◌, ◌++◌, Option, none, some, ◌≡◌, arith, false,
  length, length-append, append_assoc, append-nil, map, if◌then◌else◌, inl, inr, Bool-cases,
}
use codecrafters_redis_c.Outcome.{done, undefined}
use codecrafters_redis_c.Resp.Command.{Command}
use codecrafters_redis_c.Server.{Server, Client, Address, Heap}
use codecrafters_redis_c.Server.Exec.{◌>>◌, formatted}
use codecrafters_redis_c.Lists.Commands.{number_reply}
use codecrafters_redis_c.Channels.Commands.{
  Channels, message_text, publish_to, publish_all, handle_publish, unsubscribe_from,
  handle_unsubscribe,
}

-- The messages to a client on `fd` with these channels.
abbrev pub deliveries : Bytes → Bytes → ℤ → List Bytes → List (ℤ × Bytes)
deliveries channel message fd [] = []
deliveries channel message fd (name ∷ names) =
    if str_eq name channel
    then (fd, formatted 1024 (message_text channel message)) ∷ deliveries channel message fd names
    else deliveries channel message fd names

publish_to_lem :
    (channel message : Bytes) (fd : ℤ) (names : List Bytes) (rest : Channels) (count : ℕ)
    (s : Server)
    → publish_to channel message fd (length names) (map some names ++ rest) count s
      ≡ done (
        count + length (deliveries channel message fd names),
        record s { sent = s.sent ++ deliveries channel message fd names },
      )
unfolding publish_to
publish_to_lem channel message fd [] rest count s = ground (arith, append-nil s.sent)
publish_to_lem channel message fd (name ∷ names) rest count s =
    elim (Bool-cases (str_eq name channel)) [
      | inr other ↦ ground (arith, other, publish_to_lem channel message fd names rest count s)
      | inl hit ↦
          let sent : List (ℤ × Bytes) = (fd, formatted 1024 (message_text channel message)) ∷ [] in
          ground (
            arith,
            hit,
            publish_to_lem channel message fd names rest (count + 1)
                (record s { sent = s.sent ++ sent }),
            append_assoc s.sent sent (deliveries channel message fd names),
          )
    ]

-- What a client that is subscribed to `names` looks like; unused cells may follow.
pub record HasChannels (c : Client) (names : List Bytes) : Type 0 where
  pub count : c.channel_count ≡ length names
  pub rest : Channels
  pub cells : c.channel_subed ≡ map some names ++ rest

-- Every client in `slots` is allocated and subscribed to its `names`.
abbrev pub AllSubscribed :
    (Address → Client) → (Address → List Bytes) → Heap → List (Option Address) → Type 0
AllSubscribed client names heap [] = Unit
AllSubscribed client names heap (none ∷ slots) = AllSubscribed client names heap slots
AllSubscribed client names heap (some p ∷ slots) =
    ((heap p ≡ some (client p)) × HasChannels (client p) (names p))
    × AllSubscribed client names heap slots

-- The messages to all clients in `slots`.
abbrev pub all_deliveries :
    Bytes
    → Bytes
    → (Address → Client)
    → (Address → List Bytes)
    → List (Option Address)
    → List (ℤ × Bytes)
all_deliveries channel message client names [] = []
all_deliveries channel message client names (none ∷ slots) =
    all_deliveries channel message client names slots
all_deliveries channel message client names (some p ∷ slots) =
    deliveries channel message (client p).fd (names p)
    ++ all_deliveries channel message client names slots

publish_all_lem :
    (channel message : Bytes) (client : Address → Client) (names : Address → List Bytes)
    (slots : List (Option Address)) (count : ℕ) (s : Server)
    → AllSubscribed client names s.heap slots
    → publish_all channel message slots count s
      ≡ done (
        count + length (all_deliveries channel message client names slots),
        record s { sent = s.sent ++ all_deliveries channel message client names slots },
      )
unfolding publish_all
publish_all_lem channel message client names [] count s h = ground (arith, append-nil s.sent)
publish_all_lem channel message client names (none ∷ slots) count s h =
    publish_all_lem channel message client names slots count s h
publish_all_lem channel message client names (some p ∷ slots) count s ((at, has), h) =
    let here = deliveries channel message (client p).fd (names p) in
    let there = all_deliveries channel message client names slots in
    ground (
      arith,
      at,
      has.count,
      has.cells,
      publish_to_lem channel message (client p).fd (names p) has.rest count s,
      publish_all_lem channel message client names slots (count + length here)
          (record s { sent = s.sent ++ here }) h,
      append_assoc s.sent here there,
      length-append here there,
    )

-- PUBLISH, when every client in the array is allocated and has no NULL among its channels, returns:
-- each client gets the message once for each of its subscriptions to the channel, in the order of the
-- array, nobody else gets it, and the publisher is told the number of these messages.
pub handle_publish_lem :
    (cmd : Command) (channel message : Bytes) (client : Address → Client)
    (names : Address → List Bytes) (fd : ℤ) (s : Server)
    → AllSubscribed client names s.heap s.clients
    → handle_publish (record { command = cmd; args = channel ∷ message ∷ [] }) fd s
      ≡ done (
        tt,
        record s {
          sent =
              (s.sent ++ all_deliveries channel message client names s.clients)
              ++ (
                fd,
                formatted 64
                    (number_reply (length (all_deliveries channel message client names s.clients))),
              )
                ∷ [];
        },
      )
unfolding handle_publish
handle_publish_lem cmd channel message client names fd s h =
    ground (arith, publish_all_lem channel message client names s.clients 0 s h)

-- UNSUBSCRIBE from the first of two different channels leaves a NULL in front of the other, and the
-- next PUBLISH, on any channel, compares it: that is undefined. The client is the first one that
-- was accepted, at index 1; no client stands at index 0.
pub handle_unsubscribe_gap :
    (cmd cmd' : Command) (a b channel message : Bytes) (p : Address) (c : Client)
    (slots : List (Option Address)) (fd : ℤ) (s : Server)
    → s.clients ≡ none ∷ some p ∷ slots
    → s.heap p ≡ some c
    → c.channel_subed ≡ some a ∷ some b ∷ []
    → c.channel_count ≡ 2
    → str_eq b a ≡ false
    → (handle_unsubscribe (record { command = cmd; args = a ∷ [] }) p
          >> handle_publish (record { command = cmd'; args = channel ∷ message ∷ [] }) fd)
        s
      ≡ undefined
unfolding handle_unsubscribe unsubscribe_from handle_publish publish_all publish_to
handle_unsubscribe_gap cmd cmd' a b channel message p c slots fd s first at cells count ne =
    ground (arith, first, at, cells, count, ne, str_eq_refl a)
