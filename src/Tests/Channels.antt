-- ===== src/Tests/Channels.antt =====
-- PUBLISH and UNSUBSCRIBE with one client: src/channels_handler.c.
use codecrafters_redis_c.Base.{
  pos, Bytes, codes, str_eq, List, [], ◌∷◌, ◌++◌, some, ◌≡◌, refl, true, false, length,
}
use codecrafters_redis_c.Outcome.{done, undefined}
use codecrafters_redis_c.Resp.Command.{Command}
use codecrafters_redis_c.Server.{Server, Client, Address}
use codecrafters_redis_c.Server.Exec.{◌>>◌, formatted}
use codecrafters_redis_c.Lists.Commands.{number_reply}
use codecrafters_redis_c.Channels.Commands.{handle_publish, handle_unsubscribe}
use codecrafters_redis_c.Channels.Publishing.{
  HasChannels, all_deliveries, handle_publish_lem, handle_unsubscribe_gap,
}
use codecrafters_redis_c.Examples.{empty_table, idle_client, server_with}

-- A client that is subscribed to "n" and "w".
abbrev subscriber : Client
subscriber = record (idle_client (pos 7)) {
  is_subscribed = true;
  channel_subed = some (codes "n") ∷ some (codes "w") ∷ [];
  channel_count = 2;
}

abbrev channel_server : Server
channel_server = server_with empty_table subscriber

abbrev names : Address → List Bytes
names p = codes "n" ∷ codes "w" ∷ []

subscriber-HasChannels : HasChannels subscriber (names 1)
subscriber-HasChannels = record { count = refl; rest = []; cells = refl }

handle_publish_lem_example :
    handle_publish
      (record { command = Command.publish; args = codes "w" ∷ codes "hi" ∷ [] })
      (pos 8)
      channel_server
    ≡ done (
      tt,
      record channel_server {
        sent =
            (channel_server.sent
              ++ all_deliveries
                  (codes "w")
                  (codes "hi")
                  (λ p. subscriber)
                  names
                  channel_server.clients)
            ++ (
              pos 8,
              formatted 64 (
                  number_reply (
                    length (
                      all_deliveries
                        (codes "w")
                        (codes "hi")
                        (λ p. subscriber)
                        names
                        channel_server.clients))),
            )
              ∷ [];
      },
    )
handle_publish_lem_example =
    handle_publish_lem Command.publish (codes "w") (codes "hi") (λ p. subscriber) names (pos 8)
      channel_server ((refl, subscriber-HasChannels), tt)

names_differ : str_eq (codes "w") (codes "n") ≡ false
unfolding str_eq
names_differ = refl

handle_unsubscribe_gap_example :
    (handle_unsubscribe (record { command = Command.unsubscribe; args = codes "n" ∷ [] }) 1
        >> handle_publish
            (record { command = Command.publish; args = codes "w" ∷ codes "hi" ∷ [] })
            (pos 8))
      channel_server
    ≡ undefined
handle_unsubscribe_gap_example =
    handle_unsubscribe_gap Command.unsubscribe Command.publish (codes "n") (codes "w") (codes "w")
      (codes "hi") 1 subscriber [] (pos 8) channel_server refl refl refl refl names_differ
