-- ===== src/Tests/Streams.antt =====
-- The stream commands on concrete streams: src/handler.c and src/utils.c.
use codecrafters_redis_c.Base.{
  ℕ, ◌<◌, pos, codes, [], ◌∷◌, ◌++◌, some, ◌≡◌, refl, arith, length, str_eq, none,
}
use codecrafters_redis_c.Outcome.{done, undefined}
use codecrafters_redis_c.Libc.{print_nat, bulk, upper}
use codecrafters_redis_c.Libc.Format.{digits}
use codecrafters_redis_c.Resp.Command.{Command}
use codecrafters_redis_c.Resp.Request.{Request}
use codecrafters_redis_c.Keyspace.{stream, type_stream, Table}
use codecrafters_redis_c.Keyspace.Hash.{hash, index_of}
use codecrafters_redis_c.Keyspace.Store.{find, store_get_entry}
use codecrafters_redis_c.Server.{Server}
use codecrafters_redis_c.Server.Exec.{◌>>◌}
use codecrafters_redis_c.Streams.Ids.{small_id, validate_stream_id}
use codecrafters_redis_c.Streams.Reading.{xread_to_string, stream_entry_to_string, entry_parts}
use codecrafters_redis_c.Streams.Add.{handle_set_stream}
use codecrafters_redis_c.Streams.Xread.{handle_xread, handle_stream_print}
use codecrafters_redis_c.Streams.Posts.{
  Post, id_text, stream_of, StreamAt, WellFormed, posts_text, select, follows,
}
use codecrafters_redis_c.Streams.XreadLaws.{
  messages_after, xread_to_string_lem, stream_entry_to_string_misses,
}
use codecrafters_redis_c.Streams.Validation.{validate_stream_id_lem}
use codecrafters_redis_c.Streams.XaddLaws.{Added, handle_set_stream_explicit}
use codecrafters_redis_c.Streams.XaddStar.{ticked, handle_set_stream_star}
use codecrafters_redis_c.Streams.XaddPartial.{partial_id, first_post, handle_set_stream_behind}
use codecrafters_redis_c.Streams.Posts.{Increasing}
use codecrafters_redis_c.Streams.Waking.{waiting, with_client}
use codecrafters_redis_c.Streams.Spelling.{block_args, handle_xread_unterminated}
use codecrafters_redis_c.Streams.Multiple.{handle_xread_overflow}
use codecrafters_redis_c.Streams.Words.{Leftover, spells, streams_index, is_multiple_key}
use codecrafters_redis_c.Streams.Delivery.{handed, handle_set_stream-handle_stream_print}
use codecrafters_redis_c.Examples.{entry_at_a, table_with, idle_client, server_with}

abbrev post_at : ℕ → ℕ → Post
post_at ms seq = record { ms = ms; seq = seq; fields = codes "k" ∷ codes "v" ∷ [] }

-- The posts 1-5 and 7-2 under the key "a".
abbrev stream_table : Table
stream_table = table_with (stream (stream_of (post_at 1 5 ∷ []) (post_at 7 2))) type_stream

abbrev stream_server : Server
stream_server = server_with stream_table (idle_client (pos 7))

stream-StreamAt : StreamAt (codes "a") (post_at 1 5 ∷ []) (post_at 7 2) stream_table
unfolding store_get_entry find index_of hash str_eq
stream-StreamAt = record {
  entry = entry_at_a (stream (stream_of (post_at 1 5 ∷ []) (post_at 7 2))) type_stream;
  found = refl;
  type = refl;
  value = refl;
}

posts-WellFormed : WellFormed (post_at 1 5 ∷ []) (post_at 7 2)
posts-WellFormed = record {
  in_range = ((omega arith, omega arith), ((omega arith, omega arith), tt));
  rising = (refl, tt);
}

validate_stream_id_lem_example :
    validate_stream_id (id_text 7 2) (id_text 7 2) ≡ done (some small_id)
validate_stream_id_lem_example =
    validate_stream_id_lem 7 2 7 2 (omega arith) (omega arith) (omega arith) (omega arith)

short_text : length (posts_text (select (follows 1 5) (post_at 1 5 ∷ post_at 7 2 ∷ []))) < 1024
unfolding bulk print_nat digits entry_parts
short_text = omega arith

xread_to_string_lem_example :
    xread_to_string (id_text 1 5) (codes "a") stream_table
    ≡ done (some (messages_after 1 5 (post_at 1 5 ∷ post_at 7 2 ∷ [])))
xread_to_string_lem_example =
    xread_to_string_lem (codes "a") 1 5 (post_at 1 5 ∷ []) (post_at 7 2) stream_table
      stream-StreamAt (omega arith) (omega arith) posts-WellFormed short_text

stream_entry_to_string_misses_example :
    stream_entry_to_string (codes "-") (codes "+") (codes "a") stream_table ≡ undefined
stream_entry_to_string_misses_example =
    stream_entry_to_string_misses (codes "a") (post_at 1 5) (post_at 7 2) stream_table
      stream-StreamAt (omega arith, omega arith) (omega arith, omega arith) (omega arith)

handle_set_stream_explicit_example :
    Added
      (codes "a")
      (handle_set_stream
        (record {
          command = Command.xadd;
          args = codes "a" ∷ id_text 8 0 ∷ codes "k" ∷ codes "v" ∷ [];
        })
        (pos 7))
      (pos 7)
      (post_at 1 5 ∷ [])
      (post_at 7 2)
      (post_at 8 0)
      stream_server
      stream_server
handle_set_stream_explicit_example =
    handle_set_stream_explicit Command.xadd (codes "a") (pos 7) (post_at 1 5 ∷ []) (post_at 7 2)
      (post_at 8 0) stream_server stream-StreamAt posts-WellFormed (omega arith, omega arith) refl
      refl ((idle_client (pos 7), refl, refl), tt)

handle_set_stream_star_example :
    Added
      (codes "a")
      (handle_set_stream
        (record {
          command = Command.xadd;
          args = codes "a" ∷ codes "*" ∷ codes "k" ∷ codes "v" ∷ [];
        })
        (pos 7))
      (pos 7)
      (post_at 1 5 ∷ [])
      (post_at 7 2)
      (post_at 1000 0)
      stream_server
      (ticked stream_server)
handle_set_stream_star_example =
    handle_set_stream_star Command.xadd (codes "a") (pos 7) (codes "k" ∷ codes "v" ∷ [])
      (post_at 1 5 ∷ []) (post_at 7 2) stream_server stream-StreamAt posts-WellFormed (omega arith)
      (omega arith) refl ((idle_client (pos 7), refl, refl), tt)

handle_set_stream_behind_example :
    (final : Table) × (handle_set_stream
        (record { command = Command.xadd; args = codes "a" ∷ partial_id 5 ∷ codes "k" ∷ [] })
        (pos 7)
        stream_server
      ≡ done (
        tt,
        record (ticked stream_server) {
          table = final;
          sent = stream_server.sent ++ (pos 7, bulk (id_text 5 0)) ∷ [];
        },
      ))
    × StreamAt (codes "a") (post_at 1 5 ∷ post_at 7 2 ∷ []) (first_post 5 (codes "k" ∷ [])) final
    × (¬ Increasing ((post_at 1 5 ∷ post_at 7 2 ∷ []) ++ first_post 5 (codes "k" ∷ []) ∷ []))
handle_set_stream_behind_example =
    handle_set_stream_behind Command.xadd (codes "a") (pos 7) 5 (codes "k" ∷ []) (post_at 1 5 ∷ [])
      (post_at 7 2) stream_server stream-StreamAt (omega arith) (omega arith) refl
      ((idle_client (pos 7), refl, refl), tt)

-- XREAD STREAMS a b 0-0 0-0
abbrev two_streams : Request
two_streams = record {
  command = Command.xread;
  args = codes "STREAMS" ∷ codes "a" ∷ codes "b" ∷ codes "0-0" ∷ codes "0-0" ∷ [];
}

-- Memory that is all zero, behind the copies of the arguments.
abbrev zeros : Leftover
zeros = record { in_is_multiple_key = λ i. 0; in_has_block = λ i. 0 }

two_streams_found : is_multiple_key zeros two_streams ≡ done (some (0, 2))
unfolding is_multiple_key streams_index spells upper str_eq
two_streams_found = refl

handle_xread_overflow_example : handle_xread zeros two_streams 1 stream_server ≡ undefined
handle_xread_overflow_example =
    handle_xread_overflow zeros two_streams 1 0 2 stream_server two_streams_found

text_fits : length (posts_text (post_at 8 0 ∷ [])) < 1024
unfolding bulk print_nat digits entry_parts
text_fits = omega arith

-- Memory that is not zero, behind the copies of the arguments.
abbrev filled : Leftover
filled = record { in_is_multiple_key = λ i. 88; in_has_block = λ i. 88 }

handle_xread_unterminated_example : handle_xread filled two_streams 1 stream_server ≡ undefined
handle_xread_unterminated_example =
    handle_xread_unterminated filled two_streams 1 stream_server (λ i e. absurd (omega (arith, e)))

handle_set_stream-handle_stream_print_example :
    (final : Table) × ((handle_stream_print zeros
            (record { command = Command.xread; args = block_args (codes "a") })
            1
            Command.xread
          >> handle_set_stream
              (record {
                command = Command.xadd;
                args = codes "a" ∷ id_text 8 0 ∷ codes "k" ∷ codes "v" ∷ [];
              })
              (pos 9))
        stream_server
      ≡ done (
        tt,
        handed
            (codes "a")
            1
            (waiting (codes "a") (post_at 7 2) (idle_client (pos 7)))
            (post_at 8 0)
            (pos 9)
            (with_client 1
              (waiting (codes "a") (post_at 7 2) (idle_client (pos 7)))
              (ticked stream_server))
            final,
      ))
    × StreamAt (codes "a") (post_at 1 5 ∷ post_at 7 2 ∷ []) (post_at 8 0) final
handle_set_stream-handle_stream_print_example =
    handle_set_stream-handle_stream_print zeros Command.xadd (codes "a") (pos 9) (none ∷ []) [] 1
      (idle_client (pos 7)) (post_at 1 5 ∷ []) (post_at 7 2) (post_at 8 0) stream_server
      (record { streams_ends = refl; block_ends = refl }) refl refl tt tt tt tt stream-StreamAt
      posts-WellFormed (omega arith, omega arith) refl refl text_fits
