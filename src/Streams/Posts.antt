-- ===== src/Streams/Posts.antt =====
-- A stream that is not empty, as what its entries stand for: the numbers of an id, and the fields.
use codecrafters_redis_c.Base.{
  ℕ, ◌^◌, ◌<◌, pos, Bytes, List, [], ◌∷◌, ◌++◌, map, some, ◌≡◌, refl, Bool, true, ◌&&◌, ◌||◌,
  length, ltb, ◌==◌, All, if◌then◌else◌,
}
use codecrafters_redis_c.Outcome.{done}
use codecrafters_redis_c.Libc.{print_nat, concat}
use codecrafters_redis_c.Keyspace.{StreamEntry, Stream, Entry, stream, type_stream, Table}
use codecrafters_redis_c.Keyspace.Store.{store_get_entry}
use codecrafters_redis_c.Streams.Reading.{last_entry, entry_parts}

pub record Post : Type 0 where
  pub ms : ℕ
  pub seq : ℕ
  pub fields : List Bytes

-- "ms-seq"
abbrev pub id_text : ℕ → ℕ → Bytes
id_text ms seq = print_nat ms ++ b'-' ∷ print_nat seq

-- The numbers are of type `long long`.
abbrev pub InRange : Post → Type 0
InRange p = (p.ms < 2 ^ 63) × (p.seq < 2 ^ 63)

-- Whether the id is after the one of the two numbers.
abbrev pub follows : ℕ → ℕ → Post → Bool
follows ms seq p = ltb ms p.ms || (ms == p.ms && ltb seq p.seq)

abbrev pub entry_of : Post → StreamEntry
entry_of p = record { id = id_text p.ms p.seq; fields = p.fields }

-- The object for the posts `ps` and a last one.
abbrev pub stream_of : List Post → Post → Stream
stream_of ps last = record {
  entries = map entry_of (ps ++ last ∷ []);
  last_ms = pos last.ms;
  last_seq = pos last.seq;
  length = length (ps ++ last ∷ []);
}

-- Every id is after the one before it.
abbrev pub Increasing : List Post → Type 0
Increasing [] = Unit
Increasing (p ∷ []) = Unit
Increasing (p ∷ q ∷ ps) = (follows p.ms p.seq q ≡ true) × Increasing (q ∷ ps)

-- The invariant of a stream that is not empty: its ids are numbers of type `long long`, and
-- increase.
pub record WellFormed (ps : List Post) (last : Post) : Type 0 where
  pub in_range : All InRange (ps ++ last ∷ [])
  pub rising : Increasing (ps ++ last ∷ [])

-- The table has the stream of these posts under the key.
pub record StreamAt (key : Bytes) (ps : List Post) (last : Post) (table : Table) : Type 0 where
  pub entry : Entry
  pub found : store_get_entry key table ≡ done (some entry)
  pub type : entry.type ≡ type_stream
  pub value : entry.value ≡ stream (stream_of ps last)

-- The posts that a test selects.
abbrev pub select : (Post → Bool) → List Post → List Post
select keep [] = []
select keep (p ∷ ps) = let rest = select keep ps in if keep p then p ∷ rest else rest

-- The text of a post, and of several.
abbrev pub post_text : Post → Bytes
post_text p = concat (entry_parts (entry_of p))

abbrev pub posts_text : List Post → Bytes
posts_text [] = []
posts_text (p ∷ ps) = post_text p ++ posts_text ps

pub last_entry-posts :
    (ps : List Post) (last : Post)
    → last_entry (map entry_of (ps ++ last ∷ [])) ≡ some (entry_of last)
unfolding last_entry
last_entry-posts [] last = refl
last_entry-posts (p ∷ []) last = refl
last_entry-posts (p ∷ q ∷ ps) last = last_entry-posts (q ∷ ps) last

pub All-last : (ps : List Post) (last : Post) → All InRange (ps ++ last ∷ []) → InRange last
All-last [] last (h, _) = h
All-last (p ∷ ps) last (_, hs) = All-last ps last hs
