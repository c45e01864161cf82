-- ===== src/Keyspace/Laws.antt =====
-- What the operations of the table do to lookups.
use codecrafters_redis_c.Base.{
  ℕ, ◌+◌, ◌*◌, ◌<◌, ℤ, pos, negsuc, ◌+ℤ◌, Bytes, str_eq, str_eq_iff, str_eq_refl, ==_iff, ==_refl,
  ◌==◌, Option, none, some, ◌≡◌, refl, ap, arith, inl, inr, true, Bool-cases, ltb, if◌then◌else◌,
}
use codecrafters_redis_c.Outcome.{Outcome, done, undefined, ◌>>=◌, >>=-eq-done}
use codecrafters_redis_c.Keyspace.{
  RedisType, TimeFlags, ex, px, ArrayList, type_list, list, Value, null, Entry, Chain, nil, wild,
  node, Table, update,
}
use codecrafters_redis_c.Keyspace.Hash.{index_of}
use codecrafters_redis_c.Keyspace.Store.{
  find, store_get_entry, overwrite, expiry, set_chain, store_set, set_head, expired, visible,
  store_get, store_put_value, store_set_list,
}

-- Overwriting the entry of a key in place changes the lookup of that key alone.
pub find-overwrite :
    (k j : Bytes) (new : Entry) (c : Chain)
    → new.key ≡ k
    → find j (overwrite k new c) ≡ (
        if str_eq k j
        then (do found ← find k c; elim found [ none ↦ done none | some _ ↦ done (some new) ])
        else find j c)
unfolding find overwrite
find-overwrite k j new nil e = ground arith
find-overwrite k j new wild e = ground arith
find-overwrite k j new (node x c) e = ground (
  arith,
  find-overwrite k j new c e,
  str_eq_iff k j,
  str_eq_iff x.key k,
  str_eq_iff x.key j,
  str_eq_iff new.key j,
)

-- What a chain holds after `store_set` wrote `new` for key `k`.
pub find-set_chain :
    (k j : Bytes) (new : Entry) (c : Chain) (found : Option Entry)
    → new.key ≡ k
    → find k c ≡ done found
    → find j (set_chain k new found c) ≡ (if str_eq k j then done (some new) else find j c)
unfolding set_chain
find-set_chain k j new c none e h = unfold find in ground (arith, e)
find-set_chain k j new c (some x) e h = ground (arith, find-overwrite k j new c e)

same_index : (k j : Bytes) → str_eq k j ≡ true → index_of k ≡ index_of j
same_index k j h = ap index_of ((str_eq_iff k j).0 h)

-- A table whose bucket of `k` was replaced by a chain that gives `r` for `k` and agrees elsewhere.
lookup-update :
    (k j : Bytes) (i : ℕ) (c : Chain) (r : Outcome (Option Entry)) (table : Table)
    → index_of k ≡ done i
    → find j c ≡ (if str_eq k j then r else find j (table i))
    → store_get_entry j (update table i c) ≡ (if str_eq k j then r else store_get_entry j table)
unfolding store_get_entry
lookup-update k j i c r table e h = elim (Bool-cases (str_eq k j)) [
  | inl same ↦ rw (← same_index k j same, e, same) (ground (arith, h))
  | inr other ↦ rw other (lookup_other (index_of j) i j c table (rw other at h))
]
  where
    lookup_other :
        (o : Outcome ℕ) (i : ℕ) (j : Bytes) (c : Chain) (table : Table)
        → find j c ≡ find j (table i)
        → (o >>= λ n. find j (update table i c n)) ≡ (o >>= λ n. find j (table n))
    lookup_other undefined i j c table h = refl
    lookup_other (done n) i j c table h = elim (Bool-cases (i == n)) [
      | inl hit ↦ rw (← (==_iff i n).0 hit) (ground (arith, h))
      | inr miss ↦ rw miss
    ]

-- The entry that SET writes.
abbrev pub set_entry : Bytes → Value → TimeFlags → ℤ → RedisType → ℕ → Entry
set_entry key value flag seconds type now = record {
  key = key;
  value = value;
  expires_at = expiry flag seconds now;
  type = type;
}

-- After `store_set` of key `k` a lookup of `k` finds the new entry, and a lookup of any other key,
-- in the same bucket or not, is what it was before.
pub store_get_entry-store_set :
    (k j : Bytes) (v : Value) (flag : TimeFlags) (seconds : ℤ) (type : RedisType) (now : ℕ)
    (table table' : Table)
    → store_set k v flag seconds type now table ≡ done table'
    → store_get_entry j table' ≡ (
        if str_eq k j
        then done (some (set_entry k v flag seconds type now))
        else store_get_entry j table)
unfolding store_set
store_get_entry-store_set k j v flag seconds type now table table' h =
    let (i, at, h₁) = >>=-eq-done (index_of k) _ h in
    let (found, walk, h₂) = >>=-eq-done (find k (table i)) _ h₁ in
    let new : Entry = set_entry k v flag seconds type now in
    let c : Chain = set_chain k new found (table i) in
    let law = find-set_chain k j new (table i) found refl walk in
    let written : update table i c ≡ table' = cc h₂ in
    rw (← written) (lookup-update k j i c (done (some new)) table at law)

-- A key set with EX n is returned by `store_get` while less than n * 1000 milliseconds have passed
-- since the reading that `store_set` took, and not from then on.
pub store_get-store_set_ex :
    (k : Bytes) (v : Value) (n : ℕ) (type : RedisType) (now later : ℕ) (table table' : Table)
    → store_set k v ex (pos n) type now table ≡ done table'
    → 0 < now + n * 1000
    → store_get k later table' ≡ done (if ltb later (now + n * 1000) then v else null)
unfolding store_get visible expired expiry ◌+ℤ◌
store_get-store_set_ex k v n type now later table table' h p =
    rw (store_get_entry-store_set k k v ex (pos n) type now table table' h, str_eq_refl k)
      (ground arith)

-- A key set with PX n is returned by `store_get` while less than n milliseconds have passed since
-- the reading that `store_set` took, and not from then on.
pub store_get-store_set_px :
    (k : Bytes) (v : Value) (n : ℕ) (type : RedisType) (now later : ℕ) (table table' : Table)
    → store_set k v px (pos n) type now table ≡ done table'
    → 0 < now + n
    → store_get k later table' ≡ done (if ltb later (now + n) then v else null)
unfolding store_get visible expired expiry ◌+ℤ◌
store_get-store_set_px k v n type now later table table' h p =
    rw (store_get_entry-store_set k k v px (pos n) type now table table' h, str_eq_refl k)
      (ground arith)

-- A key set with no time flag (-1 seconds) is returned by `store_get` at any time.
pub store_get-store_set_persistent :
    (k : Bytes) (v : Value) (flag : TimeFlags) (type : RedisType) (now later : ℕ)
    (table table' : Table)
    → store_set k v flag (negsuc 0) type now table ≡ done table'
    → store_get k later table' ≡ done v
unfolding store_get visible expired expiry
store_get-store_set_persistent k v flag type now later table table' h =
    rw (store_get_entry-store_set k k v flag (negsuc 0) type now table table' h, str_eq_refl k)
      (ground arith)

find-key : (k : Bytes) (c : Chain) (e : Entry) → find k c ≡ done (some e) → e.key ≡ k
unfolding find
find-key k nil e h = cc
find-key k wild e h = cc
find-key k (node x c) e h = ground (arith, find-key k c e, str_eq_iff x.key k)

lookup_parts :
    (k : Bytes) (table : Table) (r : Option Entry)
    → store_get_entry k table ≡ done r
    → (i : ℕ) × (index_of k ≡ done i) × (find k (table i) ≡ done r)
unfolding store_get_entry
lookup_parts k table r h = >>=-eq-done (index_of k) _ h

-- A write through the pointer to the entry of `k` gives that entry its new value and changes no
-- other lookup.
pub store_get_entry-store_put_value :
    (k : Bytes) (v : Value) (e : Entry) (table : Table)
    → store_get_entry k table ≡ done (some e)
    → (table' : Table) × (store_put_value k v table ≡ done table')
      × ((j : Bytes)
          → store_get_entry j table' ≡ (
              if str_eq k j then done (some (record e { value = v })) else store_get_entry j table))
unfolding store_put_value
store_get_entry-store_put_value k v e table h =
    let (i, at, walk) = lookup_parts k table (some e) h in
    let new : Entry = record e { value = v } in
    let c : Chain = overwrite k new (table i) in
    (
      update table i c,
      rw (at, walk),
      λ j.
          lookup-update k j i c (done (some new)) table at
            (rw (find-overwrite k j new (table i) (find-key k (table i) e walk), walk)),
    )

find-set_head :
    (k : Bytes) (new : Entry) (c : Chain)
    → new.key ≡ k
    → find k c ≡ done none
    → (c' : Chain) × (set_head new c ≡ done c') × (find k c' ≡ done (some new))
unfolding find set_head
find-set_head k new nil e h = (node new wild, refl, rw (e, str_eq_refl k))
find-set_head k new wild e h = absurd (cc h)
find-set_head k new (node x c) e h = (node new c, refl, rw (e, str_eq_refl k))

-- `store_set_list` of a key that is not in the table returns, and the key's entry is the new list.
pub store_get_entry-store_set_list :
    (k : Bytes) (l : ArrayList) (table : Table)
    → store_get_entry k table ≡ done none
    → (table' : Table) × (e : Entry) × (store_set_list k l table ≡ done table')
      × (store_get_entry k table' ≡ done (some e))
      × (e.value ≡ list l)
unfolding store_set_list
store_get_entry-store_set_list k l table h =
    let (i, at, walk) = lookup_parts k table none h in
    let new : Entry = record { key = k; value = list l; expires_at = pos 0; type = type_list } in
    let (c, written, hit) = find-set_head k new (table i) refl walk in
    (
      update table i c,
      new,
      rw (at, written),
      unfold store_get_entry in rw (at, ==_refl i) hit,
      refl,
    )

-- After a lookup that returned, `store_set` of the same key returns.
pub store_set_after_lookup :
    (k : Bytes) (v : Value) (flag : TimeFlags) (seconds : ℤ) (type : RedisType) (now : ℕ)
    (found : Option Entry) (table : Table)
    → store_get_entry k table ≡ done found
    → (table' : Table) × (store_set k v flag seconds type now table ≡ done table')
unfolding store_set store_get_entry
store_set_after_lookup k v flag seconds type now found table h =
    let (i, at, h₁) = >>=-eq-done (index_of k) _ h in
    (
      update table i (set_chain k (set_entry k v flag seconds type now) found (table i)),
      rw (at, h₁),
    )
