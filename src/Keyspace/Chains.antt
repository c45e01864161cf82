-- ===== src/Keyspace/Chains.antt =====
-- The invariant of the table under SET, and what the other `store_set_*` functions break.
use codecrafters_redis_c.Base.{
  ℕ, ℤ, Bytes, str_eq, str_eq_iff, str_eq_refl, str_eq_ne, ==_iff, ==_refl, pos, ◌==◌, Option, none,
  some, ◌≡◌, ◌≢◌, refl, sym, arith, inl, inr, Bool-cases,
}
use codecrafters_redis_c.Outcome.{done}
use codecrafters_redis_c.Keyspace.{
  RedisType, type_list, TimeFlags, ArrayList, list, Value, Entry, Chain, nil, wild, node, Table,
  update,
}
use codecrafters_redis_c.Keyspace.Hash.{index_of, IsAscii, index_of_ascii}
use codecrafters_redis_c.Keyspace.Store.{
  find, store_get_entry, overwrite, set_chain, store_set, set_head, store_set_list,
}
use codecrafters_redis_c.Keyspace.Laws.{find-overwrite, set_entry}

-- Every chain ends with NULL, has no key twice and holds only keys of its own index.
abbrev pub IsChain : ℕ → Chain → Type 0
IsChain i nil = Unit
IsChain i wild = ⊥
IsChain i (node e next) = (index_of e.key ≡ done i) × (find e.key next ≡ done none) × IsChain i next

pub record IsWellFormed (table : Table) : Type 0 where
  pub chain : (i : ℕ) → IsChain i (table i)

find_total :
    (k : Bytes) (i : ℕ) (c : Chain) → IsChain i c → (o : Option Entry) × (find k c ≡ done o)
unfolding find
find_total k i nil w = (none, refl)
find_total k i wild w = absurd w
find_total k i (node e c) (_, _, w) = elim (Bool-cases (str_eq e.key k)) [
  | inl hit ↦ (some e, rw hit)
  | inr miss ↦ rw miss (find_total k i c w)
]

overwrite-IsChain :
    (k : Bytes) (i : ℕ) (new : Entry) (c : Chain)
    → new.key ≡ k
    → index_of k ≡ done i
    → IsChain i c
    → IsChain i (overwrite k new c)
unfolding overwrite
overwrite-IsChain k i new nil e at w = tt
overwrite-IsChain k i new wild e at w = w
overwrite-IsChain k i new (node x c) e at (home, fresh, w) = elim (Bool-cases (str_eq x.key k)) [
  | inl hit ↦ let same = (str_eq_iff x.key k).0 hit in rw hit (rw e at, cc (fresh, same, e), w)
  | inr miss ↦ rw miss (
    home,
    rw (find-overwrite k x.key new c e)
        (ground (arith, fresh, str_eq_iff k x.key, str_eq_iff x.key k)),
    overwrite-IsChain k i new c e at w,
  )
]

set_chain-IsChain :
    (k : Bytes) (i : ℕ) (new : Entry) (found : Option Entry) (c : Chain)
    → new.key ≡ k
    → index_of k ≡ done i
    → find k c ≡ done found
    → IsChain i c
    → IsChain i (set_chain k new found c)
unfolding set_chain
set_chain-IsChain k i new none c e at walk w = (cc (e, at), cc (e, walk), w)
set_chain-IsChain k i new (some x) c e at walk w = overwrite-IsChain k i new c e at w

update-IsWellFormed :
    (i : ℕ) (c : Chain) (table : Table)
    → IsChain i c
    → IsWellFormed table
    → IsWellFormed (update table i c)
update-IsWellFormed i c table w t = record {
  chain = λ j. elim (Bool-cases (i == j)) [
    | inl hit ↦ rw hit (rw (← (==_iff i j).0 hit) w)
    | inr miss ↦ rw miss (t.chain j)
  ];
}

-- On a well-formed table, `store_set` of an ASCII key returns, and the table stays well formed.
pub store_set-IsWellFormed :
    (k : Bytes) (v : Value) (flag : TimeFlags) (seconds : ℤ) (type : RedisType) (now : ℕ)
    (table : Table)
    → IsAscii k
    → IsWellFormed table
    → (table' : Table) × (store_set k v flag seconds type now table ≡ done table')
      × IsWellFormed table'
unfolding store_set
store_set-IsWellFormed k v flag seconds type now table ascii w =
    let (i, at, _) = index_of_ascii k ascii in
    let (found, walk) = find_total k i (table i) (w.chain i) in
    let new : Entry = set_entry k v flag seconds type now in
    let c : Chain = set_chain k new found (table i) in
    (
      update table i c,
      rw (at, walk),
      update-IsWellFormed i c table
          (set_chain-IsChain k i new found (table i) refl at walk (w.chain i)) w,
    )

-- On a well-formed table, the lookup of an ASCII key returns.
pub store_get_entry_total :
    (k : Bytes) (table : Table)
    → IsAscii k
    → IsWellFormed table
    → (found : Option Entry) × (store_get_entry k table ≡ done found)
unfolding store_get_entry
store_get_entry_total k table ascii w =
    let (i, at, _) = index_of_ascii k ascii in
    let (found, walk) = find_total k i (table i) (w.chain i) in (found, rw (at, walk))

-- `store_set_list` of a key `k` overwrites the first entry of its bucket, whatever key that has: an
-- entry of another key that stood there is no longer found afterwards, if the key stood there once.
pub store_set_list_collision :
    (k : Bytes) (i : ℕ) (l : ArrayList) (e : Entry) (next : Chain) (table : Table)
    → index_of k ≡ done i
    → table i ≡ node e next
    → index_of e.key ≡ done i
    → e.key ≢ k
    → find e.key next ≡ done none
    → (table' : Table) × (store_set_list k l table ≡ done table')
      × (store_get_entry e.key table ≡ done (some e))
      × (store_get_entry e.key table' ≡ done none)
unfolding store_set_list set_head store_get_entry find
store_set_list_collision k i l e next table at bucket home ne fresh =
    let new : Entry = record { key = k; value = list l; expires_at = pos 0; type = type_list } in
    (
      update table i (node new next),
      rw (at, bucket),
      rw (home, bucket, str_eq_refl e.key),
      rw (home, ==_refl i, str_eq_ne k e.key (λ h. ne (sym h))) fresh,
    )
