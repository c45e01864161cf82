-- ===== src/Tests/Keyspace.antt =====
-- The table on concrete keys: src/utils.c.
use codecrafters_redis_c.Base.{
  ℤ, pos, negsuc, codes, none, some, ◌≡◌, refl, arith, str_eq, if◌then◌else◌,
}
use codecrafters_redis_c.Outcome.{done}
use codecrafters_redis_c.Keyspace.{
  TimeFlags, ex, no_time_flag, type_string, type_list, str, list, nil, node, Table, update,
}
use codecrafters_redis_c.Keyspace.Hash.{hash, index_of}
use codecrafters_redis_c.Keyspace.Store.{
  find, store_get_entry, expiry, set_chain, store_set, store_set_list,
}
use codecrafters_redis_c.Keyspace.Laws.{set_entry, store_get_entry-store_set}
use codecrafters_redis_c.Keyspace.Chains.{
  IsWellFormed, store_set-IsWellFormed, store_set_list_collision,
}
use codecrafters_redis_c.Examples.{empty_table, list_table, two_elements, entry_at_a, table_with}

index_of_a : index_of (codes "a") ≡ done 97
unfolding index_of hash
index_of_a = refl

-- The table after SET of "a" at the time 1000.
abbrev set_table : TimeFlags → ℤ → Table
set_table flag seconds =
    update empty_table 97
      (node (set_entry (codes "a") (str (codes "v")) flag seconds type_string 1000) nil)

set_returns :
    (flag : TimeFlags) (seconds : ℤ)
    → store_set (codes "a") (str (codes "v")) flag seconds type_string 1000 empty_table
      ≡ done (set_table flag seconds)
unfolding store_set set_chain expiry find index_of hash
set_returns flag seconds = refl

store_get_entry-store_set_example :
    store_get_entry (codes "b") (set_table no_time_flag (negsuc 0)) ≡ (
      if str_eq (codes "a") (codes "b")
      then done
          (some (set_entry (codes "a") (str (codes "v")) no_time_flag (negsuc 0) type_string 1000))
      else store_get_entry (codes "b") empty_table)
store_get_entry-store_set_example =
    store_get_entry-store_set (codes "a") (codes "b") (str (codes "v")) no_time_flag (negsuc 0)
      type_string 1000 empty_table (set_table no_time_flag (negsuc 0))
      (set_returns no_time_flag (negsuc 0))

empty_IsWellFormed : IsWellFormed empty_table
empty_IsWellFormed = record { chain = λ i. tt }

store_set-IsWellFormed_example :
    (table' : Table) × (store_set
        (codes "a")
        (str (codes "v"))
        ex
        (pos 5)
        type_string
        1000
        empty_table
      ≡ done table')
    × IsWellFormed table'
store_set-IsWellFormed_example =
    store_set-IsWellFormed (codes "a") (str (codes "v")) ex (pos 5) type_string 1000 empty_table
      (omega arith, tt) empty_IsWellFormed

found_at_a :
    store_get_entry (codes "a") list_table ≡ done (some (entry_at_a (list two_elements) type_list))
unfolding store_get_entry find index_of hash str_eq
found_at_a = refl

-- "a" and "!b" have the same index: 33 * 31 + 98 is 97 modulo 1024.
collision_key : index_of (codes "!b") ≡ done 97
unfolding index_of hash
collision_key = refl

store_set_list_collision_example :
    (table' : Table) × (store_set_list
        (codes "!b")
        two_elements
        (table_with (str (codes "v")) type_string)
      ≡ done table')
    × (store_get_entry (codes "a") (table_with (str (codes "v")) type_string)
        ≡ done (some (entry_at_a (str (codes "v")) type_string)))
    × (store_get_entry (codes "a") table' ≡ done none)
unfolding find
store_set_list_collision_example =
    store_set_list_collision (codes "!b") 97 two_elements (entry_at_a (str (codes "v")) type_string)
      nil (table_with (str (codes "v")) type_string) collision_key refl index_of_a (λ h. cc h) refl
