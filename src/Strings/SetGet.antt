-- ===== src/Strings/SetGet.antt =====
-- GET after SET with a time limit.
use codecrafters_redis_c.Base.{
  ℕ, ◌+◌, ◌*◌, ◌<◌, ℤ, pos, eqb_ℤ, ◌+ℤ◌, Bytes, codes, str_eq_refl, [], ◌∷◌, ◌++◌, Option, some,
  ◌≡◌, refl, ◌∙◌, ap, arith, false, ltb, suc, inl, inr, Bool-cases, if◌then◌else◌,
}
use codecrafters_redis_c.Outcome.{done}
use codecrafters_redis_c.Libc.{atoi, bulk}
use codecrafters_redis_c.Resp.Command.{Command}
use codecrafters_redis_c.Keyspace.{Entry, Table, str, null, ex, type_string}
use codecrafters_redis_c.Keyspace.Store.{store_get_entry, store_set, expiry, expired, visible}
use codecrafters_redis_c.Keyspace.Laws.{
  set_entry, store_get_entry-store_set, store_set_after_lookup,
}
use codecrafters_redis_c.Server.{Server}
use codecrafters_redis_c.Server.Exec.{◌>>◌, lift, from_table, formatted, run_then, bind_run}
use codecrafters_redis_c.Transactions.Incr.{as_string}
use codecrafters_redis_c.Strings.Commands.{set_flags, set_value, handle_set, get_value, handle_get}

ex_flag :
    (text : Bytes) (n : ℕ)
    → atoi text ≡ done (pos n)
    → set_flags (codes "EX" ∷ text ∷ []) ≡ done (pos n, ex)
unfolding set_flags
ex_flag text n h = rw (str_eq_refl (codes "EX"), h) refl

value_run :
    (key v : Bytes) (n : ℕ) (table : Table) (s : Server)
    → store_set key (str v) ex (pos n) type_string (s.clock 0) s.table ≡ done table
    → set_value key (str v) ex (pos n) type_string s
      ≡ done (tt, record s { table = table; clock = λ i. s.clock (suc i) })
unfolding set_value
value_run key v n table s written = ground (arith, written)

set_run :
    (c : Command) (key v text : Bytes) (n : ℕ) (fd : ℤ) (table : Table) (s : Server)
    → set_flags (codes "EX" ∷ text ∷ []) ≡ done (pos n, ex)
    → store_set key (str v) ex (pos n) type_string (s.clock 0) s.table ≡ done table
    → eqb_ℤ fd s.config.master_fd ≡ false
    → handle_set (record { command = c; args = key ∷ v ∷ codes "EX" ∷ text ∷ [] }) fd s
      ≡ done (
        tt,
        record s {
          table = table;
          clock = λ i. s.clock (suc i);
          sent = s.sent ++ (fd, codes "+OK\r\n") ∷ [];
        },
      )
unfolding handle_set
set_run c key v text n fd table s read written other = rw read (
    run_then (set_value key (str v) ex (pos n) type_string) _ s (value_run key v n table s written)
    ∙ rw other refl)

visible_lem :
    (v : Bytes) (e : Entry) (limit now : ℕ)
    → e.value ≡ str v
    → e.expires_at ≡ pos limit
    → 0 < limit
    → visible now (some e) ≡ done (if ltb now limit then str v else null)
unfolding visible expired
visible_lem v e limit now value at_limit later = rw at_limit (rw value (ground (arith, later)))

get_value_run :
    (key v : Bytes) (e : Entry) (limit : ℕ) (s : Server)
    → store_get_entry key s.table ≡ done (some e)
    → e.value ≡ str v
    → e.expires_at ≡ pos limit
    → 0 < limit
    → get_value key s
      ≡ done (
        (if ltb (s.clock 0) limit then str v else null),
        record s { clock = λ i. s.clock (suc i) },
      )
unfolding get_value
get_value_run key v e limit s look value at_limit later =
    let limited : eqb_ℤ e.expires_at (pos 0) ≡ false = rw at_limit (ground (arith, later)) in
    bind_run (from_table (store_get_entry key)) _ s (ap (λ o. lift o s) look)
    ∙ rw limited (
        ap (λ o. lift o (record s { clock = λ i. s.clock (suc i) }))
          (visible_lem v e limit (s.clock 0) value at_limit later))

get_run :
    (d : Command) (key v : Bytes) (e : Entry) (limit : ℕ) (fd : ℤ) (s : Server)
    → store_get_entry key s.table ≡ done (some e)
    → e.value ≡ str v
    → e.expires_at ≡ pos limit
    → 0 < limit
    → handle_get (record { command = d; args = key ∷ [] }) fd s
      ≡ done (
        tt,
        record s {
          clock = λ i. s.clock (suc i);
          sent =
              s.sent
              ++ (fd, (if ltb (s.clock 0) limit then formatted 1024 (bulk v) else codes "$-1\r\n"))
                ∷ [];
        },
      )
unfolding handle_get as_string
get_run d key v e limit fd s look value at_limit later =
    let got = get_value_run key v e limit s look value at_limit later in
    bind_run (get_value key) _ s got ∙ elim (Bool-cases (ltb (s.clock 0) limit)) [
      | inl early ↦ rw early refl
      | inr late ↦ rw late refl
    ]

-- SET of a key whose lookup is defined, with EX and n seconds, from a client that is not the
-- master, and then GET of the key: both return, the SET is answered with `+OK`, and the GET with
-- the value if the second reading of the clock is less than n seconds after the first, and with nil
-- otherwise.
pub handle_get-handle_set :
    (c d : Command) (key v text : Bytes) (n : ℕ) (found : Option Entry) (fd : ℤ) (s : Server)
    → store_get_entry key s.table ≡ done found
    → atoi text ≡ done (pos n)
    → 0 < s.clock 0 + n * 1000
    → eqb_ℤ fd s.config.master_fd ≡ false
    → (table : Table) × ((handle_set
              (record { command = c; args = key ∷ v ∷ codes "EX" ∷ text ∷ [] })
              fd
            >> handle_get (record { command = d; args = key ∷ [] }) fd)
          s
        ≡ done (
          tt,
          record s {
            table = table;
            clock = λ i. s.clock (suc (suc i));
            sent =
                (s.sent ++ (fd, codes "+OK\r\n") ∷ [])
                ++ (
                  fd,
                  (if ltb (s.clock 1) (s.clock 0 + n * 1000)
                      then formatted 1024 (bulk v)
                      else codes "$-1\r\n"),
                )
                  ∷ [];
          },
        ))
unfolding expiry ◌+ℤ◌
handle_get-handle_set c d key v text n found fd s h read later other =
    let (table, written) =
      store_set_after_lookup key (str v) ex (pos n) type_string (s.clock 0) found s.table h in
    let e : Entry = set_entry key (str v) ex (pos n) type_string (s.clock 0) in
    let look : store_get_entry key table ≡ done (some e) =
      store_get_entry-store_set key key (str v) ex (pos n) type_string (s.clock 0) s.table table
        written
      ∙ rw (str_eq_refl key) refl in
    let s₁ : Server = record s {
      table = table;
      clock = λ i. s.clock (suc i);
      sent = s.sent ++ (fd, codes "+OK\r\n") ∷ [];
    } in
    let first = handle_set (record { command = c; args = key ∷ v ∷ codes "EX" ∷ text ∷ [] }) fd in
    let second = handle_get (record { command = d; args = key ∷ [] }) fd in
    (
      table,
      run_then first second s
            (set_run c key v text n fd table s (ex_flag text n read) written other)
          ∙ get_run d key v e (s.clock 0 + n * 1000) fd s₁ look refl (ground arith) later,
    )
