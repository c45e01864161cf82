-- ===== src/Transactions/Counting.antt =====
-- INCR on the three kinds of keys: missing, a number, and text that is no number.
use codecrafters_redis_c.Base.{
  ℕ, zero, suc, ◌&&◌, not, ◌+◌, ◌^◌, ◌<◌, ℤ, pos, negsuc, eqb_ℤ, Bytes, codes, crlf, str_eq, [],
  ◌∷◌, ◌++◌, none, some, ◌≡◌, refl, arith, false, length-append, if◌then◌else◌,
}
use codecrafters_redis_c.Outcome.{done}
use codecrafters_redis_c.Libc.{print_nat, print_int}
use codecrafters_redis_c.Libc.RoundTrip.{atoi-print_nat, length-print_nat_below, take_all}
use codecrafters_redis_c.Resp.Command.{Command}
use codecrafters_redis_c.Resp.Request.{Request}
use codecrafters_redis_c.Keyspace.{type_string, no_time_flag, str, Entry, Table}
use codecrafters_redis_c.Keyspace.Store.{store_get_entry, expiry}
use codecrafters_redis_c.Keyspace.Laws.{store_get_entry-store_set, store_set_after_lookup}
use codecrafters_redis_c.Server.{Server}
use codecrafters_redis_c.Transactions.Incr.{as_string, increment, int_reply, set_plain, handle_incr}

-- What INCR leaves: the client's reply, the key's new entry with no time limit, and all other keys as
-- they were.
pub record Counted (key : Bytes) (text : Bytes) (reply : Bytes) (req : Request) (fd : ℤ)
    (s : Server) : Type 0 where
  pub final : Table
  pub returns :
      handle_incr req fd s
      ≡ done (tt, record s { table = final; sent = s.sent ++ (fd, reply) ∷ [] })
  pub lookup :
      (j : Bytes)
      → store_get_entry j final ≡ (
          if str_eq key j
          then done (
              some (record { key = key; value = str text; expires_at = pos 0; type = type_string }))
          else store_get_entry j s.table)

-- INCR of a key that is not in the table returns, sets the key to "1" and answers 1.
pub handle_incr_new :
    (c : Command) (key : Bytes) (fd : ℤ) (s : Server)
    → store_get_entry key s.table ≡ done none
    → Counted key (codes "1") (codes ":1\r\n") (record { command = c; args = key ∷ [] }) fd s
unfolding handle_incr set_plain expiry
handle_incr_new c key fd s h =
    let (final, written) =
      store_set_after_lookup key (str (codes "1")) no_time_flag (negsuc 0) type_string 0 none
        s.table h in
    record {
      final = final;
      returns = ground (arith, h, written);
      lookup = λ j.
          store_get_entry-store_set key j _ no_time_flag (negsuc 0) type_string 0 s.table final
            written;
    }

number_accepted :
    (n : ℕ) → (eqb_ℤ (pos n) (pos 0) && not (str_eq (print_nat n) (codes "0"))) ≡ false
unfolding print_nat str_eq
number_accepted zero = refl
number_accepted (suc n) = ground arith

-- INCR of a key that holds the decimal text of n, below the greatest `int`, returns, sets the key to
-- the decimal text of n + 1 and answers n + 1.
pub handle_incr_number :
    (c : Command) (key : Bytes) (n : ℕ) (e : Entry) (fd : ℤ) (s : Server)
    → store_get_entry key s.table ≡ done (some e)
    → e.value ≡ str (print_nat n)
    → n + 1 < 2 ^ 31
    → Counted key
        (print_nat (n + 1))
        (int_reply (pos (n + 1)))
        (record { command = c; args = key ∷ [] })
        fd
        s
unfolding handle_incr set_plain as_string increment print_int expiry
handle_incr_number c key n e fd s h value small =
    let (final, written) =
      store_set_after_lookup key (str (print_nat (n + 1))) no_time_flag (negsuc 0) type_string 0
        (some e) s.table h in
    let digits = length-print_nat_below 9 (n + 1) (omega arith) in
    let fits = take_all 11 (print_nat (n + 1)) (omega arith) in
    let reply_fits =
      take_all 31 (int_reply (pos (n + 1)))
        (ground (arith, length-append (print_nat (n + 1)) crlf)) in
    record {
      final = final;
      returns = ground (
        arith,
        h,
        value,
        atoi-print_nat n (omega arith),
        written,
        fits,
        reply_fits,
        number_accepted n,
      );
      lookup = λ j.
          store_get_entry-store_set key j _ no_time_flag (negsuc 0) type_string 0 s.table final
            written;
    }
