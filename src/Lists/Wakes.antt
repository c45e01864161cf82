-- ===== src/Lists/Wakes.antt =====
-- RPUSH to a key that a client waits for in BLPOP, and the end of a BLPOP by its time limit.
use codecrafters_redis_c.Base.{
  ℕ, suc, ◌+◌, ◌-◌, ◌<◌, ℤ, Bytes, List, [], ◌∷◌, ◌++◌, Option, none, some, ◌≡◌, refl, arith, true,
  false, length, ◌==◌, if◌then◌else◌,
}
use codecrafters_redis_c.Outcome.{done}
use codecrafters_redis_c.Resp.Command.{Command}
use codecrafters_redis_c.Resp.Request.{Request}
use codecrafters_redis_c.Keyspace.{ArrayList, Table}
use codecrafters_redis_c.Server.{Server, Client, Address}
use codecrafters_redis_c.Server.Exec.{formatted}
use codecrafters_redis_c.Lists.Array.{realloc}
use codecrafters_redis_c.Lists.ArrayLaws.{length-realloc}
use codecrafters_redis_c.Lists.Commands.{
  as_list, entry_value, open_list, number_reply, pair_reply, waits_for, waiting_time,
  longest_waiting, drop_first, deliver, handle_rpush,
}
use codecrafters_redis_c.Lists.Blocking.{
  has_list_value, endblpop_reply, blpop_expired, handle_endblpop,
}
use codecrafters_redis_c.Lists.Pushes.{ListAt, put_list, rpush_array, grown_Holds}
use codecrafters_redis_c.Lists.PushHandlers.{NoneWaits, nobody_waits}
use codecrafters_redis_c.Lists.PopHandlers.{shifted_Holds, read_first}

-- The state after one reading of the clock.
abbrev pub ticked : Server → Server
ticked s = record s { clock = λ n. s.clock (suc n) }

-- The search finds the one client that waits, if it has waited for at least a millisecond.
longest_one :
    (key : Bytes) (before after : List (Option Address)) (p : Address) (c : Client) (s : Server)
    → NoneWaits key s.heap before
    → NoneWaits key s.heap after
    → s.heap p ≡ some c
    → waits_for key c ≡ true
    → 0 < waiting_time (s.clock 0) c.blocked_at
    → longest_waiting key (before ++ some p ∷ after) 0 none s ≡ done (some p, ticked s)
unfolding longest_waiting
longest_one key [] after p c s wb wa at waits waited = ground (
  arith,
  at,
  waits,
  nobody_waits key after (waiting_time (s.clock 0) c.blocked_at) (some p) (ticked s) wa,
)
longest_one key (none ∷ before) after p c s wb wa at waits waited =
    longest_one key before after p c s wb wa at waits waited
longest_one key (some q ∷ before) after p c s ((d, qat, quiet), wb) wa at waits waited =
    ground (arith, qat, quiet, longest_one key before after p c s wb wa at waits waited)

-- The client behind `p` after the delivery of an element.
abbrev pub released : Client → Client
released c = record c { is_blocked = false; is_blpop = false; waiting_for_key = none }

-- A push whose element goes on to a waiting client.
pub record Handed (key a : Bytes) (req : Request) (fd : ℤ) (p : Address) (c : Client) (s : Server)
    : Type 0 where
  pub final : Table
  pub returns :
      handle_rpush req fd s
      ≡ done (
        tt,
        record s {
          table = final;
          heap = λ q. if p == q then some (released c) else s.heap q;
          clock = λ n. s.clock (suc n);
          sent =
              (s.sent ++ (fd, formatted 1024 (number_reply 1)) ∷ [])
              ++ (c.fd, formatted 1024 (pair_reply key a)) ∷ [];
        },
      )
  pub at_key : ListAt key [] final

-- RPUSH of one element to a key with an empty list, while one client waits for the key in BLPOP and
-- has waited for at least a millisecond, returns: the pusher gets the length 1, the waiting client
-- gets the element and waits no longer, and the list is empty again. No other client waits for the
-- key.
pub handle_rpush_wakes :
    (cmd : Command) (key a : Bytes) (fd : ℤ) (before after : List (Option Address)) (p : Address)
    (c : Client) (s : Server)
    → ListAt key [] s.table
    → s.clients ≡ before ++ some p ∷ after
    → NoneWaits key s.heap before
    → NoneWaits key s.heap after
    → s.heap p ≡ some c
    → waits_for key c ≡ true
    → 0 < waiting_time (s.clock 0) c.blocked_at
    → Handed key a (record { command = cmd; args = key ∷ a ∷ [] }) fd p c s
unfolding handle_rpush open_list as_list entry_value deliver drop_first
handle_rpush_wakes cmd key a fd before after p c s at slots wb wa pat waits waited =
    let n : ℕ = length (key ∷ a ∷ []) - 1 in
    let l : ArrayList = record at.array { values = realloc (at.array.size + n) at.array.values } in
    let (values, e, h) =
      rpush_array l [] (a ∷ []) n (grown_Holds at.array [] n at.holds) (omega arith)
        (length-realloc (at.array.size + n) at.array.values) in
    let pushed : ArrayList = record l { values = values; size = l.size + n } in
    let (middle, written, at', _) = put_list key [] (a ∷ []) pushed s.table at h in
    let (left, e', h') = shifted_Holds pushed (a ∷ []) 1 h (omega arith) (omega arith) in
    let (final, written', at'', _) =
      put_list key (a ∷ []) [] (record pushed { values = left; size = pushed.size - 1 }) middle at'
        h' in
    let replied : Server = record s {
      table = middle;
      sent = s.sent ++ (fd, formatted 1024 (number_reply pushed.size)) ∷ [];
    } in
    record {
      final = final;
      returns = ground (
        arith,
        at.found,
        at.value,
        at.holds.size,
        e,
        written,
        h.size,
        slots,
        pat,
        longest_one key before after p c replied wb wa pat waits waited,
        read_first pushed (a ∷ []) 0 a h refl (omega arith),
        e',
        written',
      );
      at_key = at'';
    }

-- When the time limit of a BLPOP passes while the list has elements, the client gets the first
-- element and waits no longer, and the element stays in the list: the table is not changed.
pub handle_endblpop_keeps :
    (key x : Bytes) (xs : List Bytes) (p : Address) (c : Client) (s : Server)
    → ListAt key (x ∷ xs) s.table
    → s.heap p ≡ some c
    → blpop_expired c (s.clock 0) ≡ true
    → c.waiting_for_key ≡ some key
    → handle_endblpop (some p) s
      ≡ done (
        tt,
        record s {
          heap = λ q. if p == q then some (released c) else s.heap q;
          clock = λ n. s.clock (suc n);
          sent = s.sent ++ (c.fd, formatted 1024 (pair_reply key x)) ∷ [];
        },
      )
unfolding handle_endblpop entry_value endblpop_reply has_list_value as_list
handle_endblpop_keeps key x xs p c s at pat expired waits = ground (
  arith,
  at.found,
  at.value,
  at.holds.size,
  pat,
  waits,
  read_first at.array (x ∷ xs) 0 x at.holds refl (omega arith),
  expired,
)
