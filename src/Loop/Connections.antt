-- ===== src/Loop/Connections.antt =====
-- Accepted and closed connections in the loop of `main` of src/main.c.
use codecrafters_redis_c.Base.{
  ℕ, ◌+◌, ◌-◌, ◌<◌, ℤ, pos, negsuc, List, [], Option, none, some, true, false, ltb, get_elem?, set,
  ◌==◌, ◌≡◌, if◌then◌else◌,
}
use codecrafters_redis_c.Outcome.{Outcome, done, deref, ◌>>=◌}
use codecrafters_redis_c.Server.{Client, Address, Server}

-- The server, `active_fds`, and the file descriptors of `watch_list`.
pub record LoopState : Type 0 where
  pub server : Server
  pub active : ℕ
  pub watch : List ℤ

-- The object of a client that was accepted: `calloc` and the writes behind it.
abbrev pub new_client : ℤ → Client
new_client fd = record {
  fd = fd;
  is_blocked = false;
  is_queued = false;
  is_blpop = false;
  is_subscribed = false;
  is_replica = false;
  is_master = false;
  is_waiting = false;
  repl_offset = pos 0;
  timeout_at = pos 0;
  blocked_at = pos 0;
  waiting_for_key = none;
  min_id = none;
  channel_subed = [];
  channel_count = 0;
  requests = [];
  is_auth = false;
  has_nopass = true;
  watch_keys = [];
  is_dirty = false;
}

-- A connection with the file descriptor `fd`, for which `calloc` gives the address `p`; with `limit`
-- clients the connection is closed again.
unfoldable pub accept_client : ℕ → ℤ → Address → LoopState → LoopState
accept_client limit fd p l =
    if ltb l.active limit
    then record l {
      server = record l.server {
        clients = set l.server.clients l.active (some p);
        heap = λ q. if p == q then some (new_client fd) else l.server.heap q;
      };
      active = l.active + 1;
      watch = set l.watch l.active fd;
    }
    else l

-- if (clients[i]) free(clients[i])
abbrev pub free_cell : Option Address → Server → Server
free_cell none s = s
free_cell (some p) s = record s { heap = λ q. if p == q then none else s.heap q }

-- The state once the client of index `i` gave its place to that of index `k`.
abbrev pub take_place : ℕ → ℕ → Option Address → Option Address → ℤ → LoopState → LoopState
take_place i k cell last fd l =
    let freed : Server = free_cell cell l.server in
    record {
      server = record freed { clients = set (set l.server.clients i last) k none };
      active = k;
      watch = set (set l.watch i fd) k (negsuc 0);
    }

-- A connection at index `i` that has ended: the last one in use takes its place.
unfoldable pub close_client : ℕ → LoopState → Outcome LoopState
close_client i l = do
  cell ← deref (get_elem? l.server.clients i)
  last ← deref (get_elem? l.server.clients (l.active - 1))
  fd ← deref (get_elem? l.watch (l.active - 1))
  done (take_place i (l.active - 1) cell last fd l)

-- What may happen to the connections: an accepted one, for which the allocator gives an address that
-- is not in use, or the end of one that is in use.
pub data ConnectionStep (limit : ℕ) : LoopState → LoopState → Type 0 where
  accepted :
      (fd : ℤ) (p : Address) (l : LoopState)
      → l.server.heap p ≡ none
      → ConnectionStep limit l (accept_client limit fd p l)
  closed :
      (i : ℕ) (l l' : LoopState)
      → 0 < i
      → i < l.active
      → close_client i l ≡ done l'
      → ConnectionStep limit l l'
