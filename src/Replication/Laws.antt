-- ===== src/Replication/Laws.antt =====
-- What WAIT answers at once, and what the replicas get of a write.
use codecrafters_redis_c.Base.{
  ℕ, suc, ◌<◌, ℤ, pos, leb_ℤ, Bytes, List, [], ◌∷◌, ◌++◌, Option, none, some, true, length,
  append_assoc, append-nil, ◌≡◌, refl, sym, ap, arith, ◌==◌, ==_iff, if◌then◌else◌, inl, inr,
  Bool-cases,
}
use codecrafters_redis_c.Outcome.{done}
use codecrafters_redis_c.Libc.{atoi, sent_bytes}
use codecrafters_redis_c.Libc.RoundTrip.{print_all-fits, sent_bytes-fits}
use codecrafters_redis_c.Libc.Scan.{atoll}
use codecrafters_redis_c.Resp.Command.{Command}
use codecrafters_redis_c.Resp.Request.{Request}
use codecrafters_redis_c.Resp.Encode.{encoded_parts, copy_request_to_buffer}
use codecrafters_redis_c.Resp.RoundTrip.{encoding}
use codecrafters_redis_c.Server.{Server, Client, Address, Heap}
use codecrafters_redis_c.Transactions.Watching.{AllLive}
use codecrafters_redis_c.Replication.Commands.{
  count_caught_up, count_reply, handle_wait, send_replicas,
}

-- How many clients of the cells are replicas whose own offset is at least the given one.
abbrev pub acknowledged : ℤ → Heap → List (Option Address) → ℕ
acknowledged offset heap [] = 0
acknowledged offset heap (none ∷ cells) = acknowledged offset heap cells
acknowledged offset heap (some p ∷ cells) =
    let n = acknowledged offset heap cells in
    elim (heap p) [
      | none ↦ n
      | some c ↦ if c.is_replica then (if leb_ℤ offset c.repl_offset then suc n else n) else n
    ]

count_run :
    (offset : ℤ) (cells : List (Option Address)) (s : Server)
    → AllLive s.heap cells
    → count_caught_up offset cells s ≡ done (acknowledged offset s.heap cells, s)
unfolding count_caught_up
count_run offset [] s live = refl
count_run offset (none ∷ cells) s live = count_run offset cells s live
count_run offset (some p ∷ cells) s ((c, at), live) =
    ground (arith, at, count_run offset cells s live)

-- WAIT for at most as many replicas as have acknowledged the master's offset, whatever its time limit
-- is, returns at once: the client gets the number of those replicas, the offset and the wanted number
-- are noted, and nobody is asked or made to wait. All clients of the array are allocated.
pub handle_wait_reached :
    (cmd : Command) (first second : Bytes) (fd wanted ms : ℤ) (s : Server)
    → atoi first ≡ done wanted
    → atoll second ≡ done ms
    → AllLive s.heap s.clients
    → leb_ℤ wanted (pos (acknowledged s.config.master_repl_offset s.heap s.clients)) ≡ true
    → handle_wait (record { command = cmd; args = first ∷ second ∷ [] }) fd s
      ≡ done (
        tt,
        record s {
          config = record s.config {
            captured_master_offset = s.config.master_repl_offset;
            wanted_replicas = wanted;
          };
          sent =
              s.sent
              ++ (fd, count_reply (acknowledged s.config.master_repl_offset s.heap s.clients)) ∷ [];
        },
      )
unfolding handle_wait
handle_wait_reached cmd first second fd wanted ms s read read' live reached =
    let noted : Server = record s {
      config = record s.config {
        captured_master_offset = s.config.master_repl_offset;
        wanted_replicas = wanted;
      };
    } in
    ground (arith, read, read', count_run s.config.master_repl_offset s.clients noted live, reached)

-- The file descriptors of the replicas, in the order of the array.
abbrev pub replica_fds : Heap → List (Option Address) → List ℤ
replica_fds heap [] = []
replica_fds heap (none ∷ cells) = replica_fds heap cells
replica_fds heap (some p ∷ cells) =
    let fds = replica_fds heap cells in
    elim (heap p) [ none ↦ fds | some c ↦ if c.is_replica then c.fd ∷ fds else fds ]

-- The same text to each of them.
abbrev pub to_each : Bytes → List ℤ → List (ℤ × Bytes)
to_each text [] = []
to_each text (fd ∷ fds) = (fd, text) ∷ to_each text fds

encoded_whole :
    (req : Request)
    → length (encoding req) < 1024
    → (copy_request_to_buffer req 1024
        ≡ done (record { bytes = encoding req; offset = length (encoding req) }))
      × (sent_bytes 1024 (record { bytes = encoding req; offset = length (encoding req) })
          ≡ done (encoding req))
unfolding copy_request_to_buffer
encoded_whole req fits = (
  print_all-fits 1024 (encoded_parts req) [] (omega (arith, fits)),
  sent_bytes-fits 1024 (encoding req) fits,
)

-- Every replica gets the request, once, in the encoding that `parse` reads back.
pub send_replicas_lem :
    (req : Request) (cells : List (Option Address)) (s : Server)
    → length (encoding req) < 1024
    → AllLive s.heap cells
    → send_replicas req cells s
      ≡ done (tt, record s { sent = s.sent ++ to_each (encoding req) (replica_fds s.heap cells) })
unfolding send_replicas
send_replicas_lem req [] s fits live =
    ap (λ l. done (tt, record s { sent = l })) (sym (append-nil s.sent))
send_replicas_lem req (none ∷ cells) s fits live = send_replicas_lem req cells s fits live
send_replicas_lem req (some p ∷ cells) s fits ((c, at), live) =
    let (copied, whole) = encoded_whole req fits in
    elim (Bool-cases c.is_replica) [
      | inl replica ↦
          let s₁ : Server = record s { sent = s.sent ++ (c.fd, encoding req) ∷ [] } in
          let rest = send_replicas_lem req cells s₁ fits live in
          ground (
            arith,
            at,
            replica,
            copied,
            whole,
            rest,
            append_assoc s.sent ((c.fd, encoding req) ∷ [])
                (to_each (encoding req) (replica_fds s.heap cells)),
          )
      | inr plain ↦ ground (arith, at, plain, send_replicas_lem req cells s fits live)
    ]

-- The replicas of a heap in which a client changed, but not in what it is to replication.
pub replica_fds_kept :
    (p : Address) (c c' : Client) (heap : Heap) (cells : List (Option Address))
    → heap p ≡ some c
    → c'.is_replica ≡ c.is_replica
    → c'.fd ≡ c.fd
    → replica_fds (λ q. if p == q then some c' else heap q) cells ≡ replica_fds heap cells
replica_fds_kept p c c' heap [] at r f = refl
replica_fds_kept p c c' heap (none ∷ cells) at r f = replica_fds_kept p c c' heap cells at r f
replica_fds_kept p c c' heap (some q ∷ cells) at r f =
    let ih = replica_fds_kept p c c' heap cells at r f in
    elim (Bool-cases (p == q)) [
      | inl same ↦
          let found : heap q ≡ some c = rw (← (==_iff p q).0 same) at in
          ground (arith, same, found, ih, r, f)
      | inr apart ↦ ground (arith, apart, ih)
    ]
