-- ===== src/Loop/Pipeline.antt =====
-- A buffer of several requests.
use mathlib.Core.Path.{fun_ext}
use codecrafters_redis_c.Base.{
  ℕ, zero, suc, ◌<◌, ◌≤◌, Bytes, codes, List, [], ◌∷◌, ◌++◌, some, ◌≡◌, ◌≢◌, refl, sym, ap, ◌∙◌,
  arith, length, length-append, append-nil, All,
}
use codecrafters_redis_c.Outcome.{done}
use codecrafters_redis_c.Resp.Command.{cmd_to_string}
use codecrafters_redis_c.Resp.Request.{Request}
use codecrafters_redis_c.Resp.Encode.{encoded_parts, array_header}
use codecrafters_redis_c.Resp.Parse.{parse}
use codecrafters_redis_c.Resp.RoundTrip.{IsArg, encoding, parse-encoding}
use codecrafters_redis_c.Server.{Server, Address}
use codecrafters_redis_c.Server.Exec.{Exec, ◌>>=◌, ◌>>◌, pure, lift}
use codecrafters_redis_c.Loop.Buffer.{skip_to_star, serve, found, round, process, receive}

-- A request that the encoding keeps.
pub record IsEncodable (req : Request) : Type 0 where
  pub named : cmd_to_string req.command ≢ codes "UNKNOWN"
  pub short : All IsArg req.args
  pub few : length req.args ≤ 16

-- The requests one behind the other, and the bytes of a buffer that is then received in full.
abbrev pub encode_all : List Request → Bytes
encode_all [] = []
encode_all (req ∷ reqs) = encoding req ++ encode_all reqs

begins_with_star :
    (req : Request) (rest : Bytes) → (more : Bytes) × (encoding req ++ rest ≡ b'*' ∷ more)
unfolding encoded_parts array_header
begins_with_star req rest = (_, refl)

module _ (handle : Request → Address → Exec (Unit {0})) where
  -- Each request is handled, and then counted and passed on.
  abbrev pub serve_all : List Request → Address → Exec (Unit {0})
  serve_all [] p = pure tt
  serve_all (req ∷ reqs) p = serve handle req (length (encoding req)) p >> serve_all reqs p

  process_found :
      (n : ℕ) (p : Address) (more rest : Bytes) (req : Request) (len : ℕ) (s : Server)
      → parse (record { rest = some (b'*' ∷ more); offset = 0 })
        ≡ done (some (req, record { rest = some rest; offset = len }))
      → process handle (suc n) p (b'*' ∷ more) s
        ≡ (serve handle req len p >> process handle n p rest) s
  unfolding process skip_to_star round found
  process_found n p more rest req len s parsed =
      ap (λ o. (lift o >>= found handle (process handle n p) p more) s) parsed

  process_one :
      (n : ℕ) (p : Address) (req : Request) (rest : Bytes) (s : Server)
      → IsEncodable req
      → process handle (suc n) p (encoding req ++ rest) s
        ≡ (serve handle req (length (encoding req)) p >> process handle n p rest) s
  process_one n p req rest s ok =
      let (more, star) = begins_with_star req rest in
      let parsed = parse-encoding req rest ok.named ok.short ok.few in
      ap (λ b. process handle (suc n) p b s) star
      ∙ process_found n p more rest req (length (encoding req)) s
          (ap (λ b. parse (record { rest = some b; offset = 0 })) (sym star) ∙ parsed)

  empty_done : (n : ℕ) (p : Address) (s : Server) → process handle (suc n) p [] s ≡ done (tt, s)
  unfolding process skip_to_star round
  empty_done n p s = refl

  process_each :
      (n : ℕ) (p : Address) (reqs : List Request) (s : Server)
      → All IsEncodable reqs
      → length reqs < n
      → process handle n p (encode_all reqs) s ≡ serve_all reqs p s
  process_each zero p reqs s ok enough = absurd (omega arith)
  process_each (suc n) p [] s ok enough = empty_done n p s
  process_each (suc n) p (req ∷ reqs) s (first, ok) enough =
      process_one n p req (encode_all reqs) s first
      ∙ ap (λ (k : Exec (Unit {0})). (serve handle req (length (encoding req)) p >> k) s)
          (fun_ext λ s'. process_each n p reqs s' ok (omega arith))

  long_enough : (reqs : List Request) → length reqs ≤ length (encode_all reqs)
  long_enough [] = omega arith
  long_enough (req ∷ reqs) =
      let (more, star) = begins_with_star req (encode_all reqs) in
      let (more', star') = begins_with_star req [] in
      omega (
        arith,
        long_enough reqs,
        length-append (encoding req) (encode_all reqs),
        ap length (sym (append-nil (encoding req)) ∙ star'),
      )

  -- A buffer that holds the encodings of several requests, one behind the other, each with a named
  -- command and at most 16 arguments of at most 255 bytes, without carriage returns and NULs: the
  -- loop handles each of them once, in their order, with the accounting of each before the next, and
  -- stops. This holds whatever handling a request does.
  pub receive-encode_all :
      (p : Address) (reqs : List Request) (s : Server)
      → All IsEncodable reqs
      → receive handle p (encode_all reqs) s ≡ serve_all reqs p s
  unfolding receive
  receive-encode_all p reqs s ok =
      process_each (suc (length (encode_all reqs))) p reqs s ok (omega (arith, long_enough reqs))
