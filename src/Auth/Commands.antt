-- ===== src/Auth/Commands.antt =====
-- `sha256_hex`, `handle_getuser`, `handle_setuser`, `handle_acl`, `handle_auth` of
-- src/auth_handler.c.
use codecrafters_redis_c.Base.{
  ℕ, ◌+◌, ◌-◌, ◌/◌, ◌%◌, Bytes, codes, str_eq, [], ◌∷◌, ◌++◌, Bool, true, false, ◌||◌, length, ltb,
  ◌==◌, if◌then◌else◌,
}
use codecrafters_redis_c.Outcome.{done}
use codecrafters_redis_c.Libc.{bulk, upper}
use codecrafters_redis_c.Resp.Request.{Request}
use codecrafters_redis_c.Server.{Address}
use codecrafters_redis_c.Server.Exec.{
  Exec, ◌>>=◌, ◌>>◌, pure, gets, send, formatted, load, store, arg,
}

abbrev pub hex_digit : ℕ → ℕ
hex_digit n = if ltb n 10 then b'0' + n else b'a' + (n - 10)

-- "%02x" for each byte
unfoldable pub hex : Bytes → Bytes
hex [] = []
hex (b ∷ bs) = hex_digit (b / 16) ∷ hex_digit (b % 16) ∷ hex bs

unfoldable pub handle_getuser : Request → Address → Exec (Unit {0})
unfolding upper
handle_getuser req p = do
  name ← arg req 1
  c ← load p
  nopass ← gets (λ s. s.default_has_nopass)
  password ← gets (λ s. s.default_password)
  if str_eq (upper name) (codes "DEFAULT")
      then (if nopass
          then send c.fd
              (codes "*4\r\n$5\r\nflags\r\n*1\r\n$6\r\nnopass\r\n$9\r\npasswords\r\n*0\r\n")
          else send c.fd (
              formatted 1026
                (codes "*4\r\n$5\r\nflags\r\n*0\r\n$9\r\npasswords\r\n*1\r\n" ++ bulk password)))
      else send c.fd (codes "*2\r\n$5\r\nflags\r\n*0\r\n")

-- The password behind `>`, or `undefined` for a text that does not begin with it.
abbrev pub begins_with_greater : Bytes → Bool
begins_with_greater [] = false
begins_with_greater (c ∷ s) = c == b'>'

abbrev pub behind_first : Bytes → Bytes
behind_first [] = []
behind_first (c ∷ s) = s

module _ (sha256 : Bytes → Bytes) where
  unfoldable pub sha256_hex : Bytes → Bytes
  unfolding hex
  sha256_hex input = hex (sha256 input)

  -- The password of another user than `default` is not kept, and nothing is sent.
  unfoldable pub set_default : Bytes → Bytes → Address → Exec (Unit {0})
  unfolding sha256_hex upper
  set_default name word p = do
    c ← load p
    (λ s. done (tt, record s { default_has_nopass = false }))
    if str_eq (upper name) (codes "DEFAULT")
        then (do
          (λ s. done (tt, record s { default_password = sha256_hex (behind_first word) }))
          send c.fd (codes "+OK\r\n"))
        else pure tt

  unfoldable pub handle_setuser : Request → Address → Exec (Unit {0})
  unfolding set_default
  handle_setuser req p = do
    c ← load p
    if ltb (length req.args) 3 then send c.fd (codes "-ERR bad request sonion\r\n") else (do
      name ← arg req 1
      word ← arg req 2
      if begins_with_greater word
          then set_default name word p
          else send c.fd (codes "-ERR bad request sonion\r\n"))

  unfoldable pub acl_whoami : Address → Exec (Unit {0})
  acl_whoami p = do
    c ← load p
    nopass ← gets (λ s. s.default_has_nopass)
    if c.is_auth || nopass
        then send c.fd (codes "$7\r\ndefault\r\n")
        else send c.fd (codes "-NOAUTH Authentication required.\r\n")

  unfoldable pub handle_acl : Request → Address → Exec (Unit {0})
  unfolding handle_getuser handle_setuser acl_whoami upper
  handle_acl req p = do
    given ← arg req 0
    if str_eq (upper given) (codes "WHOAMI")
        then acl_whoami p
        else if str_eq (upper given) (codes "GETUSER")
        then handle_getuser req p
        else if str_eq (upper given) (codes "SETUSER")
        then (do handle_setuser req p; c ← load p; store p (record c { is_auth = true }))
        else pure tt

  unfoldable pub handle_auth : Request → Address → Exec (Unit {0})
  unfolding sha256_hex
  handle_auth req p = if ltb (length req.args) 2 then pure tt else (do
    word ← arg req 1
    password ← gets (λ s. s.default_password)
    c ← load p
    if str_eq password (sha256_hex word)
        then (do store p (record c { is_auth = true }); send c.fd (codes "+OK\r\n"))
        else send c.fd (codes "-WRONGPASS invalid username-password pair or user is disabled\r\n"))
