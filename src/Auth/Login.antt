-- ===== src/Auth/Login.antt =====
-- ACL SETUSER of the default user, and a later AUTH.
use codecrafters_redis_c.Base.{
  ℕ, ◌/◌, ◌%◌, ◌<◌, Bytes, codes, str_eq, str_eq_refl, List, [], ◌∷◌, ◌++◌, some, true, false, ◌&&◌,
  ◌≡◌, refl, ◌∙◌, arith, ◌==◌, All, if◌then◌else◌,
}
use codecrafters_redis_c.Outcome.{done}
use codecrafters_redis_c.Libc.{upper}
use codecrafters_redis_c.Resp.Command.{Command}
use codecrafters_redis_c.Server.{Server, Client, Address}
use codecrafters_redis_c.Server.Exec.{◌>>◌, run_then}
use codecrafters_redis_c.Auth.Commands.{
  hex_digit, hex, sha256_hex, set_default, handle_setuser, handle_acl, handle_auth,
}

-- The digits of a byte give it back.
str_eq-hex :
    (a b : Bytes)
    → All (λ c. c < 256) a
    → All (λ c. c < 256) b
    → str_eq (hex a) (hex b) ≡ str_eq a b
unfolding hex str_eq
str_eq-hex [] [] ha hb = refl
str_eq-hex [] (d ∷ b) ha hb = refl
str_eq-hex (c ∷ a) [] ha hb = refl
str_eq-hex (c ∷ a) (d ∷ b) (hc, ha) (hd, hb) =
    rw (str_eq-hex a b ha hb) (ground (arith, same_byte c d hc hd))
  where
    same_byte :
        (c d : ℕ)
        → c < 256
        → d < 256
        → ((hex_digit (c / 16) == hex_digit (d / 16)) && (hex_digit (c % 16) == hex_digit (d % 16)))
          ≡ (c == d)
    same_byte c d hc hd = ground arith

-- ACL SETUSER default >password
abbrev pub setuser_args : Bytes → Bytes → Bytes → List Bytes
setuser_args sub name password = sub ∷ name ∷ (b'>' ∷ password) ∷ []

-- The server with a password for the default user, set by the client behind `p`.
abbrev pub protected : (Bytes → Bytes) → Bytes → Address → Client → Server → Server
protected sha256 password p c s = record s {
  default_has_nopass = false;
  default_password = sha256_hex sha256 password;
  heap = λ q. if p == q then some (record c { is_auth = true }) else s.heap q;
  sent = s.sent ++ (c.fd, codes "+OK\r\n") ∷ [];
}

setuser_run :
    (sha256 : Bytes → Bytes) (cmd : Command) (sub name password : Bytes) (p : Address) (c : Client)
    (s : Server)
    → upper sub ≡ codes "SETUSER"
    → upper name ≡ codes "DEFAULT"
    → s.heap p ≡ some c
    → handle_acl sha256 (record { command = cmd; args = setuser_args sub name password }) p s
      ≡ done (tt, protected sha256 password p c s)
unfolding handle_acl handle_setuser set_default str_eq
setuser_run sha256 cmd sub name password p c s is_sub is_name at =
    rw is_sub (ground (arith, at, is_name, str_eq_refl (codes "DEFAULT")))

auth_run :
    (sha256 : Bytes → Bytes) (cmd : Command) (name password given : Bytes) (q : Address)
    (d : Client) (s : Server)
    → s.default_password ≡ sha256_hex sha256 password
    → All (λ b. b < 256) (sha256 password)
    → All (λ b. b < 256) (sha256 given)
    → s.heap q ≡ some d
    → handle_auth sha256 (record { command = cmd; args = name ∷ given ∷ [] }) q s
      ≡ done (
        tt,
        (if str_eq (sha256 password) (sha256 given)
            then record s {
              heap = λ r. if q == r then some (record d { is_auth = true }) else s.heap r;
              sent = s.sent ++ (d.fd, codes "+OK\r\n") ∷ [];
            }
            else record s {
              sent =
                  s.sent
                  ++ (
                    d.fd,
                    codes "-WRONGPASS invalid username-password pair or user is disabled\r\n",
                  )
                    ∷ [];
            }),
      )
unfolding handle_auth sha256_hex
auth_run sha256 cmd name password given q d s set small small' at =
    ground (arith, set, at, str_eq-hex (sha256 password) (sha256 given) small small')

-- A client sets a password for the default user with ACL SETUSER, in any spelling of the words, and
-- then a client, the same or another, sends AUTH with any user name and a password. Both return. If
-- both passwords have the same SHA-256 digest, the second client gets `+OK` and is authenticated;
-- otherwise it gets the error on wrong passwords, and its state stays. No password is stored but as
-- the digest in hexadecimal. The digest consists of bytes.
pub handle_auth-handle_acl :
    (sha256 : Bytes → Bytes) (cmd cmd' : Command) (sub name password user given : Bytes)
    (p q : Address) (c d : Client) (s : Server)
    → upper sub ≡ codes "SETUSER"
    → upper name ≡ codes "DEFAULT"
    → All (λ b. b < 256) (sha256 password)
    → All (λ b. b < 256) (sha256 given)
    → s.heap p ≡ some c
    → (protected sha256 password p c s).heap q ≡ some d
    → (handle_acl sha256 (record { command = cmd; args = setuser_args sub name password }) p
          >> handle_auth sha256 (record { command = cmd'; args = user ∷ given ∷ [] }) q)
        s
      ≡ done (
        tt,
        (if str_eq (sha256 password) (sha256 given)
            then record (protected sha256 password p c s) {
              heap = λ r.
                  if q == r
                  then some (record d { is_auth = true })
                  else (protected sha256 password p c s).heap r;
              sent = (s.sent ++ (c.fd, codes "+OK\r\n") ∷ []) ++ (d.fd, codes "+OK\r\n") ∷ [];
            }
            else record (protected sha256 password p c s) {
              sent =
                  (s.sent ++ (c.fd, codes "+OK\r\n") ∷ [])
                  ++ (
                    d.fd,
                    codes "-WRONGPASS invalid username-password pair or user is disabled\r\n",
                  )
                    ∷ [];
            }),
      )
handle_auth-handle_acl sha256 cmd cmd' sub name password user given p q c d s is_sub is_name small
      small' at at' =
    run_then (handle_acl sha256 (record { command = cmd; args = setuser_args sub name password }) p)
      (handle_auth sha256 (record { command = cmd'; args = user ∷ given ∷ [] }) q) s
      (setuser_run sha256 cmd sub name password p c s is_sub is_name at)
    ∙ auth_run sha256 cmd' user password given q d (protected sha256 password p c s) refl small
        small' at'
