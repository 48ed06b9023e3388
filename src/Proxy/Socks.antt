-- ===== src/Proxy/Socks.antt =====
-- src/proxy.rs: `socks5_connect` (RFC 1928 and RFC 1929).
pub mod Keeps
pub mod Accepted
pub mod Exchanged
pub mod Negotiated
pub mod Granted
use nyasniproxy.Base.{
  ℕ, ◌+◌, ◌*◌, ◌/◌, ◌%◌, ◌≤◌, ◌<◌, Bool, true, false, not, ◌||◌, List, [], ◌∷◌, ◌++◌, Option, none,
  some, Bytes, Error, ◌≡◌, refl, sym, ap, ap₂, ◌∙◌, arith, ltb, leb, le-ltb, ◌==◌, if◌then◌else◌,
  length, take, drop, bytes_eq, append_assoc, append-nil, length-append, take-length_append,
  drop-length_append,
}
use nyasniproxy.Base.Stream.{Outcome, done, failed, waiting}
use nyasniproxy.Target.{Target}
use nyasniproxy.Proxy.{ProxyConfig, password_text}
use nyasniproxy.Proxy.Conn.{Conn, M, and_then, ◌>>=◌, ◌>>◌, pure, fail, write_all, read_exact}

abbrev auth_bytes : Bytes → Bytes → Bytes
auth_bytes username password = 1 ∷ length username ∷ (username ++ (length password ∷ password))

authenticate : Bytes → Bytes → M (Unit {0})
authenticate username password =
    if ltb 255 (length username) || ltb 255 (length password)
    then fail Error.socks_credentials_too_long
    else do
      write_all (auth_bytes username password)
      auth_status ← read_exact 2
      if bytes_eq auth_status (1 ∷ 0 ∷ []) then pure tt else fail Error.socks_auth_failed

-- The `match selected` of a client with a user name.
selected_method : Bytes → Bytes → Bytes → M (Unit {0})
unfolding authenticate
selected_method username password selected =
    if bytes_eq selected (5 ∷ 2 ∷ [])
    then authenticate username password
    else if bytes_eq selected (5 ∷ 0 ∷ [])
    then pure tt
    else if bytes_eq selected (5 ∷ 255 ∷ [])
    then fail Error.socks_methods_rejected
    else fail Error.socks_invalid_selection

pub negotiate : Option Bytes → Bytes → M (Unit {0})
unfolding selected_method
negotiate (some username) password = do
  write_all (5 ∷ 2 ∷ 0 ∷ 2 ∷ [])
  selected ← read_exact 2
  selected_method username password selected
negotiate none password = do
  write_all (5 ∷ 1 ∷ 0 ∷ [])
  selected ← read_exact 2
  if bytes_eq selected (5 ∷ 0 ∷ []) then pure tt else fail Error.socks_auth_unsupported

abbrev pub request_bytes : Target → Bytes
request_bytes t = 5 ∷ 1 ∷ 0 ∷ 3 ∷ length t.host ∷ (t.host ++ ((t.port / 256) ∷ (t.port % 256) ∷ []))

send_request : Target → M (Unit {0})
send_request t =
    if ltb 255 (length t.host) then fail Error.socks_host_too_long else write_all (request_bytes t)

-- `read_exact` fills the buffer, so the last clause is not reached.
one_byte : Bytes → M ℕ
one_byte (n ∷ s) = pure n
one_byte [] = fail Error.read_failed

address_length : ℕ → M ℕ
unfolding one_byte
address_length atyp =
    if atyp == 1
    then pure 4
    else if atyp == 3
    then (do len ← read_exact 1; one_byte len)
    else if atyp == 4
    then pure 16
    else fail Error.socks_invalid_address_type

-- The four bytes of `head`; they are there, so the last clause is not reached.
reply_head : Bytes → M ℕ
unfolding address_length
reply_head (version ∷ code ∷ reserved ∷ atyp ∷ s) =
    if not (version == 5)
    then fail Error.socks_invalid_version
    else if not (code == 0)
    then fail (Error.socks_connect_code code)
    else address_length atyp
reply_head s = fail Error.read_failed

unfoldable pub socks5_connect : ProxyConfig → Target → M (Unit {0})
unfolding negotiate send_request reply_head
socks5_connect cfg t = do
  negotiate cfg.username (password_text cfg)
  send_request t
  head ← read_exact 4
  addr_len ← reply_head head
  skip ← read_exact (addr_len + 2)
  pure tt
