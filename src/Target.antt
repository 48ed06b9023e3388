-- ===== src/Target.antt =====
-- src/target.rs: a host and a port, and the host names that the rules may hold.
pub mod HostPort
pub mod Hostname
use nyasniproxy.Base.{
  ℕ, ◌<◌, Bool, true, false, not, ◌&&◌, ◌||◌, List, [], ◌∷◌, ◌++◌, Option, none, some, Bytes,
  Result, Error, ok, err, ◌>>=◌, or_fail, ltb, ◌==◌, if◌then◌else◌, length, all, is_empty,
  is_ascii_alphanumeric,
}
use nyasniproxy.Base.Text.{
  contains, starts_with_byte, ends_with_byte, split_once, rsplit_once, split,
}
use nyasniproxy.Base.Decimal.{parse_u16, to_decimal}

-- `port` is below 2^16; `host` is text.
pub record Target : Type 0 where
  pub host : Bytes
  pub port : ℕ

-- `port.parse().context("invalid port")`.
parse_port : Bytes → Result ℕ
parse_port s = or_fail (parse_u16 s) Error.invalid_port

with_port : Bytes → Bytes → Result Target
unfolding parse_port
with_port host port = do p ← parse_port port; ok (record { host = host; port = p })

-- What stands behind the closing bracket.
bracket_suffix : Bytes → Bytes → ℕ → Result Target
unfolding with_port
bracket_suffix host [] default_port = ok (record { host = host; port = default_port })
bracket_suffix host (c ∷ port) default_port =
    if c == b':' then with_port host port else err Error.invalid_bracketed_suffix

parse_bracketed : Bytes → ℕ → Result Target
unfolding bracket_suffix
parse_bracketed s default_port = elim (split_once s b']') [
  | none ↦ err Error.invalid_bracketed_host
  | some (host, rest) ↦ bracket_suffix host rest default_port
]

parse_plain : Bytes → ℕ → Result Target
unfolding with_port
parse_plain value default_port = elim (rsplit_once value b':') [
  | none ↦ ok (record { host = value; port = default_port })
  | some (host, port) ↦
      if not (contains host b':') && not (is_empty port)
      then with_port host port
      else ok (record { host = value; port = default_port })
]

unfoldable pub parse_host_port : Bytes → ℕ → Result Target
unfolding parse_bracketed parse_plain
parse_host_port [] default_port = err Error.empty_host
parse_host_port (c ∷ s) default_port =
    if c == b'[' then parse_bracketed s default_port else parse_plain (c ∷ s) default_port

unfoldable pub format_target : Target → Bytes
format_target t =
    if contains t.host b':' && not (starts_with_byte t.host b'[')
    then b'[' ∷ (t.host ++ (b']' ∷ b':' ∷ to_decimal t.port))
    else t.host ++ (b':' ∷ to_decimal t.port)

abbrev last_byte : ℕ → Bytes → ℕ
last_byte c [] = c
last_byte c (d ∷ s) = last_byte d s

unfoldable pub is_valid_dns_label : Bytes → Bool
is_valid_dns_label [] = false
is_valid_dns_label (c ∷ s) =
    if ltb 63 (length (c ∷ s))
    then false
    else is_ascii_alphanumeric c
      && is_ascii_alphanumeric (last_byte c s)
      && all (λ b. is_ascii_alphanumeric b || b == b'-') (c ∷ s)

unfoldable pub is_valid_hostname : Bytes → Bool
is_valid_hostname host =
    if is_empty host
      || ltb 253 (length host)
      || starts_with_byte host b'.'
      || ends_with_byte host b'.'
    then false
    else all is_valid_dns_label (split host b'.')
