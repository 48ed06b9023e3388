-- ===== src/Proxy.antt =====
-- src/proxy.rs: the upstream proxies, and the opening of a tunnel through one.
pub mod Conn
pub mod Wire
pub mod HttpConnect
pub mod Socks
pub mod Prefixed
pub mod Redacted
pub mod Tunnel
pub mod Connect
use nyasniproxy.Base.{
  ℕ, ◌+◌, Bool, true, false, not, List, [], ◌∷◌, ◌++◌, Option, none, some, Bytes, codes, Result,
  Error, ok, err, ◌>>=◌, or_fail, if◌then◌else◌, is_empty, bytes_eq,
}

-- What `Url::parse` of the `url` crate returns, by the accessors that the program calls.
pub record Url : Type 0 where
  pub scheme : Bytes
  pub host_str : Option Bytes
  pub port_or_known_default : Option ℕ
  pub username : Bytes
  pub password : Option Bytes

pub data ProxyKind : Type 0 where
  http https socks5 : ProxyKind

-- `tls_connector` is kept as whether there is one.
pub record ProxyConfig : Type 0 where
  pub kind : ProxyKind
  pub host : Bytes
  pub port : ℕ
  pub username : Option Bytes
  pub password : Option Bytes
  pub tls_connector : Bool

unfoldable pub kind_of_scheme : Bytes → Result ProxyKind
kind_of_scheme scheme =
    if bytes_eq scheme (codes "http")
    then ok http
    else if bytes_eq scheme (codes "https")
    then ok https
    else if bytes_eq scheme (codes "socks5")
    then ok socks5
    else err Error.unsupported_scheme

abbrev pub is_https : ProxyKind → Bool
is_https https = true
is_https _ = false

-- `ProxyConfig::parse`, with `Url::parse` as a parameter.
unfoldable pub parse : (Bytes → Option Url) → Bytes → Result ProxyConfig
parse parse_url raw = do
  url ← or_fail (parse_url raw) Error.parse_proxy_url_failed
  kind ← kind_of_scheme url.scheme
  host ← or_fail url.host_str Error.missing_host
  port ← or_fail url.port_or_known_default Error.missing_port
  ok (record {
    kind = kind;
    host = host;
    port = port;
    username = if is_empty url.username then none else some url.username;
    password = url.password;
    tls_connector = is_https kind;
  })

-- `basic_auth_header`, with the encoder of the `base64` crate as a parameter.
abbrev pub password_text : ProxyConfig → Bytes
password_text cfg = elim cfg.password [ none ↦ [] | some p ↦ p ]

unfoldable pub basic_auth_header : (Bytes → Bytes) → ProxyConfig → Option Bytes
basic_auth_header base64 cfg = elim cfg.username [
  | none ↦ none
  | some username ↦ some (base64 (username ++ (b':' ∷ password_text cfg)))
]
