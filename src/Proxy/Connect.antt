-- ===== src/Proxy/Connect.antt =====
-- src/proxy.rs: `ProxyConfig::connect`, one attempt to open a tunnel.
pub mod Tunnels
use nyasniproxy.Base.{
  Bool, true, false, List, [], ◌∷◌, ◌++◌, Option, Bytes, Result, Error, ok, err, ◌≡◌, refl, sym, ap,
  ◌∙◌, arith, ◌>>=◌, ◌>>◌, bail_if, not, bind-eq-ok, append-nil, subst, or_fail, if◌then◌else◌,
}
use nyasniproxy.Base.Stream.{Read, got, Outcome, done, failed, waiting, timeout, received}
use nyasniproxy.Http.{blank_line}
use nyasniproxy.Target.{Target}
use nyasniproxy.Proxy.{
  Url, ProxyKind, http, https, socks5, ProxyConfig, parse, kind_of_scheme, is_https,
}
use nyasniproxy.Proxy.Conn.{Conn}
use nyasniproxy.Proxy.Wire.{Wire}
use nyasniproxy.Proxy.HttpConnect.{http_connect, connect_request}
use nyasniproxy.Proxy.HttpConnect.Accepted.{http_connect-Opens}
use nyasniproxy.Proxy.Socks.{socks5_connect}
use nyasniproxy.Proxy.Socks.Keeps.{socks5_connect-Keeps}
use nyasniproxy.Proxy.Prefixed.{PrefixedStream, new, pending}
use nyasniproxy.Proxy.Tunnel.{ProxyStream, plain, tls_stream, inner, output}

-- What one attempt meets, each part up to its deadline: the TCP connection, whether the host is
-- a TLS server name, the TLS handshake, and the stream behind them, as an HTTP proxy's read by
-- read (through TLS for an HTTPS one) and as the bytes of a SOCKS5 proxy's.
pub record Attempt : Type 0 where
  pub tcp : Outcome (Unit {0})
  pub valid_server_name : Bool
  pub tls : Outcome (Unit {0})
  pub wire : Wire
  pub conn : Conn

-- `timeout(..).await.context(timed_out)?.context(broken_off)?`: both contexts replace messages.
abbrev pub timed {ℓ} : {A : Type ℓ} → Error → Error → Outcome A → Result A
timed timed_out broken_off (done a) = ok a
timed timed_out broken_off (failed e) = err broken_off
timed timed_out broken_off waiting = err timed_out

open_tunnel : (PrefixedStream → ProxyStream) → Outcome Bytes × Wire → Result ProxyStream
unfolding new
open_tunnel wrap (r, w) = do prefix ← timeout Error.handshake_timed_out r; ok (wrap (new w prefix))

closing : Bool → List Read
closing closed = if closed then got [] ∷ [] else []

-- The reads of a SOCKS5 tunnel: the bytes that the handshake has not read, and the end behind them
-- if the proxy has closed its side; without bytes and without an end the next read waits.
socks_reads : Bytes → Bool → List Read
unfolding closing
socks_reads [] closed = closing closed
socks_reads (c ∷ s) closed = got (c ∷ s) ∷ closing closed

-- The stream of a SOCKS5 tunnel.
socks_stream : Wire → Conn → Wire
unfolding socks_reads
socks_stream w c = record w { reads = socks_reads c.input c.closed; output = c.output }

connect_http : (Bytes → Bytes) → ProxyConfig → Target → Attempt → Result ProxyStream
unfolding open_tunnel
connect_http base64 cfg t a = do
  timed Error.connect_timed_out Error.connect_failed a.tcp
  open_tunnel plain (http_connect base64 cfg t a.wire)

connect_https : (Bytes → Bytes) → ProxyConfig → Target → Attempt → Result ProxyStream
unfolding open_tunnel
connect_https base64 cfg t a = do
  timed Error.connect_timed_out Error.connect_failed a.tcp
  bail_if (not cfg.tls_connector) Error.connector_missing
  bail_if (not a.valid_server_name) Error.invalid_server_name
  timed Error.handshake_timed_out Error.tls_handshake_failed a.tls
  open_tunnel tls_stream (http_connect base64 cfg t a.wire)

after_socks : Wire → Outcome (Unit {0}) × Conn → Result ProxyStream
unfolding socks_stream new
after_socks w (r, c) = do
  timeout Error.handshake_timed_out r
  ok (plain (new (socks_stream w c) []))

connect_socks5 : ProxyConfig → Target → Attempt → Result ProxyStream
unfolding after_socks
connect_socks5 cfg t a = do
  timed Error.connect_timed_out Error.connect_failed a.tcp
  after_socks a.wire (socks5_connect cfg t a.conn)

connect_kind : ProxyKind → (Bytes → Bytes) → ProxyConfig → Target → Attempt → Result ProxyStream
unfolding connect_http connect_https connect_socks5
connect_kind http base64 cfg t a = connect_http base64 cfg t a
connect_kind https base64 cfg t a = connect_https base64 cfg t a
connect_kind socks5 base64 cfg t a = connect_socks5 cfg t a

-- `ProxyConfig::connect`, with the encoder of the `base64` crate as a parameter.
unfoldable pub connect : (Bytes → Bytes) → ProxyConfig → Target → Attempt → Result ProxyStream
unfolding connect_kind
connect base64 cfg t a = connect_kind cfg.kind base64 cfg t a

-- A parsed proxy has a TLS connector exactly if its scheme is `https`.
pub parse-connector :
    (parse_url : Bytes → Option Url) (raw : Bytes) {cfg : ProxyConfig}
    → parse parse_url raw ≡ ok cfg
    → cfg.tls_connector ≡ is_https cfg.kind
unfolding parse
parse-connector parse_url raw e =
    let (url, p1, e1) = bind-eq-ok (or_fail (parse_url raw) Error.parse_proxy_url_failed) _ e in
    let (kind, p2, e2) = bind-eq-ok (kind_of_scheme url.scheme) _ e1 in
    let (host, p3, e3) = bind-eq-ok (or_fail url.host_str Error.missing_host) _ e2 in
    let (port, p4, e4) = bind-eq-ok (or_fail url.port_or_known_default Error.missing_port) _ e3 in
    ground arith
