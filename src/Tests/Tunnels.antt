-- ===== src/Tests/Tunnels.antt =====
-- src/proxy.rs against concrete proxies.
use nyasniproxy.Base.{
  ℕ, ◌<◌, Bool, true, false, List, [], ◌∷◌, ◌++◌, Option, none, some, Bytes, codes, Result, Error,
  ok, err, ◌≡◌, refl, arith, length,
}
use nyasniproxy.Base.Utf8.{is_utf8, split_whitespace}
use nyasniproxy.Base.Stream.{Read, got, done}
use nyasniproxy.Http.{header_end}
use nyasniproxy.Target.{Target}
use nyasniproxy.Proxy.{ProxyKind, https, socks5, ProxyConfig, is_https}
use nyasniproxy.Proxy.Socks.{socks5_connect, request_bytes}
use nyasniproxy.Proxy.Socks.Accepted.{
  ipv4, live, selection_onto, reply_onto, hello_bytes, socks5_connect-live,
}
use nyasniproxy.Proxy.Wire.{Wire, takes}
use nyasniproxy.Proxy.HttpConnect.{http_connect, connect_request}
use nyasniproxy.Proxy.Prefixed.{PrefixedStream, new}
use nyasniproxy.Proxy.Tunnel.{
  tls_stream, read, write, flush, shutdown, IsDuplex, apply_all, apply_all-IsDuplex,
}
use nyasniproxy.Proxy.Connect.{Attempt, connect}
use nyasniproxy.Proxy.Connect.Tunnels.{TunnelOf, connect-TunnelOf}

abbrev upstream : ProxyKind → ProxyConfig
upstream kind = record {
  kind = kind;
  host = codes "p";
  port = 1080;
  username = some (codes "u");
  password = some (codes "pw");
  tls_connector = is_https kind;
}

abbrev target : Target
target = record { host = codes "a.b"; port = 443 }

socks5_connect-live_example :
    socks5_connect (upstream socks5) target (
      live
        (selection_onto (some (codes "u")) (reply_onto (ipv4 (0 ∷ 0 ∷ 0 ∷ 0 ∷ [])) 0 0 (codes "t")))
        false
        [])
    ≡ (
      done tt,
      live
          (codes "t")
          false
          (([] ++ hello_bytes (some (codes "u")) (codes "pw")) ++ request_bytes target),
    )
socks5_connect-live_example =
    socks5_connect-live (upstream socks5) target (ipv4 (0 ∷ 0 ∷ 0 ∷ 0 ∷ [])) 0 0 (codes "t") false
      [] (omega arith, omega arith) (omega arith) refl

-- The proxy takes the request in two writes, and answers in three reads.
abbrev wire : List Read → Bytes → Wire
wire reads output = record {
  reads = reads;
  rooms = takes 30 ∷ takes 1000 ∷ [];
  on_flush = done tt;
  on_shutdown = done tt;
  output = output;
  shut = false;
}

abbrev replies : List Read
replies = got (codes "HTTP/1.1 200 OK\r\n") ∷ got (codes "\r\nab") ∷ got (codes "c") ∷ []

abbrev same_text : Bytes → Bytes
same_text s = s

abbrev request : Bytes
request = connect_request same_text (upstream https) target

abbrev stream : PrefixedStream
stream = record { stream = wire (got (codes "cd") ∷ []) []; prefix = codes "ab"; prefix_offset = 1 }

apply_all-IsDuplex_example :
    IsDuplex
      (tls_stream stream)
      (apply_all (read 1 ∷ write (codes "xy") ∷ flush ∷ read 1 ∷ shutdown ∷ []) (tls_stream stream))
apply_all-IsDuplex_example =
    apply_all-IsDuplex (read 1 ∷ write (codes "xy") ∷ flush ∷ read 1 ∷ shutdown ∷ [])
      (tls_stream stream)

abbrev attempt : Attempt
attempt = record {
  tcp = done tt;
  valid_server_name = true;
  tls = done tt;
  wire = wire replies [];
  conn = record { input = []; closed = true; writable = true; output = [] };
}

connect-TunnelOf_example :
    TunnelOf https same_text
      (upstream https)
      target
      attempt
      (tls_stream (new (record (wire (got (codes "c") ∷ []) request) { rooms = [] }) (codes "ab")))
unfolding connect http_connect nyasniproxy.Target.format_target nyasniproxy.Base.Decimal.to_decimal
    nyasniproxy.Proxy.basic_auth_header header_end nyasniproxy.Base.bytes_eq is_utf8
    split_whitespace
connect-TunnelOf_example = connect-TunnelOf same_text (upstream https) target attempt refl
