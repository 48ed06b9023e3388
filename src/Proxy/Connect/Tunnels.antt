-- ===== src/Proxy/Connect/Tunnels.antt =====
-- src/proxy.rs: what `ProxyConfig::connect` establishes when it opens a tunnel.
use nyasniproxy.Base.{
  ok_same, Bool, true, false, [], ◌∷◌, ◌++◌, Bytes, Error, ok, ◌≡◌, refl, sym, ap, ◌∙◌, arith,
  bail_if, not, bind-eq-ok, append-nil, subst, length,
}
use nyasniproxy.Base.Stream.{Outcome, done, failed, waiting, timeout, received}
use nyasniproxy.Http.{header_end, blank_line}
use nyasniproxy.Target.{Target}
use nyasniproxy.Proxy.{ProxyKind, http, https, socks5, ProxyConfig}
use nyasniproxy.Proxy.Conn.{Conn}
use nyasniproxy.Proxy.Wire.{Wire}
use nyasniproxy.Proxy.HttpConnect.{http_connect, connect_request}
use nyasniproxy.Proxy.Socks.{socks5_connect}
use nyasniproxy.Proxy.Prefixed.{PrefixedStream, new, pending}
use nyasniproxy.Proxy.Tunnel.{ProxyStream, plain, tls_stream, inner, output}
use nyasniproxy.Base.{some, codes}
use nyasniproxy.Base.Utf8.{split_whitespace}
use nyasniproxy.Proxy.{password_text}
use nyasniproxy.Proxy.HttpConnect.{first_line, second}
use nyasniproxy.Proxy.HttpConnect.Accepted.{http_connect-Opens}
use nyasniproxy.Proxy.Socks.{request_bytes}
use nyasniproxy.Proxy.Socks.Negotiated.{Negotiates}
use nyasniproxy.Proxy.Socks.Granted.{IsReply, socks5_connect-IsGranted}
use nyasniproxy.Proxy.Connect.{
  Attempt, timed, open_tunnel, socks_reads, socks_stream, connect_http, connect_https, after_socks,
  connect_socks5, connect_kind, connect,
}

-- A tunnel through an HTTP or HTTPS proxy: the proxy was sent the CONNECT request, and what is
-- pending stands behind the first blank line of its answer, whose first line has the second word
-- `200`.
pub record HttpTunnel (request : Bytes) (w : Wire) (s : ProxyStream) : Type 0 where
  pub header : Bytes
  pub first :
      header_end (header ++ (blank_line ++ PrefixedStream.prefix (inner s))) ≡ some (length header)
  pub conserved : header ++ (blank_line ++ pending (inner s)) ≡ received w.reads
  pub status : Bytes
  pub status_line : first_line header ≡ some status
  pub accepted : second (split_whitespace status) ≡ some (codes "200")
  pub requested : output s ≡ w.output ++ request

-- A tunnel through a SOCKS5 proxy: the proxy has selected a method and sent a successful reply,
-- was sent the greeting and the request, and what is pending stands behind its reply.
pub record SocksTunnel (cfg : ProxyConfig) (t : Target) (c : Conn) (s : ProxyStream) : Type 0 where
  pub selection : Bytes
  pub hello : Bytes
  pub reply : Bytes
  pub negotiated : Negotiates cfg.username (password_text cfg) selection hello
  pub replied : IsReply reply
  pub conserved : (selection ++ reply) ++ pending (inner s) ≡ c.input
  pub requested : output s ≡ c.output ++ (hello ++ request_bytes t)

abbrev pub TunnelOf :
    ProxyKind → (Bytes → Bytes) → ProxyConfig → Target → Attempt → ProxyStream → Type 0
TunnelOf http base64 cfg t a s = HttpTunnel (connect_request base64 cfg t) a.wire s
TunnelOf https base64 cfg t a s = HttpTunnel (connect_request base64 cfg t) a.wire s
TunnelOf socks5 base64 cfg t a s = SocksTunnel cfg t a.conn s

timeout-ok : {A : Type 0} (e : Error) (o : Outcome A) {a : A} → timeout e o ≡ ok a → o ≡ done a
timeout-ok e (done b) h = ground arith
timeout-ok e (failed x) h = cc
timeout-ok e waiting h = cc

open_tunnel-HttpTunnel :
    (base64 : Bytes → Bytes) (cfg : ProxyConfig) (t : Target) (w : Wire)
    (wrap : PrefixedStream → ProxyStream) (r : Outcome Bytes) (w' : Wire) {s : ProxyStream}
    → ((q : PrefixedStream) → inner (wrap q) ≡ q)
    → http_connect base64 cfg t w ≡ (r, w')
    → open_tunnel wrap (r, w') ≡ ok s
    → HttpTunnel (connect_request base64 cfg t) w s
unfolding open_tunnel new
open_tunnel-HttpTunnel base64 cfg t w wrap r w' {s} same run e =
    let (prefix, finished, returned) = bind-eq-ok (timeout Error.handshake_timed_out r) _ e in
    let v =
      http_connect-Opens base64 cfg t w
        (run ∙ ap (λ o. (o, w')) (timeout-ok Error.handshake_timed_out r finished)) in
    let q : PrefixedStream = record { stream = w'; prefix = prefix; prefix_offset = 0 } in
    subst (HttpTunnel (connect_request base64 cfg t) w) (ok_same returned) (record {
      header = v.accepted.header;
      first =
          ap (λ q. header_end (v.accepted.header ++ (blank_line ++ PrefixedStream.prefix q)))
            (same q)
          ∙ v.accepted.first;
      conserved =
          ap (λ q. v.accepted.header ++ (blank_line ++ pending q)) (same q) ∙ v.accepted.conserved;
      status = v.accepted.status;
      status_line = v.accepted.status_line;
      accepted = v.accepted.accepted;
      requested = ap (λ q. Wire.output (PrefixedStream.stream q)) (same q) ∙ v.sent;
    })

socks_reads_bytes : (input : Bytes) (closed : Bool) → received (socks_reads input closed) ≡ input
unfolding socks_reads
socks_reads_bytes [] true = refl
socks_reads_bytes [] false = refl
socks_reads_bytes (c ∷ s) true = append-nil (c ∷ s)
socks_reads_bytes (c ∷ s) false = append-nil (c ∷ s)

after_socks-SocksTunnel :
    (cfg : ProxyConfig) (t : Target) (w : Wire) (from : Conn) (r : Outcome (Unit {0})) (c : Conn)
    {s : ProxyStream}
    → socks5_connect cfg t from ≡ (r, c)
    → after_socks w (r, c) ≡ ok s
    → SocksTunnel cfg t from s
unfolding after_socks socks_stream new
after_socks-SocksTunnel cfg t w from r c run e =
    let (u, fine, returned) = bind-eq-ok (timeout Error.handshake_timed_out r) _ e in
    let g =
      socks5_connect-IsGranted cfg t from
        (run ∙ ap (λ o. (o, c)) (timeout-ok Error.handshake_timed_out r fine)) in
    subst (SocksTunnel cfg t from) (ok_same returned) (record {
      selection = g.selection;
      hello = g.hello;
      reply = g.reply;
      negotiated = g.negotiated;
      replied = g.replied;
      conserved =
          ap (◌++◌ (g.selection ++ g.reply)) (socks_reads_bytes c.input c.closed)
          ∙ sym g.exchanged.input_is;
      requested = g.exchanged.output_is;
    })

connect_kind-TunnelOf :
    (k : ProxyKind) (base64 : Bytes → Bytes) (cfg : ProxyConfig) (t : Target) (a : Attempt)
    {s : ProxyStream}
    → connect_kind k base64 cfg t a ≡ ok s
    → TunnelOf k base64 cfg t a s
unfolding connect_kind connect_http connect_https connect_socks5
connect_kind-TunnelOf http base64 cfg t a e =
    let (u, tcp, later) =
      bind-eq-ok (timed Error.connect_timed_out Error.connect_failed a.tcp) _ e in
    open_tunnel-HttpTunnel base64 cfg t a.wire plain _ _ (λ q. refl) refl later
connect_kind-TunnelOf https base64 cfg t a e =
    let (u, tcp, l1) = bind-eq-ok (timed Error.connect_timed_out Error.connect_failed a.tcp) _ e in
    let (v, connector, l2) =
      bind-eq-ok (bail_if (not cfg.tls_connector) Error.connector_missing) _ l1 in
    let (w, named, l3) =
      bind-eq-ok (bail_if (not a.valid_server_name) Error.invalid_server_name) _ l2 in
    let (x, secured, l4) =
      bind-eq-ok (timed Error.handshake_timed_out Error.tls_handshake_failed a.tls) _ l3 in
    open_tunnel-HttpTunnel base64 cfg t a.wire tls_stream _ _ (λ q. refl) refl l4
connect_kind-TunnelOf socks5 base64 cfg t a e =
    let (u, tcp, later) =
      bind-eq-ok (timed Error.connect_timed_out Error.connect_failed a.tcp) _ e in
    after_socks-SocksTunnel cfg t a.wire a.conn _ _ refl later

-- A tunnel is opened only by a proxy that has granted it: an HTTP or HTTPS proxy by a first line
-- whose second word is `200`, a SOCKS5 proxy by a method that the client has offered, by accepting
-- the credentials if it asks for them, and by a reply of version 5 with code 0. It has been sent
-- exactly the CONNECT request, or the greeting and the request, for the target. The bytes that the
-- tunnel delivers are exactly those that the proxy sent behind its answer, for an HTTP or HTTPS
-- proxy behind the first blank line that it sent: none is lost, repeated or out of order.
pub connect-TunnelOf :
    (base64 : Bytes → Bytes) (cfg : ProxyConfig) (t : Target) (a : Attempt) {s : ProxyStream}
    → connect base64 cfg t a ≡ ok s
    → TunnelOf cfg.kind base64 cfg t a s
unfolding connect
connect-TunnelOf base64 cfg t a e = connect_kind-TunnelOf cfg.kind base64 cfg t a e
