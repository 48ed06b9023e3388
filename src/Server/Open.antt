-- ===== src/Server/Open.antt =====
-- src/main.rs: what `handle_connection` sends where.
use nyasniproxy.Base.{ok_same, ℕ, List, ◌++◌, Bytes, Error, ok, ◌≡◌, bind-eq-ok, subst}
use nyasniproxy.Base.Stream.{Read, Outcome, done, failed, waiting, timeout, received}
use nyasniproxy.Target.{Target}
use nyasniproxy.Http.{parse_http_host, read_http_target}
use nyasniproxy.Http.ReadHeader.{read_http_target_lem}
use nyasniproxy.Tls.{found, parse_tls_sni, read_https_target}
use nyasniproxy.Tls.ReadHello.{read_https_target-IsHello}
use nyasniproxy.Router.{Router, lookup, connect_with_fallback}
use nyasniproxy.Router.Fallback.{TriesInOrder, IsFirst, connect_with_fallback-TriesInOrder}
use nyasniproxy.Proxy.Tunnel.{ProxyStream, inner, output, write_all, write_all-done}
use nyasniproxy.Proxy.Prefixed.{pending}
use nyasniproxy.Proxy.Connect.{Attempt}
use nyasniproxy.Server.{
  InboundProtocol, http, https, read_target, Opened, after_write, handle_connection,
}

-- The target that the client's bytes ask for.
abbrev pub Asks : InboundProtocol → Bytes → Target → Type 0
Asks http sent t = parse_http_host sent ≡ ok t
Asks https sent t = parse_tls_sni sent ≡ found t.host

-- What an opened connection has done; `tunnel` is the upstream as the proxy's handshake left it.
pub record Opens (base64 : Bytes → Bytes) (protocol : InboundProtocol) (router : Router)
    (attempts : ℕ → Attempt) (reads : List Read) (o : Opened) : Type 0 where
  pub asked : Asks protocol (received reads) o.target
  pub conserved : o.initial ++ received o.rest ≡ received reads
  pub tunnel : ProxyStream
  pub routed : IsFirst base64 attempts o.target 0 (lookup router o.target.host) tunnel
  pub forwarded : output o.upstream ≡ output tunnel ++ o.initial
  pub unread : pending (inner o.upstream) ≡ pending (inner tunnel)

timeout-ok : {A : Type 0} (e : Error) (o : Outcome A) {a : A} → timeout e o ≡ ok a → o ≡ done a
timeout-ok e (done b) h = cc
timeout-ok e (failed x) h = cc
timeout-ok e waiting h = cc

pub read_target-Asks :
    (protocol : InboundProtocol) (reads : List Read) {t : Target} {initial : Bytes}
    {rest : List Read}
    → read_target protocol reads ≡ ok (t, initial, rest)
    → Asks protocol (received reads) t × (initial ++ received rest ≡ received reads)
unfolding read_target
read_target-Asks http reads e =
    read_http_target_lem reads (timeout-ok Error.header_timed_out (read_http_target reads) e)
read_target-Asks https reads e =
    let (h, found_host) =
      read_https_target-IsHello reads
        (timeout-ok Error.client_hello_timed_out (read_https_target reads) e) in
    (found_host, h.conserved)

pub connect_with_fallback-IsFirst :
    (base64 : Bytes → Bytes) (attempts : ℕ → Attempt) (router : Router) (t : Target)
    {s : ProxyStream}
    → connect_with_fallback base64 attempts (lookup router t.host) t ≡ ok s
    → IsFirst base64 attempts t 0 (lookup router t.host) s
connect_with_fallback-IsFirst base64 attempts router t e =
    subst (TriesInOrder base64 attempts t 0 (lookup router t.host)) e
      (connect_with_fallback-TriesInOrder base64 attempts (lookup router t.host) t)

pub after_write-ok :
    (t : Target) (initial : Bytes) (rest : List Read) (s : ProxyStream) {o : Opened}
    → after_write t initial rest (write_all initial s) ≡ ok o
    → (record { target = t; initial = initial; rest = rest; upstream = (write_all initial s).1 }
        ≡ o)
      × (output (write_all initial s).1 ≡ output s ++ initial)
      × (pending (inner (write_all initial s).1) ≡ pending (inner s))
unfolding after_write
after_write-ok t initial rest s e =
    let (u, sent, same) =
      bind-eq-ok (timeout Error.initial_write_timed_out (write_all initial s).0) _ e in
    let (out, left) = write_all-done initial s (timeout-ok Error.initial_write_timed_out _ sent) in
    (ok_same same, out, left)

-- A connection that is opened goes to the target that the client's own bytes ask for, by the
-- first proxy that accepts of those that the router gives for its host; the bytes read for that
-- have been written to the tunnel, behind its handshake, and with those left to relay they are all
-- that the client sends; and nothing of what the tunnel delivers has been taken from it.
pub handle_connection-Opens :
    (base64 : Bytes → Bytes) (protocol : InboundProtocol) (router : Router) (attempts : ℕ → Attempt)
    (reads : List Read) {o : Opened}
    → handle_connection base64 protocol router attempts reads ≡ ok o
    → Opens base64 protocol router attempts reads o
unfolding handle_connection
handle_connection-Opens base64 protocol router attempts reads e =
    let ((t, initial, rest), read, e1) = bind-eq-ok (read_target protocol reads) _ e in
    let (s, connected, e2) =
      bind-eq-ok (connect_with_fallback base64 attempts (lookup router t.host) t) _ e1 in
    let (same, out, left) = after_write-ok t initial rest s e2 in
    let (asks, all_bytes) = read_target-Asks protocol reads read in
    subst (Opens base64 protocol router attempts reads) same (record {
      asked = asks;
      conserved = all_bytes;
      tunnel = s;
      routed = connect_with_fallback-IsFirst base64 attempts router t connected;
      forwarded = out;
      unread = left;
    })
