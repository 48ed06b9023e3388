-- ===== src/Server/Reached.antt =====
-- src/main.rs: a client whose request is complete, and whose proxies are not all down, gets its
-- tunnel.
use nyasniproxy.Base.{
  ℕ, suc, ◌+◌, ◌≤◌, List, [], ◌∷◌, ◌++◌, some, Bytes, Error, ok, ◌≡◌, refl, sym, ap, ◌∙◌, arith,
  length, subst, All,
}
use nyasniproxy.Base.Stream.{Read, received, HasBytes}
use nyasniproxy.Target.{Target}
use nyasniproxy.Http.{max_http_header, header_end, parse_http_host, read_http_target}
use nyasniproxy.Http.ReadHeader.{
  read_until_header_end-total, read_until_header_end-whole, parse_http_host-append,
}
use nyasniproxy.Tls.{found, max_client_hello, parse_tls_sni}
use nyasniproxy.Tls.Arrives.{read_https_target-found}
use nyasniproxy.Proxy.Tunnel.{ProxyStream, write_all}
use nyasniproxy.Proxy.Connect.{Attempt, connect}
use nyasniproxy.Router.{Hop, Router, lookup, connect_hops, connect_with_fallback}
use nyasniproxy.Router.Fallback.{Refused, IsFirst}
use nyasniproxy.Server.{InboundProtocol, http, https, read_target, after_write, handle_connection}
use nyasniproxy.Server.Open.{read_target-Asks}

-- The client sends a whole request for a target, within the limits.
abbrev pub SendsRequest : InboundProtocol → Bytes → Target → Type 0
SendsRequest http sent t =
    ((k : ℕ) × (header_end sent ≡ some k))
    × (length sent ≤ max_http_header)
    × (parse_http_host sent ≡ ok t)
SendsRequest https sent t =
    (parse_tls_sni sent ≡ found t.host) × (length sent ≤ max_client_hello) × (t.port ≡ 443)

-- The target has been read.
abbrev pub ReadsTarget : InboundProtocol → List Read → Target → Type 0
ReadsTarget protocol reads t =
    (initial : Bytes) × (rest : List Read) × (read_target protocol reads ≡ ok (t, initial, rest))

read_http_target-ReadsTarget :
    (reads : List Read) (t : Target)
    → All HasBytes reads
    → SendsRequest http (received reads) t
    → ReadsTarget http reads t
unfolding read_target read_http_target
read_http_target-ReadsTarget reads t sound (ends, small, asked) =
    let (header, rest, read) = read_until_header_end-total reads sound ends.1 small in
    let v = read_until_header_end-whole reads read in
    let parsed : parse_http_host header ≡ ok t =
      sym (parse_http_host-append header (received rest) v.complete)
      ∙ ap parse_http_host v.conserved
      ∙ asked in
    (header, rest, rw (read, parsed) refl)

read_target-ReadsTarget :
    (protocol : InboundProtocol) (reads : List Read) (t : Target)
    → All HasBytes reads
    → SendsRequest protocol (received reads) t
    → ReadsTarget protocol reads t
unfolding read_target
read_target-ReadsTarget http reads t sound sent = read_http_target-ReadsTarget reads t sound sent
read_target-ReadsTarget https reads t sound (asked, small, port) =
    let (hello, rest, read) = read_https_target-found reads sound asked small in
    (
      hello,
      rest,
      rw (read) (ap (λ p. ok (record { host = t.host; port = p }, hello, rest)) (sym port)),
    )

-- The proxy that `connect_with_fallback` ends with.
connect_hops-first :
    (base64 : Bytes → Bytes) (attempts : ℕ → Attempt) (t : Target) (before : List Hop) (hop : Hop)
    (after : List Hop) (n : ℕ) (e : Error) {s : ProxyStream}
    → Refused base64 attempts t n before
    → connect base64 hop.proxy t (attempts (n + length before)) ≡ ok s
    → connect_hops base64 attempts t n e (before ++ (hop ∷ after)) ≡ ok s
unfolding connect_hops
connect_hops-first base64 attempts t [] hop after n e {s} refused accepted =
    let here : connect base64 hop.proxy t (attempts n) ≡ ok s =
      subst (λ k. connect base64 hop.proxy t (attempts k) ≡ ok s) (omega arith) accepted in
    rw (here, connect_hops) refl
connect_hops-first base64 attempts t (b ∷ before) hop after n e {s} refused accepted =
    let later : connect base64 hop.proxy t (attempts (suc n + length before)) ≡ ok s =
      subst (λ k. connect base64 hop.proxy t (attempts k) ≡ ok s) (omega arith) accepted in
    rw (refused.0.1, connect_hops)
      (connect_hops-first base64 attempts t before hop after (suc n) refused.0.0 refused.1 later)

IsFirst-connect_with_fallback :
    (base64 : Bytes → Bytes) (attempts : ℕ → Attempt) (t : Target) (hops : List Hop)
    {s : ProxyStream}
    → IsFirst base64 attempts t 0 hops s
    → connect_with_fallback base64 attempts hops t ≡ ok s
unfolding connect_with_fallback
IsFirst-connect_with_fallback base64 attempts t hops f =
    ap (connect_hops base64 attempts t 0 Error.no_proxy_candidates) f.parts
    ∙ connect_hops-first base64 attempts t f.before f.hop f.after 0 _ f.refused f.accepted

-- A client that sends a whole request within the limits, however it is cut into reads, is served:
-- if one of the proxies of its host accepts, after those in front of it have refused,
-- `handle_connection` comes to the write of the bytes read so far into that proxy's tunnel, and its
-- result is the outcome of this write; these bytes and those left to relay are all that is sent.
pub handle_connection-reaches :
    (base64 : Bytes → Bytes) (protocol : InboundProtocol) (router : Router) (attempts : ℕ → Attempt)
    (reads : List Read) (t : Target) (s : ProxyStream)
    → All HasBytes reads
    → SendsRequest protocol (received reads) t
    → IsFirst base64 attempts t 0 (lookup router t.host) s
    → (initial : Bytes) × (rest : List Read) × (initial ++ received rest ≡ received reads)
      × (handle_connection base64 protocol router attempts reads
          ≡ after_write t initial rest (write_all initial s))
unfolding handle_connection
handle_connection-reaches base64 protocol router attempts reads t s sound sent first =
    let (initial, rest, read) = read_target-ReadsTarget protocol reads t sound sent in
    let connected = IsFirst-connect_with_fallback base64 attempts t (lookup router t.host) first in
    (initial, rest, (read_target-Asks protocol reads read).1, rw (read, connected) refl)
