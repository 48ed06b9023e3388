-- ===== src/Tls/Arrives.antt =====
-- src/tls.rs: `read_https_target` returns once a ClientHello has arrived.
use nyasniproxy.Base.{
  ◌≤◌, false, List, [], ◌∷◌, ◌++◌, Bytes, ◌≡◌, ◌⊎◌, refl, sym, ap, ◌∙◌, inl, inr, arith, ltb,
  le-ltb, length, length-append, append_assoc, append-nil, All,
}
use nyasniproxy.Base.Stream.{Read, got, broken, Outcome, done, received, HasBytes}
use nyasniproxy.Target.{Target}
use nyasniproxy.Tls.{
  ClientHelloStatus, need_more, found, invalid, parse_tls_sni, max_client_hello, read_hello,
  read_https_target,
}
use nyasniproxy.Tls.Hello.{Hello, encode, IsWellFormed, parse_tls_sni-encode}
use nyasniproxy.Tls.Streaming.{parse_tls_sni-append}

-- The loop has returned with a host.
abbrev pub Returns : Bytes → Outcome (Target × Bytes × List Read) → Type 0
Returns host o =
    (hello : Bytes) × (rest : List Read) × (o
      ≡ done (record { host = host; port = 443 }, hello, rest))

found_same : {h k : Bytes} → found h ≡ found k → h ≡ k
found_same e = cc

-- A front of bytes with a host asks for more, or has that host.
front_verdict :
    (buf more : Bytes) {host : Bytes}
    → parse_tls_sni (buf ++ more) ≡ found host
    → (parse_tls_sni buf ≡ need_more) ⊎ (parse_tls_sni buf ≡ found host)
front_verdict buf more {host} whole = go (parse_tls_sni buf) refl
  where
    go :
        (v : ClientHelloStatus)
        → parse_tls_sni buf ≡ v
        → (parse_tls_sni buf ≡ need_more) ⊎ (parse_tls_sni buf ≡ found host)
    go need_more e = inl e
    go (found h) e = inr (sym (parse_tls_sni-append buf more (λ q. cc (sym e ∙ q))) ∙ whole)
    go (invalid r) e = inr (sym (parse_tls_sni-append buf more (λ q. cc (sym e ∙ q))) ∙ whole)

read_hello-Returns :
    (reads : List Read) (buf : Bytes) {host : Bytes}
    → All HasBytes reads
    → parse_tls_sni buf ≡ need_more
    → parse_tls_sni (buf ++ received reads) ≡ found host
    → length (buf ++ received reads) ≤ max_client_hello
    → Returns host (read_hello buf reads)
unfolding read_hello
read_hello-Returns [] buf sound open_end whole h = cc (open_end, rw append-nil at whole)
read_hello-Returns (broken ∷ reads) buf sound open_end whole h = absurd sound.0
read_hello-Returns (got [] ∷ reads) buf sound open_end whole h = absurd sound.0
read_hello-Returns (got (c ∷ s) ∷ reads) buf sound open_end whole h =
    let regroup = append_assoc buf (c ∷ s) (received reads) in
    let short : ltb max_client_hello (length (buf ++ (c ∷ s))) ≡ false =
      le-ltb _ _
        (omega (arith, h, ap length regroup, length-append (buf ++ (c ∷ s)) (received reads))) in
    elim (front_verdict (buf ++ (c ∷ s)) (received reads) (rw (← regroup) at whole)) [
      | inr here ↦ (buf ++ (c ∷ s), reads, rw (short, read_hello) (rw (here, read_hello) refl))
      | inl later ↦
          let (hello, rest, run) =
            read_hello-Returns reads (buf ++ (c ∷ s)) sound.1 later (rw (← regroup) at whole)
              (rw (← regroup) at h) in
          (hello, rest, rw (short, read_hello) (rw (later, read_hello) run))
    ]

-- The bytes that are sent decide, in any cut.
pub read_https_target-found :
    (reads : List Read) {host : Bytes}
    → All HasBytes reads
    → parse_tls_sni (received reads) ≡ found host
    → length (received reads) ≤ max_client_hello
    → Returns host (read_https_target reads)
unfolding read_https_target
read_https_target-found reads sound sent small =
    read_hello-Returns reads [] sound (unfold parse_tls_sni in refl) sent small

-- A client that sends a ClientHello with a server name gets through: however its bytes, and those
-- that follow them, are cut into reads, `read_https_target` returns that name with port 443, if no
-- read fails or ends the stream and all these bytes are within the limit of 64 KiB.
pub read_https_target-encode :
    (reads : List Read) (h : Hello) (more : Bytes)
    → IsWellFormed h
    → All HasBytes reads
    → received reads ≡ encode h ++ more
    → length (received reads) ≤ max_client_hello
    → Returns h.host (read_https_target reads)
read_https_target-encode reads h more w sound sent small =
    read_https_target-found reads sound (ap parse_tls_sni sent ∙ parse_tls_sni-encode h more w)
      small
