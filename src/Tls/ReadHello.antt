-- ===== src/Tls/ReadHello.antt =====
-- src/tls.rs: `read_https_target` on a stream of reads.
use nyasniproxy.Base.{
  ℕ, ◌≤◌, false, List, [], ◌∷◌, ◌++◌, Bytes, Error, ◌≡◌, ◌≢◌, ◌⊎◌, refl, sym, ap, ◌∙◌, inl, inr,
  ltb, ltb-false, length, Bool-cases, append_assoc,
}
use nyasniproxy.Base.Stream.{Read, got, broken, Outcome, done, failed, received}
use nyasniproxy.Target.{Target}
use nyasniproxy.Tls.{
  ClientHelloStatus, need_more, found, invalid, parse_tls_sni, max_client_hello, read_hello,
  read_https_target,
}
use nyasniproxy.Tls.Streaming.{parse_tls_sni-append}

-- What the loop returns for the bytes sent.
pub record IsHello (sent : Bytes) (t : Target) (hello : Bytes) (rest : List Read) : Type 0 where
  pub conserved : hello ++ received rest ≡ sent
  pub host : parse_tls_sni hello ≡ found t.host
  pub port : t.port ≡ 443
  pub bounded : length hello ≤ max_client_hello

done_triple :
    {t u : Target} {a c : Bytes} {b d : List Read}
    → ◌≡◌ {A = Outcome (Target × Bytes × List Read)} (done (t, a, b)) (done (u, c, d))
    → (t ≡ u) × (a ≡ c) × (b ≡ d)
done_triple e = (cc, cc, cc)

-- One round that ends the loop or goes on, on a buffer within the limit.
read_hello_step :
    (buf : Bytes) (c : ℕ) (s : Bytes) (reads : List Read) {t : Target} {hello : Bytes}
    {rest : List Read}
    → read_hello buf (got (c ∷ s) ∷ reads) ≡ done (t, hello, rest)
    → IsHello ((buf ++ (c ∷ s)) ++ received reads) t hello rest
      ⊎ (read_hello (buf ++ (c ∷ s)) reads ≡ done (t, hello, rest))
unfolding read_hello
read_hello_step buf c s reads {t} {hello} {rest} e =
    elim (Bool-cases (ltb max_client_hello (length (buf ++ (c ∷ s))))) [
      | inl long ↦ cc (rw (long, read_hello) at e)
      | inr short ↦ go (parse_tls_sni (buf ++ (c ∷ s))) refl (rw (short, read_hello) at e) short
    ]
  where
    go :
        (v : ClientHelloStatus)
        → parse_tls_sni (buf ++ (c ∷ s)) ≡ v
        → (elim (parse_tls_sni (buf ++ (c ∷ s))) as (λ _. Outcome (Target × Bytes × List Read)) [
          | need_more ↦ read_hello (buf ++ (c ∷ s)) reads
          | found host ↦ done (record { host = host; port = 443 }, buf ++ (c ∷ s), reads)
          | invalid reason ↦ failed Error.invalid_client_hello
        ])
          ≡ done (t, hello, rest)
        → ltb max_client_hello (length (buf ++ (c ∷ s))) ≡ false
        → IsHello ((buf ++ (c ∷ s)) ++ received reads) t hello rest
          ⊎ (read_hello (buf ++ (c ∷ s)) reads ≡ done (t, hello, rest))
    go need_more p q short = inr (rw p at q)
    go (invalid reason) p q short = cc (rw p at q)
    go (found host) p q short =
        let (same_t, same_hello, same_rest) = done_triple (rw p at q) in
        inl (record {
          conserved = rw (← same_hello, ← same_rest) refl;
          host = rw (← same_hello, ← same_t) p;
          port = rw (← same_t) refl;
          bounded = rw (← same_hello) (ltb-false _ _ short);
        })

read_hello-IsHello :
    (reads : List Read) (buf : Bytes) {t : Target} {hello : Bytes} {rest : List Read}
    → read_hello buf reads ≡ done (t, hello, rest)
    → IsHello (buf ++ received reads) t hello rest
unfolding read_hello
read_hello-IsHello [] buf e = cc
read_hello-IsHello (broken ∷ reads) buf e = cc
read_hello-IsHello (got [] ∷ reads) buf e = cc
read_hello-IsHello (got (c ∷ s) ∷ reads) buf {t} {hello} {rest} e =
    rw (append_assoc buf (c ∷ s) (received reads)) at
      (elim (read_hello_step buf c s reads e)
        as (λ _. IsHello ((buf ++ (c ∷ s)) ++ received reads) t hello rest) [
          | inl last ↦ last
          | inr later ↦ read_hello-IsHello reads (buf ++ (c ∷ s)) later
        ])

-- When `read_https_target` returns, the target has port 443 and the host that the parser finds
-- in the whole of the bytes sent, so it does not depend on how they are cut into reads; the
-- buffer and what is left on the stream are together exactly those bytes; and the buffer is
-- within the limit of 64 KiB.
pub read_https_target-IsHello :
    (reads : List Read) {t : Target} {hello : Bytes} {rest : List Read}
    → read_https_target reads ≡ done (t, hello, rest)
    → IsHello (received reads) t hello rest × (parse_tls_sni (received reads) ≡ found t.host)
unfolding read_https_target
read_https_target-IsHello reads {t} {hello} {rest} e =
    let v = read_hello-IsHello reads [] e in
    (
      v,
      ap parse_tls_sni (sym v.conserved)
          ∙ parse_tls_sni-append hello (received rest) (λ q. cc (sym v.host ∙ q))
          ∙ v.host,
    )

-- A stream whose bytes start with a ClientHello that the first record does not hold whole is
-- never served: the reading fails or waits, whatever follows.
pub read_https_target-never :
    (reads : List Read)
    → parse_tls_sni (received reads) ≡ need_more
    → (t : Target) (hello : Bytes) (rest : List Read)
    → read_https_target reads ≢ done (t, hello, rest)
read_https_target-never reads h t hello rest e =
    let (v, whole) = read_https_target-IsHello reads e in cc
