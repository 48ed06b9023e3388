-- ===== src/Router/Fallback.antt =====
-- src/router.rs: `connect_with_fallback` tries the proxies in order.
use nyasniproxy.Base.{
  ℕ, suc, ◌+◌, List, Bytes, [], ◌∷◌, ◌++◌, Result, Error, ok, err, ◌≡◌, refl, ap, inl, inr, arith,
  length, Result-cases, subst,
}
use nyasniproxy.Target.{Target}
use nyasniproxy.Proxy.Tunnel.{ProxyStream}
use nyasniproxy.Proxy.Connect.{Attempt, connect}
use nyasniproxy.Router.{Hop, connect_hops, connect_with_fallback}

module _ (base64 : Bytes → Bytes) (attempts : ℕ → Attempt) (t : Target) where
  -- Every one of these proxies refuses, in the attempts from the `n`-th on.
  abbrev pub Refused : ℕ → List Hop → Type 0
  Refused n [] = Unit
  Refused n (hop ∷ hops) =
      ((e : Error) × (connect base64 hop.proxy t (attempts n) ≡ err e)) × Refused (suc n) hops

  pub record IsFirst (n : ℕ) (hops : List Hop) (stream : ProxyStream) : Type 0 where
    pub before : List Hop
    pub hop : Hop
    pub after : List Hop
    pub parts : hops ≡ before ++ (hop ∷ after)
    pub refused : Refused n before
    pub accepted : connect base64 hop.proxy t (attempts (n + length before)) ≡ ok stream

  abbrev pub TriesInOrder : ℕ → List Hop → Result ProxyStream → Type 0
  TriesInOrder n hops (ok stream) = IsFirst n hops stream
  TriesInOrder n hops (err e) = Refused n hops

  later :
      (n : ℕ) (hop : Hop) (hops : List Hop) (e : Error) (r : Result ProxyStream)
      → connect base64 hop.proxy t (attempts n) ≡ err e
      → TriesInOrder (suc n) hops r
      → TriesInOrder n (hop ∷ hops) r
  later n hop hops e (ok stream) fails f = record {
    before = hop ∷ f.before;
    hop = f.hop;
    after = f.after;
    parts = ap (◌∷◌ hop) f.parts;
    refused = ((e, fails), f.refused);
    accepted =
        subst (λ k. connect base64 (Hop.proxy f.hop) t (attempts k) ≡ ok stream) (omega arith)
          f.accepted;
  }
  later n hop hops e (err e') fails refused = ((e, fails), refused)

  connect_hops-TriesInOrder :
      (hops : List Hop) (n : ℕ) (e : Error)
      → TriesInOrder n hops (connect_hops base64 attempts t n e hops)
  unfolding connect_hops
  connect_hops-TriesInOrder [] n e = tt
  connect_hops-TriesInOrder (hop ∷ hops) n e =
      elim (Result-cases (connect base64 hop.proxy t (attempts n))) [
        | inl (stream, accepts) ↦
            rw (accepts, connect_hops)
              (record {
                before = [];
                hop = hop;
                after = hops;
                parts = refl;
                refused = tt;
                accepted =
                    subst (λ k. connect base64 hop.proxy t (attempts k) ≡ ok stream) (omega arith)
                      accepts;
              })
        | inr (e', fails) ↦
            rw (fails, connect_hops)
              (later n hop hops e' (connect_hops base64 attempts t (suc n) e' hops) fails
                (connect_hops-TriesInOrder hops (suc n) e'))
      ]

-- `connect_with_fallback` returns the tunnel of the first proxy in the list that accepts, after
-- every proxy in front of it has refused; it fails only after all of them have refused.
pub connect_with_fallback-TriesInOrder :
    (base64 : Bytes → Bytes) (attempts : ℕ → Attempt) (hops : List Hop) (t : Target)
    → TriesInOrder base64 attempts t 0 hops (connect_with_fallback base64 attempts hops t)
unfolding connect_with_fallback
connect_with_fallback-TriesInOrder base64 attempts hops t =
    connect_hops-TriesInOrder base64 attempts t hops 0 Error.no_proxy_candidates
