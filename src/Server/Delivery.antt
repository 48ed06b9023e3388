-- ===== src/Server/Delivery.antt =====
-- src/main.rs: what the relay delivers.
use nyasniproxy.Base.{
  ◌+◌, Bool, true, false, ◌&&◌, List, [], ◌∷◌, ◌++◌, Bytes, ◌≡◌, refl, sym, ap, ◌∙◌, inl, inr,
  arith, length, append_assoc, append-nil, length-append, Bool-cases, if-elim, subst, and-left,
  and-right,
}
use nyasniproxy.Base.Stream.{Read, got, broken, Outcome, Outcome-cases, done, failed, waiting}
use nyasniproxy.Server.{
  Event, idle, inbound, upstream, Relay, start, from_inbound, from_upstream, select, relay,
}

-- The bytes that one side sends before it closes, unless it has done so already.
abbrev pub inbound_bytes : List Event → Bool → Bytes
inbound_bytes [] d = []
inbound_bytes (idle ∷ es) d = inbound_bytes es d
inbound_bytes (upstream x w ∷ es) d = inbound_bytes es d
inbound_bytes (inbound x w ∷ es) true = inbound_bytes es true
inbound_bytes (inbound broken w ∷ es) false = inbound_bytes es false
inbound_bytes (inbound (got []) w ∷ es) false = inbound_bytes es true
inbound_bytes (inbound (got (c ∷ s)) w ∷ es) false = (c ∷ s) ++ inbound_bytes es false

abbrev pub upstream_bytes : List Event → Bool → Bytes
upstream_bytes [] d = []
upstream_bytes (idle ∷ es) d = upstream_bytes es d
upstream_bytes (inbound x w ∷ es) d = upstream_bytes es d
upstream_bytes (upstream x w ∷ es) true = upstream_bytes es true
upstream_bytes (upstream broken w ∷ es) false = upstream_bytes es false
upstream_bytes (upstream (got []) w ∷ es) false = upstream_bytes es true
upstream_bytes (upstream (got (c ∷ s)) w ∷ es) false = (c ∷ s) ++ upstream_bytes es false

inbound_bytes-true : (es : List Event) → inbound_bytes es true ≡ []
inbound_bytes-true [] = refl
inbound_bytes-true (idle ∷ es) = inbound_bytes-true es
inbound_bytes-true (upstream x w ∷ es) = inbound_bytes-true es
inbound_bytes-true (inbound x w ∷ es) = inbound_bytes-true es

upstream_bytes-true : (es : List Event) → upstream_bytes es true ≡ []
upstream_bytes-true [] = refl
upstream_bytes-true (idle ∷ es) = upstream_bytes-true es
upstream_bytes-true (inbound x w ∷ es) = upstream_bytes-true es
upstream_bytes-true (upstream x w ∷ es) = upstream_bytes-true es

-- What is written behind `r`'s output, and what is counted, when the relay ends in `r'`.
pub record Delivers (r : Relay) (es : List Event) (r' : Relay) : Type 0 where
  pub to_b : r'.sent_b ≡ r.sent_b ++ inbound_bytes es r.a_done
  pub to_a : r'.sent_a ≡ r.sent_a ++ upstream_bytes es r.b_done
  pub counted_b : r'.a_to_b + length r.sent_b ≡ r.a_to_b + length r'.sent_b
  pub counted_a : r'.b_to_a + length r.sent_a ≡ r.b_to_a + length r'.sent_a

-- Once both sides are done.
Delivers-done : (r : Relay) (es : List Event) → r.a_done ≡ true → r.b_done ≡ true → Delivers r es r
Delivers-done r es a b = record {
  to_b = sym (
      ap (λ d. r.sent_b ++ inbound_bytes es d) a
      ∙ ap (◌++◌ r.sent_b) (inbound_bytes-true es)
      ∙ append-nil r.sent_b);
  to_a = sym (
      ap (λ d. r.sent_a ++ upstream_bytes es d) b
      ∙ ap (◌++◌ r.sent_a) (upstream_bytes-true es)
      ∙ append-nil r.sent_a);
  counted_b = refl;
  counted_a = refl;
}

-- A round that ends in `ok` passes on what the rest delivers.
abbrev pub Passes : Relay → Event → List Event → Relay → Outcome Relay → Type 0
Passes r e es r' (done r1) = Delivers r1 es r' → Delivers r (e ∷ es) r'
Passes r e es r' (failed x) = Unit
Passes r e es r' waiting = Unit

inbound-Passes :
    (r : Relay) (x : Read) (w : Outcome (Unit {0})) (es : List Event) (r' : Relay)
    → r.a_done ≡ false
    → Passes r (inbound x w) es r' (from_inbound r x w)
unfolding from_inbound
inbound-Passes r broken w es r' a = tt
inbound-Passes r (got []) (failed x) es r' a = tt
inbound-Passes r (got []) waiting es r' a = tt
inbound-Passes r (got []) (done u) es r' a = λ d. record {
  to_b = d.to_b ∙ ap (λ q. r.sent_b ++ inbound_bytes (inbound (got []) (done u) ∷ es) q) (sym a);
  to_a = d.to_a;
  counted_b = d.counted_b;
  counted_a = d.counted_a;
}
inbound-Passes r (got (c ∷ s)) (failed x) es r' a = tt
inbound-Passes r (got (c ∷ s)) waiting es r' a = tt
inbound-Passes r (got (c ∷ s)) (done u) es r' a = λ d. record {
  to_b =
      d.to_b
      ∙ ap (λ q. (r.sent_b ++ (c ∷ s)) ++ inbound_bytes es q) a
      ∙ append_assoc r.sent_b (c ∷ s) (inbound_bytes es false)
      ∙ ap (λ q. r.sent_b ++ inbound_bytes (inbound (got (c ∷ s)) (done u) ∷ es) q) (sym a);
  to_a = d.to_a;
  counted_b = omega (arith, d.counted_b, length-append r.sent_b (c ∷ s));
  counted_a = d.counted_a;
}

upstream-Passes :
    (r : Relay) (x : Read) (w : Outcome (Unit {0})) (es : List Event) (r' : Relay)
    → r.b_done ≡ false
    → Passes r (upstream x w) es r' (from_upstream r x w)
unfolding from_upstream
upstream-Passes r broken w es r' b = tt
upstream-Passes r (got []) (failed x) es r' b = tt
upstream-Passes r (got []) waiting es r' b = tt
upstream-Passes r (got []) (done u) es r' b = λ d. record {
  to_b = d.to_b;
  to_a = d.to_a ∙ ap (λ q. r.sent_a ++ upstream_bytes (upstream (got []) (done u) ∷ es) q) (sym b);
  counted_b = d.counted_b;
  counted_a = d.counted_a;
}
upstream-Passes r (got (c ∷ s)) (failed x) es r' b = tt
upstream-Passes r (got (c ∷ s)) waiting es r' b = tt
upstream-Passes r (got (c ∷ s)) (done u) es r' b = λ d. record {
  to_b = d.to_b;
  to_a =
      d.to_a
      ∙ ap (λ q. (r.sent_a ++ (c ∷ s)) ++ upstream_bytes es q) b
      ∙ append_assoc r.sent_a (c ∷ s) (upstream_bytes es false)
      ∙ ap (λ q. r.sent_a ++ upstream_bytes (upstream (got (c ∷ s)) (done u) ∷ es) q) (sym b);
  counted_b = d.counted_b;
  counted_a = omega (arith, d.counted_a, length-append r.sent_a (c ∷ s));
}

pub select-Passes :
    (r : Relay) (e : Event) (es : List Event) (r' : Relay) → Passes r e es r' (select r e)
unfolding select
select-Passes r idle es r' = tt
select-Passes r (inbound x w) es r' =
    if-elim (Passes r (inbound x w) es r') r.a_done _ _
      (λ a d. record {
        to_b =
            d.to_b
            ∙ ap (λ q. r.sent_b ++ inbound_bytes es q) a
            ∙ ap (λ q. r.sent_b ++ inbound_bytes (inbound x w ∷ es) q) (sym a);
        to_a = d.to_a;
        counted_b = d.counted_b;
        counted_a = d.counted_a;
      })
      (inbound-Passes r x w es r')
select-Passes r (upstream x w) es r' =
    if-elim (Passes r (upstream x w) es r') r.b_done _ _
      (λ b d. record {
        to_b = d.to_b;
        to_a =
            d.to_a
            ∙ ap (λ q. r.sent_a ++ upstream_bytes es q) b
            ∙ ap (λ q. r.sent_a ++ upstream_bytes (upstream x w ∷ es) q) (sym b);
        counted_b = d.counted_b;
        counted_a = d.counted_a;
      })
      (upstream-Passes r x w es r')

same_relay : {r r' : Relay} → ◌≡◌ {A = Outcome Relay} (done r) (done r') → r ≡ r'
same_relay e = cc

relay-Delivers :
    (es : List Event) (r : Relay) {r' : Relay} → relay r es ≡ done r' → Delivers r es r'
unfolding relay
relay-Delivers [] r {r'} e = elim (Bool-cases (r.a_done && r.b_done)) [
  | inl t ↦
      subst (Delivers r []) (same_relay (rw (t, relay) at e))
        (Delivers-done r [] (and-left r.a_done r.b_done t) (and-right r.a_done r.b_done t))
  | inr f ↦ cc (rw (f, relay) at e)
]
relay-Delivers (event ∷ es) r {r'} e = elim (Bool-cases (r.a_done && r.b_done)) [
  | inl t ↦
      subst (Delivers r (event ∷ es)) (same_relay (rw (t, relay) at e)) (
        Delivers-done r (event ∷ es) (and-left r.a_done r.b_done t) (and-right r.a_done r.b_done t))
  | inr f ↦ elim (Outcome-cases (select r event)) [
    | inr (inr waits) ↦ cc (rw (waits, relay) at (rw (f, relay) at e))
    | inr (inl (x, fails)) ↦ cc (rw (fails, relay) at (rw (f, relay) at e))
    | inl (r1, selected) ↦
        (subst (Passes r event es r') selected (select-Passes r event es r'))
          (relay-Delivers es r1 (rw (selected, relay) at (rw (f, relay) at e)))
  ]
]

-- A relay that ends well has written to either side exactly the bytes that the other side sent up
-- to its end, in order, and its two counts are the numbers of those bytes, however the events of
-- the two sides interleave.
pub relay-start :
    (es : List Event) {r : Relay}
    → relay start es ≡ done r
    → (r.sent_b ≡ inbound_bytes es false)
      × (r.sent_a ≡ upstream_bytes es false)
      × (r.a_to_b ≡ length r.sent_b)
      × (r.b_to_a ≡ length r.sent_a)
relay-start es e =
    let d = relay-Delivers es start e in
    (d.to_b, d.to_a, omega (arith, d.counted_b), omega (arith, d.counted_a))
