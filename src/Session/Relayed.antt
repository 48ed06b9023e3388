-- ===== src/Session/Relayed.antt =====
-- src/main.rs: what client and proxy have of each other when the relay of a connection ends.
use nyasniproxy.Base.{
  ℕ, Bool, true, false, List, [], ◌∷◌, ◌++◌, Bytes, ◌≡◌, refl, sym, ap, ◌∙◌, length, append_assoc,
}
use nyasniproxy.Base.Stream.{Read, got, broken, done, received}
use nyasniproxy.Proxy.Tunnel.{ProxyStream, inner, output, Use, apply_all, apply_all-IsDuplex}
use nyasniproxy.Proxy.Prefixed.{pending}
use nyasniproxy.Proxy.Connect.{Attempt}
use nyasniproxy.Reload.{Libraries}
use nyasniproxy.Server.{
  InboundProtocol, Opened, Event, idle, inbound, upstream, Relay, start, relay,
}
use nyasniproxy.Server.Delivery.{inbound_bytes, upstream_bytes, relay-start}
use nyasniproxy.Session.{IsConveyed}

-- The reads of the client's side that the relay has made, up to the end of that side.
abbrev pub inbound_reads : List Event → Bool → List Read
inbound_reads [] ended = []
inbound_reads (idle ∷ es) ended = inbound_reads es ended
inbound_reads (upstream r w ∷ es) ended = inbound_reads es ended
inbound_reads (inbound r w ∷ es) true = inbound_reads es true
inbound_reads (inbound broken w ∷ es) false = broken ∷ inbound_reads es false
inbound_reads (inbound (got []) w ∷ es) false = got [] ∷ inbound_reads es true
inbound_reads (inbound (got (c ∷ s)) w ∷ es) false = got (c ∷ s) ∷ inbound_reads es false

inbound_bytes-received :
    (es : List Event) (ended : Bool) → inbound_bytes es ended ≡ received (inbound_reads es ended)
inbound_bytes-received [] ended = refl
inbound_bytes-received (idle ∷ es) ended = inbound_bytes-received es ended
inbound_bytes-received (upstream r w ∷ es) ended = inbound_bytes-received es ended
inbound_bytes-received (inbound r w ∷ es) true = inbound_bytes-received es true
inbound_bytes-received (inbound broken w ∷ es) false = inbound_bytes-received es false
inbound_bytes-received (inbound (got []) w ∷ es) false = inbound_bytes-received es true
inbound_bytes-received (inbound (got (c ∷ s)) w ∷ es) false =
    ap (◌++◌ (c ∷ s)) (inbound_bytes-received es false)

received-append : (xs ys : List Read) → received (xs ++ ys) ≡ received xs ++ received ys
received-append [] ys = refl
received-append (got s ∷ xs) ys =
    ap (◌++◌ s) (received-append xs ys) ∙ sym (append_assoc s (received xs) (received ys))
received-append (broken ∷ xs) ys = received-append xs ys

-- What has gone in both directions; `left` is what the client's side has not been read of, `tunnel`
-- the tunnel as it was opened, and `after` as the relay leaves it.
pub record IsRelayed (reads left : List Read) (tunnel after : ProxyStream) (o : Opened) (r : Relay)
    : Type 0 where
  pub to_upstream : output after ≡ output tunnel ++ (o.initial ++ r.sent_b)
  pub unread : (o.initial ++ r.sent_b) ++ received left ≡ received reads
  pub to_client : r.sent_a ++ pending (inner after) ≡ pending (inner tunnel)
  pub counted : (r.a_to_b ≡ length r.sent_b) × (r.b_to_a ≡ length r.sent_a)

-- When the relay of a connection ends well, with both sides at their end, the bytes in the tunnel
-- behind its opening are the front of what the client sends, from its first byte on, and the rest
-- of that is unread; and the client has been sent the front of what the tunnel delivers, from its
-- first byte on, and the rest of that is pending; if the rounds of the relay read what the client's
-- side still has and what the uses of the tunnel read, and if those uses write what was read from
-- the client.
pub relay-IsRelayed :
    (lib : Libraries) (base64 : Bytes → Bytes) (protocol : InboundProtocol) (attempts : ℕ → Attempt)
    (reads left : List Read) (o : Opened) (c : IsConveyed lib base64 protocol attempts reads o)
    (es : List Event) (us : List Use) {r : Relay}
    → o.rest ≡ inbound_reads es false ++ left
    → (apply_all us o.upstream).got_bytes ≡ upstream_bytes es false
    → (apply_all us o.upstream).put_bytes ≡ inbound_bytes es false
    → relay start es ≡ done r
    → IsRelayed reads left c.tunnel (apply_all us o.upstream).after o r
relay-IsRelayed lib base64 protocol attempts reads left o c es us {r} rest uses writes ended =
    let (to_b, to_a, counted_b, counted_a) = relay-start es ended in
    let duplex = apply_all-IsDuplex us o.upstream in
    record {
      to_upstream =
          duplex.written_behind
          ∙ ap (λ s. s ++ (apply_all us o.upstream).put_bytes) c.forwarded
          ∙ append_assoc (output c.tunnel) o.initial (apply_all us o.upstream).put_bytes
          ∙ ap (λ s. output c.tunnel ++ (o.initial ++ s)) (writes ∙ sym to_b);
      unread =
          append_assoc o.initial r.sent_b (received left)
          ∙ ap (λ s. o.initial ++ (s ++ received left)) (to_b ∙ inbound_bytes-received es false)
          ∙ ap (◌++◌ o.initial) (sym (received-append (inbound_reads es false) left))
          ∙ ap (λ s. o.initial ++ received s) (sym rest)
          ∙ c.conserved;
      to_client =
          ap (λ s. s ++ pending (inner (apply_all us o.upstream).after)) (to_a ∙ sym uses)
          ∙ duplex.read_front
          ∙ c.unread;
      counted = (counted_b, counted_a);
    }
