-- ===== src/Proxy/HttpConnect/Accepted.antt =====
-- src/proxy.rs: what `http_connect` sends and accepts.
use nyasniproxy.Base.{
  true, List, [], ◌++◌, Option, none, some, Bytes, codes, ◌≡◌, refl, sym, ap, ◌∙◌, inl, inr, length,
  bytes_eq_iff, Bool-cases, subst,
}
use mathlib.Core.Path.{subst₂}
use nyasniproxy.Base.Utf8.{is_utf8, split_whitespace}
use nyasniproxy.Base.Stream.{Read, Outcome, done, failed, waiting, received}
use nyasniproxy.Target.{Target}
use nyasniproxy.Http.{header_end, blank_line}
use nyasniproxy.Proxy.{ProxyConfig}
use nyasniproxy.Proxy.Wire.{Wire, write_all, write_all-output}
use nyasniproxy.Proxy.HttpConnect.{
  ConnectResponse, connect_request, read_response, first_line, second, is_200, check_status,
  check_head, after_head, answered, requested, http_connect,
}
use nyasniproxy.Proxy.HttpConnect.Response.{read_response-IsResponse}

-- What an accepted tunnel has read: a response that the first blank line ends, in UTF-8, whose
-- first line has the second word `200`; and every byte behind it is returned or still on the
-- stream, in order.
pub record IsAccepted (sent leftover : Bytes) (rest : List Read) : Type 0 where
  pub header : Bytes
  pub conserved : header ++ (blank_line ++ (leftover ++ received rest)) ≡ sent
  pub first : header_end (header ++ (blank_line ++ leftover)) ≡ some (length header)
  pub text : is_utf8 header ≡ true
  pub status : Bytes
  pub status_line : first_line header ≡ some status
  pub accepted : second (split_whitespace status) ≡ some (codes "200")

check_head-done :
    (head : Bytes) {u : Unit {0}}
    → check_head head ≡ done u
    → (is_utf8 head ≡ true)
      × ((status : Bytes) × (first_line head ≡ some status)
          × (second (split_whitespace status) ≡ some (codes "200")))
unfolding check_head
check_head-done head e = elim (Bool-cases (is_utf8 head)) [
  | inr bad ↦ cc (rw bad at e)
  | inl text ↦ (text, go (first_line head) refl (rw text at e))
]
  where
    is_200-some : (o : Option Bytes) → is_200 o ≡ true → o ≡ some (codes "200")
    is_200-some none e = cc
    is_200-some (some w) e = ap some ((bytes_eq_iff w (codes "200")).0 e)

    go :
        (o : Option Bytes)
        → first_line head ≡ o
        → check_status o ≡ done _
        → (status : Bytes) × (first_line head ≡ some status)
          × (second (split_whitespace status) ≡ some (codes "200"))
    go none p q = cc
    go (some status) p q = elim (Bool-cases (is_200 (second (split_whitespace status)))) [
      | inl good ↦ (status, p, is_200-some _ good)
      | inr bad ↦ cc (rw bad at q)
    ]

-- A tunnel that an HTTP proxy has opened: what it was sent, and what it answered.
pub record Opens (request : Bytes) (w : Wire) (leftover : Bytes) (w' : Wire) : Type 0 where
  pub sent : w'.output ≡ w.output ++ request
  pub accepted : IsAccepted (received w.reads) leftover w'.reads

done_pair :
    {a b : Bytes} {v w : Wire}
    → ◌≡◌ {A = Outcome Bytes × Wire} (done a, v) (done b, w)
    → (a ≡ b) × (v ≡ w)
done_pair e = (cc, cc)

after_head-done :
    (r : ConnectResponse) (w : Wire) (o : Outcome (Unit {0})) {leftover : Bytes} {w' : Wire}
    → after_head r w o ≡ (done leftover, w')
    → (u : Unit {0}) × (o ≡ done u) × (r.leftover ≡ leftover) × (w ≡ w')
unfolding after_head
after_head-done r w (done u) e = let (same, wire) = done_pair e in (u, refl, same, wire)
after_head-done r w (failed x) e = cc
after_head-done r w waiting e = cc

answered-IsAccepted :
    (w : Wire) (o : Outcome (ConnectResponse × List Read)) {leftover : Bytes} {w' : Wire}
    → read_response [] w.reads ≡ o
    → answered w o ≡ (done leftover, w')
    → (w'.output ≡ w.output) × IsAccepted (received w.reads) leftover w'.reads
unfolding answered
answered-IsAccepted w (failed x) read e = cc
answered-IsAccepted w waiting read e = cc
answered-IsAccepted w (done (r, rest)) {leftover} {w'} read e =
    let (u, checked, same_leftover, same_wire) =
      after_head-done r (record w { reads = rest }) (check_head r.header) e in
    let v = read_response-IsResponse w.reads [] read in
    let (text, (status, line, word)) = check_head-done r.header checked in
    subst₂ (λ l x. (Wire.output x ≡ w.output) × IsAccepted (received w.reads) l (Wire.reads x))
      same_leftover same_wire
      (
        refl,
        record {
          header = r.header;
          conserved = v.conserved;
          first = v.first;
          text = text;
          status = status;
          status_line = line;
          accepted = word;
        },
      )

requested-Opens :
    (request : Bytes) (w : Wire) (o : Outcome (Unit {0}) × Wire) {leftover : Bytes} {w' : Wire}
    → write_all request w ≡ o
    → requested o ≡ (done leftover, w')
    → Opens request w leftover w'
unfolding requested
requested-Opens request w (failed x, v) wrote e = cc
requested-Opens request w (waiting, v) wrote e = cc
requested-Opens request w (done u, v) {leftover} {w'} wrote e =
    let (out, reads) = write_all-output request w (ap (λ p. p.0) wrote) in
    let (kept, accepted) = answered-IsAccepted v (read_response [] v.reads) refl e in
    record {
      sent = kept ∙ ap (λ p. Wire.output p.1) (sym wrote) ∙ out;
      accepted =
          subst (λ rs. IsAccepted (received rs) leftover w'.reads)
            (ap (λ p. Wire.reads p.1) (sym wrote) ∙ reads) accepted;
    }

-- When `http_connect` succeeds, it has written exactly its CONNECT request; the proxy has answered
-- with a header in UTF-8 that the first blank line ends and whose first line has the second word
-- `200`; and every byte that it sent behind that blank line is in the returned prefix or still on
-- the stream, in order.
pub http_connect-Opens :
    (base64 : Bytes → Bytes) (cfg : ProxyConfig) (t : Target) (w : Wire) {leftover : Bytes}
    {w' : Wire}
    → http_connect base64 cfg t w ≡ (done leftover, w')
    → Opens (connect_request base64 cfg t) w leftover w'
unfolding http_connect
http_connect-Opens base64 cfg t w e =
    requested-Opens (connect_request base64 cfg t) w (write_all (connect_request base64 cfg t) w)
      refl e
