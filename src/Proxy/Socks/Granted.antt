-- ===== src/Proxy/Socks/Granted.antt =====
-- src/proxy.rs: what a SOCKS5 proxy has said and been sent when `socks5_connect` succeeds.
use nyasniproxy.Base.{
  ℕ, ◌+◌, ◌≤◌, Bool, true, false, not, [], ◌∷◌, ◌++◌, Option, Bytes, ◌≡◌, refl, sym, ap₂, inl, inr,
  arith, ltb, ◌==◌, ==_iff, length, append-nil, subst,
}
use mathlib.Core.Path.{subst₂}
use nyasniproxy.Base.Stream.{done}
use nyasniproxy.Target.{Target}
use nyasniproxy.Proxy.{ProxyConfig, password_text}
use nyasniproxy.Proxy.Conn.{Conn, pure, read_exact}
use nyasniproxy.Proxy.Socks.{
  negotiate, request_bytes, send_request, one_byte, address_length, reply_head, socks5_connect,
}
use nyasniproxy.Proxy.Socks.Exchanged.{
  Exchanged, Exchanged-trans, Exchanged-refl, done_pair, bind-done, read_exact-done, write_all-done,
  if_done, at_end,
}
use nyasniproxy.Proxy.Socks.Negotiated.{Negotiates, negotiate-done}

-- The length of an address by its type, with the bytes that the length takes itself.
pub data IsLength : ℕ → Bytes → ℕ → Type 0 where
  ipv4 : IsLength 1 [] 4
  domain : (n : ℕ) → IsLength 3 (n ∷ []) n
  ipv6 : IsLength 4 [] 16

-- A successful reply, with an address and a port.
pub data IsReply : Bytes → Type 0 where
  replied :
      {atyp n : ℕ} {prefix : Bytes} (reserved : ℕ) (address : Bytes)
      → IsLength atyp prefix n
      → length address ≡ n + 2
      → IsReply (5 ∷ 0 ∷ reserved ∷ atyp ∷ (prefix ++ address))

-- A length that was read for an address type.
pub record IsAddressLength (atyp n : ℕ) (c c' : Conn) : Type 0 where
  pub prefix : Bytes
  pub kind : IsLength atyp prefix n
  pub exchanged : Exchanged c c' prefix []

same_atyp : {a b n : ℕ} {c c' : Conn} → a ≡ b → IsAddressLength b n c c' → IsAddressLength a n c c'
same_atyp {n = n} {c} {c'} e k = subst (λ a. IsAddressLength a n c c') (sym e) k

constant_length :
    {m n atyp : ℕ} (c : Conn) {c' : Conn}
    → IsLength atyp [] m
    → pure m c ≡ (done n, c')
    → IsAddressLength atyp n c c'
constant_length {atyp = atyp} c k e =
    let (same, conn) = done_pair e in
    subst₂ (λ n d. IsAddressLength atyp n c d) same conn
      (record { prefix = []; kind = k; exchanged = Exchanged-refl c })

one_byte-done :
    (s : Bytes) (c d : Conn) {n : ℕ} {c' : Conn}
    → length s ≡ 1
    → Exchanged c d s []
    → one_byte s d ≡ (done n, c')
    → IsAddressLength 3 n c c'
unfolding one_byte
one_byte-done [] c d l x e = cc
one_byte-done (m ∷ []) c d l x e =
    let (same, conn) = done_pair e in
    subst₂ (λ n z. IsAddressLength 3 n c z) same conn
      (record { prefix = m ∷ []; kind = domain m; exchanged = x })
one_byte-done (m ∷ k ∷ s) c d l x e = absurd (omega (arith, l))

address_length-done :
    (atyp : ℕ) (c : Conn) {n : ℕ} {c' : Conn}
    → address_length atyp c ≡ (done n, c')
    → IsAddressLength atyp n c c'
unfolding address_length
address_length-done atyp c e = elim (if_done (atyp == 1) _ _ c e) [
  | inl (t, q) ↦ same_atyp ((==_iff atyp 1).0 t) (constant_length c ipv4 q)
  | inr (f, q) ↦ elim (if_done (atyp == 3) _ _ c q) [
    | inl (t, q1) ↦
        let (len, d, read, q2) = bind-done (read_exact 1) one_byte c q1 in
        let (l, x) = read_exact-done 1 c read in
        same_atyp ((==_iff atyp 3).0 t) (one_byte-done len c d l x q2)
    | inr (g, q1) ↦ elim (if_done (atyp == 4) _ _ c q1) [
      | inl (t, q2) ↦ same_atyp ((==_iff atyp 4).0 t) (constant_length c ipv6 q2)
      | inr (h, q2) ↦ cc
    ]
  ]
]

-- The head of a successful reply, with the length of the address that is left.
pub record IsHead (head : Bytes) (n : ℕ) (c c' : Conn) : Type 0 where
  pub reserved : ℕ
  pub atyp : ℕ
  pub head_is : head ≡ 5 ∷ 0 ∷ reserved ∷ atyp ∷ []
  pub address : IsAddressLength atyp n c c'

not-not : (b : Bool) → not b ≡ false → b ≡ true
not-not true h = refl
not-not false h = cc

reply_head-done :
    (head : Bytes) (c : Conn) {n : ℕ} {c' : Conn}
    → length head ≡ 4
    → reply_head head c ≡ (done n, c')
    → IsHead head n c c'
unfolding reply_head
reply_head-done (version ∷ code ∷ reserved ∷ atyp ∷ []) c l e =
    elim (if_done (not (version == 5)) _ _ c e) [
      | inl (t, q) ↦ cc
      | inr (f, q) ↦ elim (if_done (not (code == 0)) _ _ c q) [
        | inl (t, q1) ↦ cc
        | inr (g, q1) ↦ record {
          reserved = reserved;
          atyp = atyp;
          head_is =
              ap₂ (λ v w. v ∷ w ∷ reserved ∷ atyp ∷ []) ((==_iff version 5).0 (not-not _ f))
                ((==_iff code 0).0 (not-not _ g));
          address = address_length-done atyp c q1;
        }
      ]
    ]
reply_head-done (version ∷ code ∷ reserved ∷ atyp ∷ x ∷ s) c l e = absurd (omega (arith, l))
reply_head-done (version ∷ code ∷ reserved ∷ []) c l e = cc
reply_head-done (version ∷ code ∷ []) c l e = cc
reply_head-done (version ∷ []) c l e = cc
reply_head-done [] c l e = cc

send_request-done :
    (t : Target) (c : Conn) {v : Unit {0}} {c' : Conn}
    → send_request t c ≡ (done v, c')
    → (length t.host ≤ 255) × Exchanged c c' [] (request_bytes t)
unfolding send_request
send_request-done t c e = elim (if_done (ltb 255 (length t.host)) _ _ c e) [
  | inl (u, q) ↦ cc
  | inr (f, q) ↦ (ground arith, write_all-done (request_bytes t) c q)
]

-- A handshake that a proxy has granted.
pub record IsGranted (u : Option Bytes) (p : Bytes) (t : Target) (c c' : Conn) : Type 0 where
  pub selection : Bytes
  pub hello : Bytes
  pub reply : Bytes
  pub negotiated : Negotiates u p selection hello
  pub replied : IsReply reply
  pub host_fits : length t.host ≤ 255
  pub exchanged : Exchanged c c' (selection ++ reply) (hello ++ request_bytes t)

-- When `socks5_connect` succeeds, the proxy has selected a method that the client has offered, and
-- has accepted the credentials if it asked for them; it has then answered with version 5, code 0
-- and an address of a known type with a port; and these are all the bytes that were read. Written
-- were exactly the greeting with these credentials and the request for the target, whose host
-- has at most 255 bytes.
pub socks5_connect-IsGranted :
    (cfg : ProxyConfig) (t : Target) (c : Conn) {v : Unit {0}} {c' : Conn}
    → socks5_connect cfg t c ≡ (done v, c')
    → IsGranted cfg.username (password_text cfg) t c c'
unfolding socks5_connect
socks5_connect-IsGranted cfg t c {c' = c'} e =
    let (v, c1, negotiated, e1) = bind-done (negotiate cfg.username (password_text cfg)) _ c e in
    let (w, c2, requested, e2) = bind-done (send_request t) _ c1 e1 in
    let (head, c3, answered, e3) = bind-done (read_exact 4) _ c2 e2 in
    let (n, c4, accepted, e4) = bind-done (reply_head head) _ c3 e3 in
    let (skip, c5, skipped, e5) = bind-done (read_exact (n + 2)) _ c4 e4 in
    let first = negotiate-done cfg.username (password_text cfg) c negotiated in
    let (fit, request) = send_request-done t c1 requested in
    let (l, x) = read_exact-done 4 c2 answered in
    let h = reply_head-done head c3 l accepted in
    let (m, y) = read_exact-done (n + 2) c4 skipped in
    let tail =
      subst (λ s. Exchanged c2 c5 (s ++ (h.address.prefix ++ skip)) []) h.head_is
        (Exchanged-trans x (Exchanged-trans h.address.exchanged y)) in
    let sent =
      subst (Exchanged c1 c5 (5 ∷ 0 ∷ h.reserved ∷ h.atyp ∷ (h.address.prefix ++ skip)))
        (append-nil (request_bytes t)) (Exchanged-trans request tail) in
    record {
      selection = first.selection;
      hello = first.hello;
      reply = 5 ∷ 0 ∷ h.reserved ∷ h.atyp ∷ (h.address.prefix ++ skip);
      negotiated = first.negotiated;
      replied = IsReply.replied h.reserved skip h.address.kind m;
      host_fits = fit;
      exchanged = at_end e5 (Exchanged-trans first.exchanged sent);
    }
