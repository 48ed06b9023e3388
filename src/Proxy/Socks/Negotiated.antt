-- ===== src/Proxy/Socks/Negotiated.antt =====
-- src/proxy.rs: the selection of a method, and the credentials, in `socks5_connect`.
use nyasniproxy.Base.{
  ℕ, ◌≤◌, false, ◌||◌, [], ◌∷◌, Option, none, some, Bytes, ◌≡◌, inl, inr, arith, ltb, length,
  bytes_eq, bytes_eq_iff, subst,
}
use nyasniproxy.Base.Stream.{done}
use nyasniproxy.Proxy.Conn.{Conn}
use nyasniproxy.Proxy.Socks.{auth_bytes, authenticate, selected_method, negotiate}
use nyasniproxy.Proxy.Socks.Exchanged.{Exchanged, Exchanged-trans, if_done, asked, recognised}

-- What a proxy sends and is sent before the request.
pub data Negotiates : Option Bytes → Bytes → Bytes → Bytes → Type 0 where
  open_to_all : (p : Bytes) → Negotiates none p (5 ∷ 0 ∷ []) (5 ∷ 1 ∷ 0 ∷ [])
  not_asked : (u p : Bytes) → Negotiates (some u) p (5 ∷ 0 ∷ []) (5 ∷ 2 ∷ 0 ∷ 2 ∷ [])
  authenticated :
      (u p : Bytes)
      → length u ≤ 255
      → length p ≤ 255
      → Negotiates (some u) p (5 ∷ 2 ∷ 1 ∷ 0 ∷ []) (5 ∷ 2 ∷ 0 ∷ 2 ∷ auth_bytes u p)

fits : (a b : ℕ) → (ltb 255 a || ltb 255 b) ≡ false → (a ≤ 255) × (b ≤ 255)
fits a b h = (ground arith, ground arith)

authenticate-done :
    (u p : Bytes) (c : Conn) {v : Unit {0}} {c' : Conn}
    → authenticate u p c ≡ (done v, c')
    → (length u ≤ 255) × (length p ≤ 255) × Exchanged c c' (1 ∷ 0 ∷ []) (auth_bytes u p)
unfolding authenticate
authenticate-done u p c e = elim (if_done (ltb 255 (length u) || ltb 255 (length p)) _ _ c e) [
  | inl (t, q) ↦ cc
  | inr (f, q) ↦
      let (status, d, l, x, q1) = asked (auth_bytes u p) 2 _ c q in
      elim (if_done (bytes_eq status (1 ∷ 0 ∷ [])) _ _ d q1) [
        | inr (g, q2) ↦ cc
        | inl (t, q2) ↦ ((fits _ _ f).0, (fits _ _ f).1, recognised status (1 ∷ 0 ∷ []) t q2 x)
      ]
]

-- What the proxy has sent and been sent for the selection of a method.
pub record IsNegotiated (u : Option Bytes) (p : Bytes) (c c' : Conn) : Type 0 where
  pub selection : Bytes
  pub hello : Bytes
  pub negotiated : Negotiates u p selection hello
  pub exchanged : Exchanged c c' selection hello

selected_method-done :
    (u p selected : Bytes) (c d : Conn) {v : Unit {0}} {c' : Conn}
    → Exchanged c d selected (5 ∷ 2 ∷ 0 ∷ 2 ∷ [])
    → selected_method u p selected d ≡ (done v, c')
    → IsNegotiated (some u) p c c'
unfolding selected_method
selected_method-done u p selected c d {v} {c'} x e =
    elim (if_done (bytes_eq selected (5 ∷ 2 ∷ [])) _ _ d e) [
      | inl (t, q) ↦
          let (fits_u, fits_p, y) = authenticate-done u p d q in
          record {
            selection = 5 ∷ 2 ∷ 1 ∷ 0 ∷ [];
            hello = 5 ∷ 2 ∷ 0 ∷ 2 ∷ auth_bytes u p;
            negotiated = authenticated u p fits_u fits_p;
            exchanged =
                Exchanged-trans
                  (subst (λ s. Exchanged c d s (5 ∷ 2 ∷ 0 ∷ 2 ∷ [])) ((bytes_eq_iff _ _).0 t) x) y;
          }
      | inr (f, q) ↦ elim (if_done (bytes_eq selected (5 ∷ 0 ∷ [])) _ _ d q) [
        | inl (t, q1) ↦ record {
          selection = 5 ∷ 0 ∷ [];
          hello = 5 ∷ 2 ∷ 0 ∷ 2 ∷ [];
          negotiated = not_asked u p;
          exchanged = recognised selected (5 ∷ 0 ∷ []) t q1 x;
        }
        | inr (g, q1) ↦ elim (if_done (bytes_eq selected (5 ∷ 255 ∷ [])) _ _ d q1) [
          | inl (t, q2) ↦ cc
          | inr (h, q2) ↦ cc
        ]
      ]
    ]

pub negotiate-done :
    (u : Option Bytes) (p : Bytes) (c : Conn) {v : Unit {0}} {c' : Conn}
    → negotiate u p c ≡ (done v, c')
    → IsNegotiated u p c c'
unfolding negotiate
negotiate-done (some u) p c e =
    let (selected, d, l, x, q) = asked (5 ∷ 2 ∷ 0 ∷ 2 ∷ []) 2 _ c e in
    selected_method-done u p selected c d x q
negotiate-done none p c e =
    let (selected, d, l, x, q) = asked (5 ∷ 1 ∷ 0 ∷ []) 2 _ c e in
    elim (if_done (bytes_eq selected (5 ∷ 0 ∷ [])) _ _ d q) [
      | inr (f, q1) ↦ cc
      | inl (t, q1) ↦ record {
        selection = 5 ∷ 0 ∷ [];
        hello = 5 ∷ 1 ∷ 0 ∷ [];
        negotiated = open_to_all p;
        exchanged = recognised selected (5 ∷ 0 ∷ []) t q1 x;
      }
    ]
