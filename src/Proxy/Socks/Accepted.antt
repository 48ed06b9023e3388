-- ===== src/Proxy/Socks/Accepted.antt =====
-- src/proxy.rs: `socks5_connect` against a proxy that accepts.
use nyasniproxy.Base.{
  ℕ, ◌+◌, ◌≤◌, Bool, true, [], ◌∷◌, ◌++◌, Option, none, some, Bytes, ◌≡◌, refl, sym, ap, ap₂, ◌∙◌,
  arith, leb, le-ltb, length, bytes_eq, append_assoc, length-append, take-length_append,
  drop-length_append,
}
use nyasniproxy.Base.Stream.{Outcome, done}
use nyasniproxy.Target.{Target}
use nyasniproxy.Proxy.{ProxyConfig, password_text}
use nyasniproxy.Proxy.Conn.{Conn, M, and_then, ◌>>=◌, pure, write_all, read_exact}
use nyasniproxy.Proxy.Socks.{
  auth_bytes, authenticate, selected_method, negotiate, request_bytes, send_request, one_byte,
  address_length, reply_head, socks5_connect,
}

-- A successful reply by its address type, its address and its port.
pub data Address : Type 0 where
  ipv4 domain ipv6 : Bytes → Address

abbrev pub AddressFits : Address → Type 0
AddressFits (ipv4 a) = length a ≡ 4
AddressFits (domain a) = Unit
AddressFits (ipv6 a) = length a ≡ 16

abbrev pub address_onto : Address → Bytes → Bytes
address_onto (ipv4 a) rest = 1 ∷ (a ++ rest)
address_onto (domain a) rest = 3 ∷ length a ∷ (a ++ rest)
address_onto (ipv6 a) rest = 4 ∷ (a ++ rest)

abbrev pub reply_onto : Address → ℕ → ℕ → Bytes → Bytes
reply_onto a hi lo rest = 5 ∷ 0 ∷ 0 ∷ address_onto a (hi ∷ lo ∷ rest)

-- A connection that takes writes.
abbrev pub live : Bytes → Bool → Bytes → Conn
live input closed output = record {
  input = input;
  closed = closed;
  writable = true;
  output = output;
}

read_exact-live :
    (n : ℕ) (s rest : Bytes) (closed : Bool) (out : Bytes)
    → length s ≡ n
    → read_exact n (live (s ++ rest) closed out) ≡ (done s, live rest closed out)
unfolding read_exact
read_exact-live n s rest closed out e =
    let enough : leb n (length (s ++ rest)) ≡ true = ground (arith, length-append s rest) in
    rw enough (
      rw (← e) (
        ap₂ (λ a b. (done a, live b closed out)) (take-length_append s rest)
          (drop-length_append s rest)))

write_all-live :
    (s input : Bytes) (closed : Bool) (out : Bytes)
    → write_all s (live input closed out) ≡ (done tt, live input closed (out ++ s))
unfolding write_all
write_all-live s input closed out = refl

-- The bytes of a successful method selection, with authentication where the client has a user
-- name, and the bytes that the client writes for it.
abbrev pub selection_onto : Option Bytes → Bytes → Bytes
selection_onto none rest = 5 ∷ 0 ∷ rest
selection_onto (some u) rest = 5 ∷ 2 ∷ 1 ∷ 0 ∷ rest

abbrev pub hello_bytes : Option Bytes → Bytes → Bytes
hello_bytes none p = 5 ∷ 1 ∷ 0 ∷ []
hello_bytes (some u) p = 5 ∷ 2 ∷ 0 ∷ 2 ∷ auth_bytes u p

abbrev pub CredentialsFit : Option Bytes → Bytes → Type 0
CredentialsFit none p = Unit
CredentialsFit (some u) p = (length u ≤ 255) × (length p ≤ 255)

bind-run :
    {A B : Type 0} (m : M A) (f : A → M B) {a : A} {c c' : Conn} {r : Outcome B × Conn}
    → m c ≡ (done a, c')
    → f a c' ≡ r
    → (m >>= f) c ≡ r
bind-run m f e h = ap (and_then f) e ∙ h

authenticate-live :
    (u p rest : Bytes) (closed : Bool) (out : Bytes)
    → length u ≤ 255
    → length p ≤ 255
    → authenticate u p (live (1 ∷ 0 ∷ rest) closed out)
      ≡ (done tt, live rest closed (out ++ auth_bytes u p))
unfolding authenticate bytes_eq
authenticate-live u p rest closed out h k =
    rw (le-ltb 255 (length u) h, le-ltb 255 (length p) k)
      (bind-run (write_all (auth_bytes u p)) _ (write_all-live (auth_bytes u p) _ closed out)
        (bind-run (read_exact 2) _ (read_exact-live 2 (1 ∷ 0 ∷ []) rest closed _ refl) refl))

negotiate-live :
    (u : Option Bytes) (p rest : Bytes) (closed : Bool) (out : Bytes)
    → CredentialsFit u p
    → negotiate u p (live (selection_onto u rest) closed out)
      ≡ (done tt, live rest closed (out ++ hello_bytes u p))
unfolding negotiate selected_method bytes_eq
negotiate-live none p rest closed out h =
    bind-run (write_all (5 ∷ 1 ∷ 0 ∷ [])) _ (write_all-live (5 ∷ 1 ∷ 0 ∷ []) _ closed out)
      (bind-run (read_exact 2) _ (read_exact-live 2 (5 ∷ 0 ∷ []) rest closed _ refl) refl)
negotiate-live (some u) p rest closed out h =
    bind-run (write_all (5 ∷ 2 ∷ 0 ∷ 2 ∷ [])) _ (write_all-live (5 ∷ 2 ∷ 0 ∷ 2 ∷ []) _ closed out) (
      bind-run (read_exact 2) _ (read_exact-live 2 (5 ∷ 2 ∷ []) (1 ∷ 0 ∷ rest) closed _ refl) (
        authenticate-live u p rest closed _ h.0 h.1
        ∙ ap (λ o. (done tt, live rest closed o)) (append_assoc out (5 ∷ 2 ∷ 0 ∷ 2 ∷ []) _)))

send_request-live :
    (t : Target) (input : Bytes) (closed : Bool) (out : Bytes)
    → length t.host ≤ 255
    → send_request t (live input closed out) ≡ (done tt, live input closed (out ++ request_bytes t))
unfolding send_request
send_request-live t input closed out h =
    rw (le-ltb 255 (length t.host) h) (write_all-live (request_bytes t) input closed out)

-- The reply from its header on, by its address type.
reply_tail : M (Unit {0})
reply_tail = do
  head ← read_exact 4
  addr_len ← reply_head head
  skip ← read_exact (addr_len + 2)
  pure tt

skip_address :
    (n : ℕ) (a : Bytes) (hi lo : ℕ) (rest : Bytes) (closed : Bool) (out : Bytes)
    → length a ≡ n
    → read_exact (n + 2) (live (a ++ (hi ∷ lo ∷ rest)) closed out)
      ≡ (done (a ++ (hi ∷ lo ∷ [])), live rest closed out)
skip_address n a hi lo rest closed out e =
    ap (λ s. read_exact (n + 2) (live s closed out)) (sym (append_assoc a (hi ∷ lo ∷ []) rest))
    ∙ read_exact-live (n + 2) (a ++ (hi ∷ lo ∷ [])) rest closed out
        (omega (arith, length-append a (hi ∷ lo ∷ []), e))

reply_tail-live :
    (a : Address) (hi lo : ℕ) (rest : Bytes) (closed : Bool) (out : Bytes)
    → AddressFits a
    → reply_tail (live (reply_onto a hi lo rest) closed out) ≡ (done tt, live rest closed out)
unfolding reply_tail reply_head address_length one_byte
reply_tail-live (ipv4 a) hi lo rest closed out h =
    bind-run (read_exact 4) _
      (read_exact-live 4 (5 ∷ 0 ∷ 0 ∷ 1 ∷ []) (a ++ (hi ∷ lo ∷ rest)) closed out refl)
      (bind-run (read_exact 6) _ (skip_address 4 a hi lo rest closed out h) refl)
reply_tail-live (domain a) hi lo rest closed out h =
    bind-run (read_exact 4) _
      (read_exact-live 4 (5 ∷ 0 ∷ 0 ∷ 3 ∷ []) (length a ∷ (a ++ (hi ∷ lo ∷ rest))) closed out refl)
      (bind-run (reply_head (5 ∷ 0 ∷ 0 ∷ 3 ∷ [])) _
        (bind-run (read_exact 1) _
          (read_exact-live 1 (length a ∷ []) (a ++ (hi ∷ lo ∷ rest)) closed out refl) refl)
        (bind-run (read_exact (length a + 2)) _
          (skip_address (length a) a hi lo rest closed out refl) refl))
reply_tail-live (ipv6 a) hi lo rest closed out h =
    bind-run (read_exact 4) _
      (read_exact-live 4 (5 ∷ 0 ∷ 0 ∷ 4 ∷ []) (a ++ (hi ∷ lo ∷ rest)) closed out refl)
      (bind-run (read_exact 18) _ (skip_address 16 a hi lo rest closed out h) refl)

-- Against a proxy that accepts, with authentication where a user name is set and an address of
-- any of the three types in its reply, the handshake succeeds, has written exactly the method
-- selection, the credentials and the request with the target's host as a domain name, and leaves
-- exactly the bytes behind the reply for the tunnel; user name, password and host have at most
-- 255 bytes.
pub socks5_connect-live :
    (cfg : ProxyConfig) (t : Target) (a : Address) (hi lo : ℕ) (tunnel : Bytes) (closed : Bool)
    (out : Bytes)
    → CredentialsFit cfg.username (password_text cfg)
    → length t.host ≤ 255
    → AddressFits a
    → socks5_connect cfg t
        (live (selection_onto cfg.username (reply_onto a hi lo tunnel)) closed out)
      ≡ (
        done tt,
        live tunnel closed
            ((out ++ hello_bytes cfg.username (password_text cfg)) ++ request_bytes t),
      )
unfolding socks5_connect reply_tail
socks5_connect-live cfg t a hi lo tunnel closed out creds host address =
    bind-run (negotiate cfg.username (password_text cfg)) _
      (negotiate-live cfg.username (password_text cfg) _ closed out creds)
      (bind-run (send_request t) _ (send_request-live t _ closed _ host)
        (reply_tail-live a hi lo tunnel closed _ address))
