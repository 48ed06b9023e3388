-- ===== src/Tls/Synthetic.antt =====
-- src/tls.rs: the ClientHellos that its tests make, for any host.
use nyasniproxy.Base.{
  ℕ, zero, suc, ◌+◌, ◌/◌, ◌%◌, ◌≤◌, ◌<◌, false, [], ◌∷◌, ◌++◌, Bytes, ◌≡◌, refl, sym, ap, ap₂, ◌∙◌,
  arith, length, true, is_empty, append-nil,
}
use nyasniproxy.Base.Utf8.{is_utf8}
use nyasniproxy.Tls.{found, parse_tls_sni}
use nyasniproxy.Tls.Hello.{
  Hello, IsWellFormed, body, encode, extensions, field16, message, names, sni, u16_onto,
  parse_tls_sni-encode,
}

-- `(n as u16).to_be_bytes()`.
abbrev pub to_be_bytes : ℕ → Bytes
to_be_bytes n = (n % 65536 / 256) ∷ (n % 65536 % 256) ∷ []

-- `[0u8; n]`.
abbrev pub zeros : ℕ → Bytes
zeros zero = []
zeros (suc n) = 0 ∷ zeros n

-- What stands in front of the extensions.
abbrev pub start_body : Bytes
start_body =
    (3 ∷ 3 ∷ [])
    ++ (zeros 32 ++ ((0 ∷ []) ++ (to_be_bytes 2 ++ ((19 ∷ 1 ∷ []) ++ ((1 ∷ []) ++ (0 ∷ []))))))

abbrev pub synthetic_sni : Bytes → Bytes
synthetic_sni host =
    to_be_bytes (3 + length host) ++ ((0 ∷ []) ++ (to_be_bytes (length host) ++ host))

abbrev pub synthetic_extensions : Bytes → Bytes
synthetic_extensions host =
    to_be_bytes 0 ++ (to_be_bytes (length (synthetic_sni host)) ++ synthetic_sni host)

abbrev pub handshake : Bytes → Bytes
handshake body =
    (1 ∷ (length body / 65536 % 256) ∷ (length body / 256 % 256) ∷ (length body % 256) ∷ []) ++ body

unfoldable pub wrap_client_hello : Bytes → Bytes
wrap_client_hello body =
    (22 ∷ []) ++ ((3 ∷ 1 ∷ []) ++ (to_be_bytes (length (handshake body)) ++ handshake body))

unfoldable pub synthetic_client_hello : Bytes → Bytes
synthetic_client_hello host =
    wrap_client_hello (
      start_body ++ (to_be_bytes (length (synthetic_extensions host)) ++ synthetic_extensions host))

unfoldable pub synthetic_client_hello_without_sni : Bytes
synthetic_client_hello_without_sni = wrap_client_hello (start_body ++ to_be_bytes 0)

-- The same ClientHello as a value.
abbrev hello_for : Bytes → Hello
hello_for host = record {
  fixed = 3 ∷ 3 ∷ zeros 32;
  session_id = [];
  cipher_suites = 19 ∷ 1 ∷ [];
  compression = 0 ∷ [];
  before = [];
  after = [];
  names_before = [];
  host = host;
  names_after = [];
  trailing = [];
}

to_be_bytes-onto : (n : ℕ) (s : Bytes) → n < 65536 → to_be_bytes n ++ s ≡ u16_onto n s
to_be_bytes-onto n s h = ap₂ (λ a b. a ∷ b ∷ s) (omega (arith, h)) (omega (arith, h))

to_be_bytes-field16 : (s : Bytes) → length s < 65536 → to_be_bytes (length s) ++ s ≡ field16 s []
to_be_bytes-field16 s h =
    to_be_bytes-onto (length s) s h ∙ ap (u16_onto (length s)) (sym (append-nil s))

names-synthetic :
    (host : Bytes)
    → length host ≤ 65000
    → 0 ∷ (to_be_bytes (length host) ++ host) ≡ names (hello_for host)
names-synthetic host h = ap (◌∷◌ 0) (to_be_bytes-field16 host (omega (arith, h)))

sni-synthetic : (host : Bytes) → length host ≤ 65000 → synthetic_sni host ≡ sni (hello_for host)
sni-synthetic host h =
    ap (λ n. to_be_bytes n ++ (0 ∷ (to_be_bytes (length host) ++ host))) (omega arith)
    ∙ to_be_bytes-field16 (0 ∷ (to_be_bytes (length host) ++ host)) (omega (arith, h))
    ∙ ap (λ s. field16 s []) (names-synthetic host h)

extensions-synthetic :
    (host : Bytes) → length host ≤ 65000 → synthetic_extensions host ≡ extensions (hello_for host)
extensions-synthetic host h =
    ap (λ s. 0 ∷ 0 ∷ s)
      (to_be_bytes-field16 (synthetic_sni host) (omega (arith, h))
        ∙ ap (λ s. field16 s []) (sni-synthetic host h))

body-synthetic :
    (host : Bytes)
    → length host ≤ 65000
    → start_body ++ (to_be_bytes (length (synthetic_extensions host)) ++ synthetic_extensions host)
      ≡ body (hello_for host)
body-synthetic host h = ap (◌++◌ start_body) (
    to_be_bytes-field16 (synthetic_extensions host) (omega (arith, h))
    ∙ ap (λ s. field16 s []) (extensions-synthetic host h))

wrap_client_hello-encode :
    (h : Hello) → length (body h) < 65532 → wrap_client_hello (body h) ≡ encode h
unfolding wrap_client_hello
wrap_client_hello-encode h k =
    ap (λ s. 22 ∷ 3 ∷ 1 ∷ s)
      (ap (λ m. to_be_bytes (length m) ++ m) (same_message (length (body h)) k)
        ∙ to_be_bytes-onto (length (message h)) (message h) (omega (arith, k)))
  where
    same_message :
        (n : ℕ)
        → n < 65532
        → 1 ∷ (n / 65536 % 256) ∷ (n / 256 % 256) ∷ (n % 256) ∷ body h
          ≡ 1 ∷ (n / 65536) ∷ (n / 256 % 256) ∷ (n % 256) ∷ body h
    same_message n k = ap (λ a. 1 ∷ a ∷ (n / 256 % 256) ∷ (n % 256) ∷ body h) (omega (arith, k))

hello_for-IsWellFormed :
    (host : Bytes) → is_empty host ≡ false → is_utf8 host ≡ true → IsWellFormed (hello_for host)
hello_for-IsWellFormed host given utf8 = record {
  fixed_length = refl;
  other_extensions = tt;
  other_names = tt;
  host_given = given;
  host_text = utf8;
}

-- In the ClientHello that the tests make for a host the parser finds this host, for every host that
-- is not empty, is UTF-8, and has at most 65000 bytes, whatever follows the record.
pub parse_tls_sni-synthetic_client_hello :
    (host more : Bytes)
    → is_empty host ≡ false
    → is_utf8 host ≡ true
    → length host ≤ 65000
    → parse_tls_sni (synthetic_client_hello host ++ more) ≡ found host
unfolding synthetic_client_hello
parse_tls_sni-synthetic_client_hello host more given utf8 h =
    let same = body-synthetic host h in
    ap (λ s. parse_tls_sni (s ++ more))
      (ap wrap_client_hello same
        ∙ wrap_client_hello-encode (hello_for host) (omega (arith, h, ap length same)))
    ∙ parse_tls_sni-encode (hello_for host) more (hello_for-IsWellFormed host given utf8)
