-- ===== src/Tls/Hello.antt =====
-- src/tls.rs: a ClientHello as clients write it (RFC 8446, section 4.1.2; RFC 6066, section 3),
-- and what the parser finds in it.
use nyasniproxy.Base.{
  ℕ, ◌/◌, ◌%◌, true, false, List, [], ◌∷◌, ◌++◌, Bytes, ◌≡◌, ◌≢◌, refl, sym, ap, ◌∙◌, arith, ltb,
  le-ltb, ◌==◌, length, take, drop, is_empty, u16_be, length-append, take-length_append,
  drop-length_append, All, append-nil,
}
use nyasniproxy.Base.Utf8.{is_utf8}
use nyasniproxy.Tls.{
  found, host_name, parse_names, parse_sni_extension, parse_extensions, extensions_block,
  compression_block, cipher_block, session_block, parse_client_hello_body, u24_be, parse_record,
  parse_tls_sni,
}
use nyasniproxy.Tls.Extensions.{parse_names-cons, parse_extensions-cons}

-- `to_be_bytes` of a `u16`, in front of `rest`.
abbrev pub u16_onto : ℕ → Bytes → Bytes
u16_onto n rest = (n / 256) ∷ (n % 256) ∷ rest

u16_be-onto : (n : ℕ) → u16_be (n / 256) (n % 256) ≡ n
u16_be-onto n = omega arith

-- A field of two bytes of length.
abbrev pub field16 : Bytes → Bytes → Bytes
field16 s rest = u16_onto (length s) (s ++ rest)

-- The cuts that the parser makes at such a field.
field16_cut :
    (s rest : Bytes)
    → let n = u16_be (length s / 256) (length s % 256) in
      (ltb (length (s ++ rest)) n ≡ false) × (take n (s ++ rest) ≡ s) × (drop n (s ++ rest) ≡ rest)
field16_cut s rest = rw (u16_be-onto (length s)) (
  le-ltb _ _ (omega (arith, length-append s rest)),
  take-length_append s rest,
  drop-length_append s rest,
)

-- A server name or an extension: its type and its content.
pub record Item : Type 0 where
  pub kind : ℕ
  pub content : Bytes

abbrev pub names_onto : List Item → Bytes → Bytes
names_onto [] rest = rest
names_onto (i ∷ is) rest = i.kind ∷ field16 i.content (names_onto is rest)

abbrev pub extensions_onto : List Item → Bytes → Bytes
extensions_onto [] rest = rest
extensions_onto (i ∷ is) rest = u16_onto i.kind (field16 i.content (extensions_onto is rest))

abbrev pub IsOther : Item → Type 0
IsOther i = i.kind ≢ 0

pub record Hello : Type 0 where
  -- the version and the random
  pub fixed : Bytes
  pub session_id : Bytes
  pub cipher_suites : Bytes
  pub compression : Bytes
  -- the extensions in front of the server name, and the bytes of those behind it
  pub before : List Item
  pub after : Bytes
  -- the names of other types in front of the host name, and the bytes behind it
  pub names_before : List Item
  pub host : Bytes
  pub names_after : Bytes
  -- bytes of the message behind the extensions
  pub trailing : Bytes

abbrev pub names : Hello → Bytes
names h = names_onto h.names_before (0 ∷ field16 h.host h.names_after)

abbrev pub sni : Hello → Bytes
sni h = field16 (names h) []

abbrev pub extensions : Hello → Bytes
extensions h = extensions_onto h.before (u16_onto 0 (field16 (sni h) h.after))

-- What follows the version and the random.
abbrev pub fields : Hello → Bytes
fields h =
    length h.session_id
    ∷ (h.session_id
        ++ field16 h.cipher_suites
            (length h.compression ∷ (h.compression ++ field16 (extensions h) h.trailing)))

abbrev pub body : Hello → Bytes
body h = h.fixed ++ fields h

abbrev pub message : Hello → Bytes
message h = let n = length (body h) in 1 ∷ (n / 65536) ∷ (n / 256 % 256) ∷ (n % 256) ∷ body h

abbrev pub encode : Hello → Bytes
encode h = 22 ∷ 3 ∷ 1 ∷ u16_onto (length (message h)) (message h)

pub record IsWellFormed (h : Hello) : Type 0 where
  pub fixed_length : length h.fixed ≡ 34
  pub other_extensions : All IsOther h.before
  pub other_names : All IsOther h.names_before
  pub host_given : is_empty h.host ≡ false
  pub host_text : is_utf8 h.host ≡ true

parse_names-found :
    (is : List Item) (host rest : Bytes)
    → All IsOther is
    → is_empty host ≡ false
    → is_utf8 host ≡ true
    → parse_names (names_onto is (0 ∷ field16 host rest)) ≡ found host
parse_names-found [] host rest h e u =
    let (fits, cut, skip) = field16_cut host rest in
    parse_names-cons 0 _ _ (host ++ rest) ∙ rw (fits, cut) (unfold host_name in rw (u, e) refl)
parse_names-found (i ∷ is) host rest h e u =
    let next = names_onto is (0 ∷ field16 host rest) in
    let (fits, cut, skip) = field16_cut i.content next in
    let other : (i.kind == 0) ≡ false = ground (arith, h.0) in
    parse_names-cons i.kind _ _ (i.content ++ next)
    ∙ rw (fits, other, skip) (parse_names-found is host rest h.1 e u)

parse_extensions-found :
    (is : List Item) (sni rest : Bytes)
    → All IsOther is
    → parse_extensions (extensions_onto is (u16_onto 0 (field16 sni rest)))
      ≡ parse_sni_extension sni
parse_extensions-found [] sni rest h =
    let (fits, cut, skip) = field16_cut sni rest in
    parse_extensions-cons 0 0 _ _ (sni ++ rest) ∙ rw (fits, cut) refl
parse_extensions-found (i ∷ is) sni rest h =
    let next = extensions_onto is (u16_onto 0 (field16 sni rest)) in
    let (fits, cut, skip) = field16_cut i.content next in
    let other : (u16_be (i.kind / 256) (i.kind % 256) == 0) ≡ false = ground (arith, h.0) in
    parse_extensions-cons _ _ _ _ (i.content ++ next)
    ∙ rw (fits, other, skip) (parse_extensions-found is sni rest h.1)

parse_sni_extension-field16 : (s : Bytes) → parse_sni_extension (field16 s []) ≡ parse_names s
unfolding parse_sni_extension
parse_sni_extension-field16 s = let (fits, cut, skip) = field16_cut s [] in rw (fits, cut) refl

extensions_block-field16 : (s rest : Bytes) → extensions_block (field16 s rest) ≡ parse_extensions s
unfolding extensions_block
extensions_block-field16 s rest = let (fits, cut, skip) = field16_cut s rest in rw (fits, cut) refl

field8_fits : (s rest : Bytes) → ltb (length (s ++ rest)) (length s) ≡ false
field8_fits s rest = le-ltb _ _ (omega (arith, length-append s rest))

compression_block-cons :
    (s rest : Bytes) → compression_block (length s ∷ (s ++ rest)) ≡ extensions_block rest
unfolding compression_block
compression_block-cons s rest = rw (field8_fits s rest, drop-length_append s rest) refl

cipher_block-field16 : (s rest : Bytes) → cipher_block (field16 s rest) ≡ compression_block rest
unfolding cipher_block
cipher_block-field16 s rest = let (fits, cut, skip) = field16_cut s rest in rw (fits, skip) refl

session_block-cons : (s rest : Bytes) → session_block (length s ∷ (s ++ rest)) ≡ cipher_block rest
unfolding session_block
session_block-cons s rest = rw (field8_fits s rest, drop-length_append s rest) refl

drop_fixed :
    (fixed rest : Bytes)
    → length fixed ≡ 34
    → (ltb (length (fixed ++ rest)) 34 ≡ false) × (drop 34 (fixed ++ rest) ≡ rest)
drop_fixed fixed rest e = (
  le-ltb _ _ (omega (arith, length-append fixed rest, e)),
  ap (λ n. drop n (fixed ++ rest)) (sym e) ∙ drop-length_append fixed rest,
)

parse_client_hello_body-body :
    (h : Hello) → IsWellFormed h → parse_client_hello_body (body h) ≡ found h.host
unfolding parse_client_hello_body
parse_client_hello_body-body h w =
    let (fits, skip) = drop_fixed h.fixed (fields h) w.fixed_length in
    rw (fits, skip)
      (session_block-cons h.session_id _
        ∙ cipher_block-field16 h.cipher_suites _
        ∙ compression_block-cons h.compression _
        ∙ extensions_block-field16 (extensions h) h.trailing
        ∙ parse_extensions-found h.before (sni h) h.after w.other_extensions
        ∙ parse_sni_extension-field16 (names h)
        ∙ parse_names-found h.names_before h.host h.names_after w.other_names w.host_given
            w.host_text)

u24_be-message : (n : ℕ) → u24_be (n / 65536) (n / 256 % 256) (n % 256) ≡ n
u24_be-message n = omega arith

parse_record-message : (h : Hello) → IsWellFormed h → parse_record (message h) ≡ found h.host
unfolding parse_record
parse_record-message h w = rw (u24_be-message (length (body h))) (
    rw (le-ltb (length (body h)) (length (body h)) (omega arith), take-whole (body h))
      (parse_client_hello_body-body h w))
  where
    take-whole : (s : Bytes) → take (length s) s ≡ s
    take-whole s = ap (take (length s)) (sym (append-nil s)) ∙ take-length_append s []

-- In a record that holds a ClientHello, with any session id, cipher suites and compression
-- methods, other extensions in front of the server name and behind it, and other names in front
-- of the host name and behind it, the parser finds the host name, whatever follows the record,
-- if the host name is not empty and is UTF-8, the version and random take 34 bytes, and no
-- extension or name in front has type 0.
pub parse_tls_sni-encode :
    (h : Hello) (more : Bytes) → IsWellFormed h → parse_tls_sni (encode h ++ more) ≡ found h.host
unfolding parse_tls_sni
parse_tls_sni-encode h more w =
    let (fits, cut, skip) = field16_cut (message h) more in
    rw (fits, cut) (parse_record-message h w)
