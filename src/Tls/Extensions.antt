-- ===== src/Tls/Extensions.antt =====
-- src/tls.rs: the loops over the extensions and the server names.
use nyasniproxy.Base.{
  ℕ, zero, suc, ◌≤◌, Bool, true, false, [], ◌∷◌, Bytes, ◌≡◌, refl, ap, inl, inr, arith, ltb, ◌==◌,
  if◌then◌else◌, length, take, drop, is_empty, u16_be, length-drop, Bool-cases,
}
use nyasniproxy.Base.Utf8.{is_utf8}
use nyasniproxy.Tls.{
  Reason, ClientHelloStatus, need_more, found, invalid, host_name, walk_names, parse_names,
  parse_sni_extension, walk_extensions, parse_extensions, extensions_block, compression_block,
  cipher_block, session_block, parse_client_hello_body,
}

-- Any fuel above the length of the list gives one result.
walk_names-fuel :
    (f g : ℕ) (s : Bytes) → length s ≤ f → length s ≤ g → walk_names f s ≡ walk_names g s
unfolding walk_names
walk_names-fuel f g [] h k = refl
walk_names-fuel zero g (t ∷ s) h k = absurd (omega arith)
walk_names-fuel (suc f) zero (t ∷ s) h k = absurd (omega arith)
walk_names-fuel (suc f) (suc g) (t ∷ []) h k = refl
walk_names-fuel (suc f) (suc g) (t ∷ hi ∷ []) h k = refl
walk_names-fuel (suc f) (suc g) (t ∷ hi ∷ lo ∷ rest) h k =
    let shorter = length-drop (u16_be hi lo) rest in
    ap
      (λ next.
        if ltb (length rest) (u16_be hi lo)
        then invalid Reason.truncated_sni_host
        else if t == 0
        then host_name (take (u16_be hi lo) rest)
        else next)
      (walk_names-fuel f g (drop (u16_be hi lo) rest) (omega (arith, shorter))
        (omega (arith, shorter)))

walk_extensions-fuel :
    (f g : ℕ) (s : Bytes) → length s ≤ f → length s ≤ g → walk_extensions f s ≡ walk_extensions g s
unfolding walk_extensions
walk_extensions-fuel f g [] h k = refl
walk_extensions-fuel zero g (t ∷ s) h k = absurd (omega arith)
walk_extensions-fuel (suc f) zero (t ∷ s) h k = absurd (omega arith)
walk_extensions-fuel (suc f) (suc g) (t1 ∷ []) h k = refl
walk_extensions-fuel (suc f) (suc g) (t1 ∷ t0 ∷ []) h k = refl
walk_extensions-fuel (suc f) (suc g) (t1 ∷ t0 ∷ hi ∷ []) h k = refl
walk_extensions-fuel (suc f) (suc g) (t1 ∷ t0 ∷ hi ∷ lo ∷ rest) h k =
    let shorter = length-drop (u16_be hi lo) rest in
    ap
      (λ next.
        if ltb (length rest) (u16_be hi lo)
        then invalid Reason.truncated_extension
        else if u16_be t1 t0 == 0
        then parse_sni_extension (take (u16_be hi lo) rest)
        else next)
      (walk_extensions-fuel f g (drop (u16_be hi lo) rest) (omega (arith, shorter))
        (omega (arith, shorter)))

-- One round of `while !names.is_empty()`.
pub parse_names-cons :
    (t hi lo : ℕ) (rest : Bytes)
    → parse_names (t ∷ hi ∷ lo ∷ rest) ≡ (
        if ltb (length rest) (u16_be hi lo)
        then invalid Reason.truncated_sni_host
        else if t == 0
        then host_name (take (u16_be hi lo) rest)
        else parse_names (drop (u16_be hi lo) rest))
unfolding parse_names
parse_names-cons t hi lo rest =
    ap
      (λ next.
        if ltb (length rest) (u16_be hi lo)
        then invalid Reason.truncated_sni_host
        else if t == 0
        then host_name (take (u16_be hi lo) rest)
        else next)
      (walk_names-fuel (suc (suc (length rest))) (length (drop (u16_be hi lo) rest)) _
        (omega (arith, length-drop (u16_be hi lo) rest)) (omega arith))

-- One round of `while !extensions.is_empty()`.
pub parse_extensions-cons :
    (t1 t0 hi lo : ℕ) (rest : Bytes)
    → parse_extensions (t1 ∷ t0 ∷ hi ∷ lo ∷ rest) ≡ (
        if ltb (length rest) (u16_be hi lo)
        then invalid Reason.truncated_extension
        else if u16_be t1 t0 == 0
        then parse_sni_extension (take (u16_be hi lo) rest)
        else parse_extensions (drop (u16_be hi lo) rest))
unfolding parse_extensions
parse_extensions-cons t1 t0 hi lo rest =
    ap
      (λ next.
        if ltb (length rest) (u16_be hi lo)
        then invalid Reason.truncated_extension
        else if u16_be t1 t0 == 0
        then parse_sni_extension (take (u16_be hi lo) rest)
        else next)
      (walk_extensions-fuel (suc (suc (suc (length rest)))) (length (drop (u16_be hi lo) rest)) _
        (omega (arith, length-drop (u16_be hi lo) rest)) (omega arith))

-- A verdict on a complete ClientHello: a usable host name, or a reason to refuse.
abbrev pub IsVerdict : ClientHelloStatus → Type 0
IsVerdict need_more = ⊥
IsVerdict (found host) = (is_empty host ≡ false) × (is_utf8 host ≡ true)
IsVerdict (invalid reason) = Unit

host_name-IsVerdict : (host : Bytes) → IsVerdict (host_name host)
unfolding host_name
host_name-IsVerdict host = elim (Bool-cases (is_utf8 host)) [
  | inr bad ↦ rw bad tt
  | inl text ↦ elim (Bool-cases (is_empty host)) [
    | inl e ↦ rw (text, e) tt
    | inr e ↦ rw (text, e) (e, text)
  ]
]

if-IsVerdict :
    (b : Bool) (x y : ClientHelloStatus)
    → IsVerdict x
    → IsVerdict y
    → IsVerdict (if b then x else y)
if-IsVerdict true x y h k = h
if-IsVerdict false x y h k = k

walk_names-IsVerdict : (f : ℕ) (s : Bytes) → length s ≤ f → IsVerdict (walk_names f s)
unfolding walk_names
walk_names-IsVerdict f [] h = tt
walk_names-IsVerdict zero (t ∷ s) h = absurd (omega arith)
walk_names-IsVerdict (suc f) (t ∷ []) h = tt
walk_names-IsVerdict (suc f) (t ∷ hi ∷ []) h = tt
walk_names-IsVerdict (suc f) (t ∷ hi ∷ lo ∷ rest) h =
    if-IsVerdict (ltb (length rest) (u16_be hi lo)) _ _ tt (
      if-IsVerdict (t == 0) _ _ (host_name-IsVerdict (take (u16_be hi lo) rest)) (
        walk_names-IsVerdict f (drop (u16_be hi lo) rest)
          (omega (arith, length-drop (u16_be hi lo) rest))))

parse_sni_extension-IsVerdict : (s : Bytes) → IsVerdict (parse_sni_extension s)
unfolding parse_sni_extension parse_names
parse_sni_extension-IsVerdict [] = tt
parse_sni_extension-IsVerdict (hi ∷ []) = tt
parse_sni_extension-IsVerdict (hi ∷ lo ∷ rest) =
    if-IsVerdict (ltb (length rest) (u16_be hi lo)) _ _ tt
      (walk_names-IsVerdict _ (take (u16_be hi lo) rest) (omega arith))

walk_extensions-IsVerdict : (f : ℕ) (s : Bytes) → length s ≤ f → IsVerdict (walk_extensions f s)
unfolding walk_extensions
walk_extensions-IsVerdict f [] h = tt
walk_extensions-IsVerdict zero (t ∷ s) h = absurd (omega arith)
walk_extensions-IsVerdict (suc f) (t1 ∷ []) h = tt
walk_extensions-IsVerdict (suc f) (t1 ∷ t0 ∷ []) h = tt
walk_extensions-IsVerdict (suc f) (t1 ∷ t0 ∷ hi ∷ []) h = tt
walk_extensions-IsVerdict (suc f) (t1 ∷ t0 ∷ hi ∷ lo ∷ rest) h =
    if-IsVerdict (ltb (length rest) (u16_be hi lo)) _ _ tt (
      if-IsVerdict (u16_be t1 t0 == 0) _ _
        (parse_sni_extension-IsVerdict (take (u16_be hi lo) rest))
        (walk_extensions-IsVerdict f (drop (u16_be hi lo) rest)
          (omega (arith, length-drop (u16_be hi lo) rest))))

extensions_block-IsVerdict : (s : Bytes) → IsVerdict (extensions_block s)
unfolding extensions_block parse_extensions
extensions_block-IsVerdict [] = tt
extensions_block-IsVerdict (hi ∷ []) = tt
extensions_block-IsVerdict (hi ∷ lo ∷ rest) =
    if-IsVerdict (ltb (length rest) (u16_be hi lo)) _ _ tt
      (walk_extensions-IsVerdict _ (take (u16_be hi lo) rest) (omega arith))

compression_block-IsVerdict : (s : Bytes) → IsVerdict (compression_block s)
unfolding compression_block
compression_block-IsVerdict [] = tt
compression_block-IsVerdict (n ∷ rest) =
    if-IsVerdict (ltb (length rest) n) _ _ tt (extensions_block-IsVerdict (drop n rest))

cipher_block-IsVerdict : (s : Bytes) → IsVerdict (cipher_block s)
unfolding cipher_block
cipher_block-IsVerdict [] = tt
cipher_block-IsVerdict (hi ∷ []) = tt
cipher_block-IsVerdict (hi ∷ lo ∷ rest) =
    if-IsVerdict (ltb (length rest) (u16_be hi lo)) _ _ tt
      (compression_block-IsVerdict (drop (u16_be hi lo) rest))

session_block-IsVerdict : (s : Bytes) → IsVerdict (session_block s)
unfolding session_block
session_block-IsVerdict [] = tt
session_block-IsVerdict (n ∷ rest) =
    if-IsVerdict (ltb (length rest) n) _ _ tt (cipher_block-IsVerdict (drop n rest))

-- Whatever bytes a complete ClientHello holds, `parse_client_hello_body` ends with a verdict: it
-- never asks for more, and a host name that it finds is not empty and is UTF-8.
pub parse_client_hello_body-IsVerdict : (body : Bytes) → IsVerdict (parse_client_hello_body body)
unfolding parse_client_hello_body
parse_client_hello_body-IsVerdict body =
    if-IsVerdict (ltb (length body) 34) _ _ tt (session_block-IsVerdict (drop 34 body))
