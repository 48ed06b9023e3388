-- ===== src/Tls/Streaming.antt =====
-- src/tls.rs: the parser on a growing buffer.
use nyasniproxy.Base.{
  ℕ, zero, suc, ◌+◌, ◌<◌, true, false, [], ◌∷◌, ◌++◌, Bytes, ◌≡◌, ◌≢◌, refl, ap, inl, inr, arith,
  ltb, ltb-false, le-ltb, lt-ltb, ◌==◌, length, take, u16_be, length-append, take-append_le,
  Bool-cases,
}
use nyasniproxy.Tls.{need_more, u24_be, parse_record, parse_tls_sni}

record_append :
    (hi lo : ℕ) (rest more : Bytes)
    → ltb (length rest) (u16_be hi lo) ≡ false
    → (ltb (length (rest ++ more)) (u16_be hi lo) ≡ false)
      × (take (u16_be hi lo) (rest ++ more) ≡ take (u16_be hi lo) rest)
record_append hi lo rest more complete = (
  le-ltb _ _ (omega (arith, length-append rest more, ltb-false _ _ complete)),
  take-append_le (u16_be hi lo) rest more (ltb-false _ _ complete),
)

-- Once `parse_tls_sni` has a verdict, a host or a refusal, bytes that arrive later do not change
-- it.
pub parse_tls_sni-append :
    (buf more : Bytes)
    → parse_tls_sni buf ≢ need_more
    → parse_tls_sni (buf ++ more) ≡ parse_tls_sni buf
unfolding parse_tls_sni
parse_tls_sni-append [] more h = absurd (h refl)
parse_tls_sni-append (t ∷ []) more h = absurd (h refl)
parse_tls_sni-append (t ∷ v1 ∷ []) more h = absurd (h refl)
parse_tls_sni-append (t ∷ v1 ∷ v0 ∷ []) more h = absurd (h refl)
parse_tls_sni-append (t ∷ v1 ∷ v0 ∷ hi ∷ []) more h = absurd (h refl)
parse_tls_sni-append (t ∷ v1 ∷ v0 ∷ hi ∷ lo ∷ rest) more h = elim (Bool-cases (t == 22)) [
  | inr other ↦ rw other refl
  | inl handshake ↦ elim (Bool-cases (ltb (length rest) (u16_be hi lo))) [
    | inl partial ↦ absurd (h (rw (handshake, partial) refl))
    | inr complete ↦
        let (still, same) = record_append hi lo rest more complete in
        rw (handshake, complete, still, same) refl
  ]
]

-- A complete first record that holds the four bytes of the handshake header and whose ClientHello
-- goes on in a further record.
pub record IsFragment (t v1 v0 hi lo : ℕ) (h a b c : ℕ) (rest : Bytes) : Type 0 where
  pub handshake : t ≡ 22
  pub hello : h ≡ 1
  pub within_record : u16_be hi lo ≡ 4 + length rest
  pub beyond_record : length rest < u24_be a b c

take_all : (n : ℕ) (s more : Bytes) → n ≡ length s → take n (s ++ more) ≡ s
take_all zero [] more e = refl
take_all zero (c ∷ s) more e = absurd (omega arith)
take_all (suc n) [] more e = absurd (omega arith)
take_all (suc n) (c ∷ s) more e = ap (◌∷◌ c) (take_all n s more (omega arith))

parse_record-beyond :
    (h a b c : ℕ) (rest : Bytes)
    → h ≡ 1
    → length rest < u24_be a b c
    → parse_record (h ∷ a ∷ b ∷ c ∷ rest) ≡ need_more
unfolding parse_record
parse_record-beyond h a b c rest e k =
    let is_hello : (h == 1) ≡ true = ground arith in rw (is_hello, lt-ltb _ _ k) refl

-- A ClientHello of which the first record holds the four bytes of the handshake header, but not
-- the whole, is never accepted: whatever follows that record, the parser asks for more.
pub parse_tls_sni-IsFragment :
    (t v1 v0 hi lo h a b c : ℕ) (rest more : Bytes)
    → IsFragment t v1 v0 hi lo h a b c rest
    → parse_tls_sni ((t ∷ v1 ∷ v0 ∷ hi ∷ lo ∷ h ∷ a ∷ b ∷ c ∷ rest) ++ more) ≡ need_more
unfolding parse_tls_sni
parse_tls_sni-IsFragment t v1 v0 hi lo h a b c rest more f =
    let is_handshake : (t == 22) ≡ true = ground (arith, f.handshake) in
    let complete : ltb (length ((h ∷ a ∷ b ∷ c ∷ rest) ++ more)) (u16_be hi lo) ≡ false =
      le-ltb _ _ (omega (arith, f.within_record, length-append rest more)) in
    let whole =
      take_all (u16_be hi lo) (h ∷ a ∷ b ∷ c ∷ rest) more (omega (arith, f.within_record)) in
    rw (is_handshake, complete, whole) (parse_record-beyond h a b c rest f.hello f.beyond_record)
