-- ===== src/Target/Hostname.antt =====
-- src/target.rs: `is_valid_hostname` decides the DNS host names.
use nyasniproxy.Base.{
  ℕ, ◌≤◌, Bool, true, false, ◌||◌, List, [], ◌∷◌, ◌++◌, Bytes, ◌≡◌, ◌≢◌, refl, sym, ap, ◌∙◌, inl,
  inr, arith, ◌↔◌, ltb, ◌==◌, length, is_empty, all, All, Bool-cases, append_assoc, append-nil,
  All-append, is_ascii_alphanumeric, and-left, and-right, and3_iff,
}
use nyasniproxy.Base.Text.{
  starts_with_byte, ends_with_byte, split, push_head, ends_with_byte-append,
}
use nyasniproxy.Target.{last_byte, is_valid_dns_label, is_valid_hostname}

abbrev pub IsLabelByte : ℕ → Type 0
IsLabelByte c = (is_ascii_alphanumeric c || c == b'-') ≡ true

-- RFC 1123: letters, digits and inner hyphens, at most 63 bytes.
pub data IsLabel : Bytes → Type 0 where
  label :
      (c : ℕ) (s : Bytes)
      → is_ascii_alphanumeric c ≡ true
      → is_ascii_alphanumeric (last_byte c s) ≡ true
      → All IsLabelByte (c ∷ s)
      → length (c ∷ s) ≤ 63
      → IsLabel (c ∷ s)

-- Labels with a dot between two.
pub data IsDotted : Bytes → Type 0 where
  one : {l : Bytes} → IsLabel l → IsDotted l
  more : {l h : Bytes} → IsLabel l → IsDotted h → IsDotted (l ++ (b'.' ∷ h))

abbrev join : List Bytes → Bytes
join [] = []
join (p ∷ []) = p
join (p ∷ q ∷ ps) = p ++ (b'.' ∷ join (q ∷ ps))

join-push_head : (c : ℕ) (ps : List Bytes) → join (push_head c ps) ≡ c ∷ join ps
join-push_head c [] = refl
join-push_head c (p ∷ []) = refl
join-push_head c (p ∷ q ∷ ps) = refl

split-ne-nil : (s : Bytes) → split s b'.' ≢ []
unfolding split
split-ne-nil [] e = cc
split-ne-nil (c ∷ s) e = ground (arith, push_head_ne c (split s b'.'))
  where
    push_head_ne : (c : ℕ) (ps : List Bytes) → push_head c ps ≢ []
    push_head_ne c [] e = cc
    push_head_ne c (p ∷ ps) e = cc

join-cons : (ps : List Bytes) → ps ≢ [] → join ([] ∷ ps) ≡ b'.' ∷ join ps
join-cons [] h = absurd (h refl)
join-cons (p ∷ ps) h = refl

join-split : (s : Bytes) → join (split s b'.') ≡ s
unfolding split
join-split [] = refl
join-split (c ∷ s) = elim (Bool-cases (c == b'.')) [
  | inl dot ↦ rw dot (
      join-cons (split s b'.') (split-ne-nil s)
      ∙ ap (◌∷◌ b'.') (join-split s)
      ∙ ap (λ d. d ∷ s) (ground arith))
  | inr other ↦ rw other (join-push_head c (split s b'.') ∙ ap (◌∷◌ c) (join-split s))
]

all-All : (p : ℕ → Bool) (s : Bytes) → all p s ≡ true → All (λ c. p c ≡ true) s
all-All p [] h = tt
all-All p (c ∷ s) h = (and-left _ _ h, all-All p s (and-right (p c) _ h))

All-all : (p : ℕ → Bool) (s : Bytes) → All (λ c. p c ≡ true) s → all p s ≡ true
All-all p [] h = refl
All-all p (c ∷ s) h = rw h.0 (All-all p s h.1)

is_valid_dns_label-IsLabel : (l : Bytes) → is_valid_dns_label l ≡ true → IsLabel l
unfolding is_valid_dns_label
is_valid_dns_label-IsLabel [] e = cc
is_valid_dns_label-IsLabel (c ∷ s) e = elim (Bool-cases (ltb 63 (length (c ∷ s)))) [
  | inl long ↦ cc (rw long at e)
  | inr short ↦
      let (first, last, bytes) = (and3_iff _ _ _).0 (rw short at e) in
      label c s first last (all-All (λ b. is_ascii_alphanumeric b || b == b'-') (c ∷ s) bytes)
        (ground arith)
]

IsLabel-is_valid_dns_label : {l : Bytes} → IsLabel l → is_valid_dns_label l ≡ true
unfolding is_valid_dns_label
IsLabel-is_valid_dns_label (label c s first last bytes short) =
    let fits : ltb 63 (length (c ∷ s)) ≡ false = ground arith in
    rw fits (
      (and3_iff _ _ _).1
        (first, last, All-all (λ b. is_ascii_alphanumeric b || b == b'-') (c ∷ s) bytes))

IsDotted-join : (ps : List Bytes) → ps ≢ [] → all is_valid_dns_label ps ≡ true → IsDotted (join ps)
IsDotted-join [] ne h = absurd (ne refl)
IsDotted-join (p ∷ []) ne h = one (is_valid_dns_label-IsLabel p (and-left _ _ h))
IsDotted-join (p ∷ q ∷ ps) ne h =
    more (is_valid_dns_label-IsLabel p (and-left _ _ h))
      (IsDotted-join (q ∷ ps) (λ e. cc) (and-right (is_valid_dns_label p) _ h))

alnum-not-dot : (c : ℕ) → is_ascii_alphanumeric c ≡ true → (c == b'.') ≡ false
unfolding is_ascii_alphanumeric
alnum-not-dot c h = ground arith

IsLabelByte-not-dot : (c : ℕ) → IsLabelByte c → (c == b'.') ≡ false
unfolding is_ascii_alphanumeric
IsLabelByte-not-dot c h = ground arith

split_label : (l : Bytes) → All IsLabelByte l → split l b'.' ≡ l ∷ []
unfolding split
split_label [] h = refl
split_label (c ∷ l) h = rw (IsLabelByte-not-dot c h.0) (ap (push_head c) (split_label l h.1))

split_label_append :
    (l h : Bytes) → All IsLabelByte l → split (l ++ (b'.' ∷ h)) b'.' ≡ l ∷ split h b'.'
unfolding split
split_label_append [] h a = refl
split_label_append (c ∷ l) h a =
    rw (IsLabelByte-not-dot c a.0) (ap (push_head c) (split_label_append l h a.1))

IsLabel-bytes : {l : Bytes} → IsLabel l → All IsLabelByte l
IsLabel-bytes (label c s first last bytes short) = bytes

IsDotted-labels : {h : Bytes} → IsDotted h → all is_valid_dns_label (split h b'.') ≡ true
IsDotted-labels (one {l} v) =
    rw (split_label l (IsLabel-bytes v), IsLabel-is_valid_dns_label v) refl
IsDotted-labels (more {l} {h} v d) =
    rw (split_label_append l h (IsLabel-bytes v), IsLabel-is_valid_dns_label v) (IsDotted-labels d)

-- The first and the last byte of a dotted name are letters or digits.
abbrev Front : Bytes → Type 0
Front s = (is_empty s ≡ false) × (starts_with_byte s b'.' ≡ false)

IsLabel-Front : {l : Bytes} (t : Bytes) → IsLabel l → Front (l ++ t)
IsLabel-Front t (label c s first last bytes short) = (refl, alnum-not-dot c first)

IsDotted-Front : {h : Bytes} → IsDotted h → Front h
IsDotted-Front (one {l} v) = rw (append-nil l) at (IsLabel-Front [] v)
IsDotted-Front (more {l} {h} v d) = IsLabel-Front (b'.' ∷ h) v

ends_with_byte-last : (c : ℕ) (s : Bytes) → ends_with_byte (c ∷ s) b'.' ≡ (last_byte c s == b'.')
ends_with_byte-last c [] = refl
ends_with_byte-last c (d ∷ s) = ends_with_byte-last d s

IsDotted-end : {h : Bytes} → IsDotted h → ends_with_byte h b'.' ≡ false
IsDotted-end (one v) = IsLabel-end v
  where
    IsLabel-end : {l : Bytes} → IsLabel l → ends_with_byte l b'.' ≡ false
    IsLabel-end (label c s first last bytes short) = ends_with_byte-last c s ∙ alnum-not-dot _ last
IsDotted-end (more {l} {h} v d) =
    ap (λ s. ends_with_byte s b'.') (sym (append_assoc l (b'.' ∷ []) h))
    ∙ ends_with_byte-append (l ++ b'.' ∷ []) h b'.' (IsDotted-Front d).0
    ∙ IsDotted-end d

-- `is_valid_hostname` accepts exactly the texts of at most 253 bytes that are labels joined by
-- single dots, a label being 1 to 63 letters, digits and hyphens that neither begins nor ends
-- with a hyphen.
pub is_valid_hostname_iff :
    (h : Bytes) → (is_valid_hostname h ≡ true) ↔ ((length h ≤ 253) × IsDotted h)
is_valid_hostname_iff h = (to, from)
  where
    to : is_valid_hostname h ≡ true → (length h ≤ 253) × IsDotted h
    to e =
        unfold is_valid_hostname in
        elim (Bool-cases
          (is_empty h || ltb 253 (length h) || starts_with_byte h b'.' || ends_with_byte h b'.')) [
            | inl bad ↦ cc (rw bad at e)
            | inr good ↦ (
              ground arith,
              rw join-split at (IsDotted-join (split h b'.') (split-ne-nil h) (rw good at e)),
            )
          ]

    from : (length h ≤ 253) × IsDotted h → is_valid_hostname h ≡ true
    from (short, d) =
        let front = IsDotted-Front d in
        let fits : ltb 253 (length h) ≡ false = ground arith in
        unfold is_valid_hostname in rw (front.0, fits, front.1, IsDotted-end d) (IsDotted-labels d)

-- The bytes that a hosts line and a DNS name can hold safely.
abbrev pub IsHostByte : ℕ → Type 0
IsHostByte c = (is_ascii_alphanumeric c || c == b'-' || c == b'.') ≡ true

IsLabel-IsHostByte : (l : Bytes) → All IsLabelByte l → All IsHostByte l
IsLabel-IsHostByte [] h = tt
IsLabel-IsHostByte (c ∷ l) h = (ground (arith, h.0), IsLabel-IsHostByte l h.1)

IsDotted-IsHostByte : {h : Bytes} → IsDotted h → All IsHostByte h
IsDotted-IsHostByte (one {l} v) = IsLabel-IsHostByte l (IsLabel-bytes v)
IsDotted-IsHostByte (more {l} {h} v d) =
    All-append IsHostByte l _ (IsLabel-IsHostByte l (IsLabel-bytes v))
      (ground arith, IsDotted-IsHostByte d)

-- A valid host name holds letters, digits, hyphens and dots alone, so no space, line end or
-- `#` that could add an entry to the hosts file.
pub is_valid_hostname-IsHostByte : (h : Bytes) → is_valid_hostname h ≡ true → All IsHostByte h
is_valid_hostname-IsHostByte h e = IsDotted-IsHostByte ((is_valid_hostname_iff h).0 e).1
