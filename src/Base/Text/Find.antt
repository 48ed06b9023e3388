-- ===== src/Base/Text/Find.antt =====
-- What `str::find` finds: the first occurrence, wherever the text goes on to.
use nyasniproxy.Base.Tests.{◌==◌, Bool-cases, Option-cases}
use nyasniproxy.Base.Lists.{length, length-append}
use nyasniproxy.Base.Ascii.{Bytes}
use nyasniproxy.Base.Text.{strip_prefix, starts_with, find, next_index}
use Prim.Native.Nat.{ℕ, suc, ◌≤◌, ◌<◌}
use mathlib.Core.Path.{◌≡◌, refl, sym, ap, ◌∙◌}
use mathlib.Core.Logic.{inl, inr}
use mathlib.Core.Bool.{true, false}
use mathlib.Core.Option.{none, some}
use mathlib.Core.List.{[], ◌∷◌, ◌++◌, append_assoc}
use native.Mathlib.Omega.{arith}

pub strip_prefix-append : (p r : Bytes) → strip_prefix (p ++ r) p ≡ some r
unfolding strip_prefix
strip_prefix-append [] r = refl
strip_prefix-append (c ∷ p) r = ground (arith, strip_prefix-append p r)

pub strip_prefix-some : (s p : Bytes) {r : Bytes} → strip_prefix s p ≡ some r → s ≡ p ++ r
unfolding strip_prefix
strip_prefix-some s [] e = ground arith
strip_prefix-some [] (c ∷ p) e = cc
strip_prefix-some (d ∷ s) (c ∷ p) {r} e = elim (Bool-cases (d == c)) [
  | inl same ↦ ground (arith, strip_prefix-some s p {r = r} (rw same at e))
  | inr other ↦ cc (rw other at e)
]

-- A text at least as long as the pattern decides whether it starts with it.
starts_with-append :
    (s t p : Bytes) → length p ≤ length s → starts_with (s ++ t) p ≡ starts_with s p
unfolding strip_prefix
starts_with-append s t [] h = refl
starts_with-append [] t (c ∷ p) h = absurd (omega arith)
starts_with-append (d ∷ s) t (c ∷ p) h = ground (arith, starts_with-append s t p)

starts_with-length : (s p : Bytes) → starts_with s p ≡ true → length p ≤ length s
unfolding strip_prefix
starts_with-length s [] e = omega arith
starts_with-length [] (c ∷ p) e = cc
starts_with-length (d ∷ s) (c ∷ p) e = ground (arith, starts_with-length s p)

pub starts_with_self : (p r : Bytes) → starts_with (p ++ r) p ≡ true
starts_with_self p r = rw (strip_prefix-append p r)

-- No occurrence of `p` in `a ++ p` begins within `a`.
abbrev pub IsFirst : Bytes → Bytes → Type 0
IsFirst [] p = Unit
IsFirst (c ∷ a) p = (starts_with (c ∷ (a ++ p)) p ≡ false) × IsFirst a p

starts_with-find : (s p : Bytes) → starts_with s p ≡ true → find s p ≡ some 0
unfolding find
starts_with-find [] p e = rw e
starts_with-find (c ∷ s) p e = rw e

find-cons :
    (c : ℕ) (s p : Bytes) → starts_with (c ∷ s) p ≡ false → find (c ∷ s) p ≡ next_index (find s p)
unfolding find
find-cons c s p e = rw e

length-le-append : (a p : Bytes) → length p ≤ length (a ++ p)
length-le-append a p = omega (arith, length-append a p)

-- So the search finds that one, whatever stands behind it.
pub find-IsFirst : (a p x : Bytes) → IsFirst a p → find (a ++ (p ++ x)) p ≡ some (length a)
find-IsFirst [] p x h = starts_with-find (p ++ x) p (starts_with_self p x)
find-IsFirst (c ∷ a) p x h =
    find-cons c (a ++ (p ++ x)) p (
      ap (λ s. starts_with (c ∷ s) p) (sym (append_assoc a p x))
      ∙ starts_with-append (c ∷ (a ++ p)) x p (omega (arith, length-le-append a p))
      ∙ h.0)
    ∙ ap next_index (find-IsFirst a p x h.1)

-- The first occurrence splits the text.
pub record Split (s p : Bytes) (k : ℕ) : Type 0 where
  pub before : Bytes
  pub after : Bytes
  pub splits : s ≡ before ++ (p ++ after)
  pub offset : length before ≡ k
  pub first : IsFirst before p

Split-here : (s p : Bytes) → starts_with s p ≡ true → Split s p 0
Split-here s p e = elim (Option-cases (strip_prefix s p)) [
  | inl no_prefix ↦ cc (rw no_prefix at e)
  | inr (r, stripped) ↦ record {
    before = [];
    after = r;
    splits = strip_prefix-some s p stripped;
    offset = refl;
    first = tt;
  }
]

Split-cons :
    (c : ℕ) (s p : Bytes) (k : ℕ)
    → starts_with (c ∷ s) p ≡ false
    → Split s p k
    → Split (c ∷ s) p (suc k)
Split-cons c s p k e v = record {
  before = c ∷ v.before;
  after = v.after;
  splits = ap (◌∷◌ c) v.splits;
  offset = ap suc v.offset;
  first = (earlier, v.first);
}
  where
    earlier : starts_with (c ∷ (v.before ++ p)) p ≡ false
    earlier =
        sym (
          starts_with-append (c ∷ (v.before ++ p)) v.after p
            (omega (arith, length-le-append v.before p)))
        ∙ ap (λ t. starts_with (c ∷ t) p) (append_assoc v.before p v.after ∙ sym v.splits)
        ∙ e

pub find-Split : (s p : Bytes) {k : ℕ} → find s p ≡ some k → Split s p k
unfolding find
find-Split [] p e = elim (Bool-cases (starts_with [] p)) [
  | inl hit ↦ subst_offset (ground arith) (Split-here [] p hit)
  | inr miss ↦ cc (rw miss at e)
]
  where
    subst_offset : {j k : ℕ} → j ≡ k → Split [] p j → Split [] p k
    subst_offset q v = rw (← q) v
find-Split (c ∷ s) p {k} e = elim (Bool-cases (starts_with (c ∷ s) p)) [
  | inl hit ↦ let zero_k : 0 ≡ k = ground arith in rw (← zero_k) (Split-here (c ∷ s) p hit)
  | inr miss ↦ elim (Option-cases (find s p)) [
    | inl nowhere ↦ cc (rw (miss, nowhere) at e)
    | inr (j, later) ↦
        let k_is : suc j ≡ k = ground arith in
        rw (← k_is) (Split-cons c s p j miss (find-Split s p later))
  ]
]

-- More text behind a first occurrence does not move it.
pub find-append : (s p t : Bytes) {k : ℕ} → find s p ≡ some k → find (s ++ t) p ≡ some k
find-append s p t e =
    let v = find-Split s p e in
    ap (λ u. find (u ++ t) p) v.splits
    ∙ ap (λ u. find u p)
        (append_assoc v.before (p ++ v.after) t ∙ ap (◌++◌ v.before) (append_assoc p v.after t))
    ∙ find-IsFirst v.before p (v.after ++ t) v.first
    ∙ ap some v.offset

-- A pattern that stands in the text is found.
pub find-of_append : (a p x : Bytes) → (k : ℕ) × (find (a ++ (p ++ x)) p ≡ some k) × (k ≤ length a)
find-of_append [] p x = (0, starts_with-find (p ++ x) p (starts_with_self p x), omega arith)
find-of_append (c ∷ a) p x =
    let (j, found, bound) = find-of_append a p x in
    elim (Bool-cases (starts_with (c ∷ (a ++ (p ++ x))) p)) [
      | inl hit ↦ (0, starts_with-find _ p hit, omega arith)
      | inr miss ↦ (suc j, find-cons c _ p miss ∙ ap next_index found, omega arith)
    ]

-- A first occurrence at the end of a text is the only one that touches it.
pub IsFirst-none : (a p : Bytes) → 0 < length p → IsFirst a p → find a p ≡ none
IsFirst-none a p h f = elim (Option-cases (find a p)) [
  | inl e ↦ e
  | inr (k, e) ↦
      let v = find-Split a p e in
      let same : some (length a) ≡ some k =
        sym (find-IsFirst a p [] f) ∙ find-append a p (p ++ []) e in
      let at_end : length a ≡ k = ground arith in
      absurd (
        omega (
          arith,
          at_end,
          v.offset,
          ap length v.splits,
          length-append v.before (p ++ v.after),
          length-append p v.after,
        ))
]

pub find-le : (s p : Bytes) {k : ℕ} → find s p ≡ some k → k ≤ length s
find-le s p e =
    let v = find-Split s p e in
    omega (arith, v.offset, ap length v.splits, length-append v.before (p ++ v.after))
