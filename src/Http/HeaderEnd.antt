-- ===== src/Http/HeaderEnd.antt =====
-- src/http.rs: `header_end` is a search for the first blank line.
use nyasniproxy.Base.{
  ℕ, ◌≤◌, ◌<◌, false, [], ◌∷◌, ◌++◌, none, some, Bytes, ◌≡◌, refl, sym, ap, ◌∙◌, inl, inr, arith,
  leb, if◌then◌else◌, length, take, bytes_eq, Bool-cases,
}
use nyasniproxy.Base.Text.{next_index, strip_prefix, starts_with, find}
use nyasniproxy.Base.Text.Find.{IsFirst, Split, find-Split, find-append, find-IsFirst}
use nyasniproxy.Http.{blank_line, header_end}

window-starts_with :
    (s p : Bytes) → length p ≤ length s → bytes_eq (take (length p) s) p ≡ starts_with s p
unfolding bytes_eq strip_prefix
window-starts_with [] [] h = refl
window-starts_with (c ∷ s) [] h = refl
window-starts_with [] (d ∷ p) h = absurd (omega arith)
window-starts_with (c ∷ s) (d ∷ p) h = ground (arith, window-starts_with s p)

starts_with-short : (s p : Bytes) → length s < length p → starts_with s p ≡ false
unfolding strip_prefix
starts_with-short s [] h = absurd (omega arith)
starts_with-short [] (d ∷ p) h = refl
starts_with-short (c ∷ s) (d ∷ p) h = ground (arith, starts_with-short s p)

find-short : (s p : Bytes) → length s < length p → find s p ≡ none
unfolding find
find-short [] p h = rw (starts_with-short [] p h)
find-short (c ∷ s) p h = rw (starts_with-short (c ∷ s) p h, find-short s p (omega arith))

position-find : (s : Bytes) → header_end s ≡ find s blank_line
unfolding header_end find
position-find [] = refl
position-find (c ∷ s) = elim (Bool-cases (leb 4 (length (c ∷ s)))) [
  | inl long ↦
      rw (long, window-starts_with (c ∷ s) blank_line (ground arith))
        (ap (λ o. if starts_with (c ∷ s) blank_line then some 0 else next_index o)
          (position-find s))
  | inr short ↦ rw short (sym (find-short (c ∷ s) blank_line (ground arith)))
]

-- `header_end` returns the offset of the first blank line, exactly as the search for a first
-- occurrence of CR LF CR LF does.
header_end-find : (s : Bytes) → header_end s ≡ find s blank_line
header_end-find = position-find

pub header_end-Split : (s : Bytes) {k : ℕ} → header_end s ≡ some k → Split s blank_line k
header_end-Split s e = find-Split s blank_line (sym (header_end-find s) ∙ e)

-- Bytes that follow a complete header do not move its end.
pub header_end-append : (s t : Bytes) {k : ℕ} → header_end s ≡ some k → header_end (s ++ t) ≡ some k
header_end-append s t e =
    header_end-find (s ++ t) ∙ find-append s blank_line t (sym (header_end-find s) ∙ e)

pub header_end-IsFirst :
    (a x : Bytes) → IsFirst a blank_line → header_end (a ++ (blank_line ++ x)) ≡ some (length a)
header_end-IsFirst a x h = header_end-find _ ∙ find-IsFirst a blank_line x h
