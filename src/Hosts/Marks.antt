-- ===== src/Hosts/Marks.antt =====
-- src/hosts.rs: searching for a mark, whose `#` stands at its front alone.
use nyasniproxy.Base.{
  ℕ, suc, ◌+◌, true, false, [], ◌∷◌, ◌++◌, Option, none, some, Bytes, ◌≡◌, refl, sym, ap, ◌∙◌, inl,
  inr, arith, length, Bool-cases, Option-cases,
}
use nyasniproxy.Base.Text.{contains, strip_prefix, starts_with, next_index, find}

find_hit : (c : ℕ) (x p : Bytes) → starts_with (c ∷ x) p ≡ true → find (c ∷ x) p ≡ some 0
unfolding find
find_hit c x p h = rw h refl

find_miss :
    (c : ℕ) (x p : Bytes) → starts_with (c ∷ x) p ≡ false → find (c ∷ x) p ≡ next_index (find x p)
unfolding find
find_miss c x p h = rw h refl

abbrev pub shift : ℕ → Option ℕ → Option ℕ
shift n none = none
shift n (some k) = some (n + k)

-- A byte that the pattern does not hold cuts off what can match.
starts_with-stop :
    (x y p : Bytes) (d : ℕ) → contains p d ≡ false → starts_with (x ++ (d ∷ y)) p ≡ starts_with x p
unfolding strip_prefix
starts_with-stop x y [] d h = refl
starts_with-stop [] y (b ∷ p) d h = ground arith
starts_with-stop (c ∷ x) y (b ∷ p) d h = ground (arith, starts_with-stop x y p d)

-- So does the `#` of the next mark.
starts_with_mark :
    (p : Bytes)
    → contains p b'#' ≡ false
    → (c : ℕ) (x y : Bytes)
    → starts_with (c ∷ (x ++ (b'#' ∷ y))) (b'#' ∷ p) ≡ starts_with (c ∷ x) (b'#' ∷ p)
unfolding strip_prefix
starts_with_mark p plain c x y = ground (arith, starts_with-stop x y p b'#' plain)

unshift : (o : Option ℕ) → next_index o ≡ none → o ≡ none
unshift none e = refl
unshift (some k) e = cc

shift-suc : (n : ℕ) (o : Option ℕ) → next_index (shift n o) ≡ shift (suc n) o
shift-suc n none = refl
shift-suc n (some k) = ap some (omega arith)

find_behind :
    (p y : Bytes) (d : ℕ)
    → ((c : ℕ) (x : Bytes) → starts_with (c ∷ (x ++ (d ∷ y))) p ≡ starts_with (c ∷ x) p)
    → (x : Bytes) → find x p ≡ none
    → find (x ++ (d ∷ y)) p ≡ shift (length x) (find (d ∷ y) p)
find_behind p y d same [] h = elim (Option-cases (find (d ∷ y) p)) [
  | inl e ↦ rw e refl
  | inr (k, e) ↦ rw e (ap some (omega arith))
]
find_behind p y d same (c ∷ x) h = elim (Bool-cases (starts_with (c ∷ x) p)) [
  | inl hit ↦ cc (find_hit c x p hit, h)
  | inr miss ↦
      find_miss c (x ++ (d ∷ y)) p (same c x ∙ miss)
      ∙ ap next_index
          (find_behind p y d same x (unshift (find x p) (sym (find_miss c x p miss) ∙ h)))
      ∙ shift-suc (length x) (find (d ∷ y) p)
]

-- Text without a mark moves the first one behind it.
pub find-before :
    (p : Bytes)
    → contains p b'#' ≡ false
    → (x y : Bytes) → find x (b'#' ∷ p) ≡ none
    → find (x ++ (b'#' ∷ y)) (b'#' ∷ p) ≡ shift (length x) (find (b'#' ∷ y) (b'#' ∷ p))
find-before p plain x y h =
    find_behind (b'#' ∷ p) y b'#' (λ c z. starts_with_mark p plain c z y) x h

-- Text without `#` holds no mark.
pub find-no-hash : (p x : Bytes) → contains x b'#' ≡ false → find x (b'#' ∷ p) ≡ none
unfolding find strip_prefix
find-no-hash p [] h = refl
find-no-hash p (c ∷ x) h = ground (arith, find-no-hash p x)

-- Nor does text without a mark with such text behind it, if the mark does not hold the byte
-- that comes first there.
pub find-append-no-hash :
    (p x y : Bytes) (d : ℕ)
    → contains (b'#' ∷ p) d ≡ false
    → contains (d ∷ y) b'#' ≡ false
    → find x (b'#' ∷ p) ≡ none
    → find (x ++ (d ∷ y)) (b'#' ∷ p) ≡ none
find-append-no-hash p x y d stop plain h =
    find_behind (b'#' ∷ p) y d (λ c z. starts_with-stop (c ∷ z) y (b'#' ∷ p) d stop) x h
    ∙ ap (shift (length x)) (find-no-hash p (d ∷ y) plain)
