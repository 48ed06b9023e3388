-- ===== src/Router/Sorting.antt =====
-- src/router.rs: what sorting by a key, as `routing_fingerprint` does it, keeps.
use nyasniproxy.Base.{
  true, false, List, [], ◌∷◌, Option, none, some, Bytes, ◌≡◌, ◌≢◌, ◌⊎◌, inl, inr, refl, sym, ap,
  ap₂, subst, ◌∙◌, arith, All, All-imp, Bool-cases,
}
use mathlib.Core.List.{Permᴰ}
use mathlib.Core.List.Permᴰ.{nil, cons, swap, trans}
use nyasniproxy.Config.{or_option}
use nyasniproxy.Router.{lex_leb, insert_by, sort_by_key}

pub lex_leb_total : (a b : Bytes) → lex_leb a b ≡ false → lex_leb b a ≡ true
unfolding lex_leb
lex_leb_total [] b h = cc
lex_leb_total (c ∷ a) [] h = refl
lex_leb_total (c ∷ a) (d ∷ b) h = ground (arith, lex_leb_total a b)

lex_leb_antisym : (a b : Bytes) → lex_leb a b ≡ true → lex_leb b a ≡ true → a ≡ b
unfolding lex_leb
lex_leb_antisym [] [] h k = refl
lex_leb_antisym [] (d ∷ b) h k = cc
lex_leb_antisym (c ∷ a) [] h k = cc
lex_leb_antisym (c ∷ a) (d ∷ b) h k = ground (arith, lex_leb_antisym a b)

pub lex_leb_trans : (a b c : Bytes) → lex_leb a b ≡ true → lex_leb b c ≡ true → lex_leb a c ≡ true
unfolding lex_leb
lex_leb_trans [] b c h k = refl
lex_leb_trans (x ∷ a) [] c h k = cc
lex_leb_trans (x ∷ a) (y ∷ b) [] h k = cc
lex_leb_trans (x ∷ a) (y ∷ b) (z ∷ c) h k = ground (arith, lex_leb_trans a b c)

-- What the elements of a list say, the last one first.
abbrev pub last_of {κ} : {A : Type 0} {B : Type κ} → (A → Option B) → List A → Option B
last_of f [] = none
last_of f (x ∷ xs) = or_option (last_of f xs) (f x)

or_option-swap {κ} :
    {B : Type κ} (a b c : Option B)
    → (b ≡ none) ⊎ (c ≡ none)
    → or_option (or_option a b) c ≡ or_option (or_option a c) b
or_option-swap (some a) b c h = refl
or_option-swap none none none h = refl
or_option-swap none none (some c) h = refl
or_option-swap none (some b) none h = refl
or_option-swap none (some b) (some c) (inl h) = cc
or_option-swap none (some b) (some c) (inr h) = cc

module _ {A : Type 0} (key : A → Bytes) where
  -- No two elements have the same key.
  abbrev pub Distinct : List A → Type 0
  Distinct [] = Unit
  Distinct (x ∷ xs) = All (λ y. key x ≢ key y) xs × Distinct xs

  pub insert_by-All {κ} :
      (P : A → Type κ) (x : A) (ys : List A) → P x → All P ys → All P (insert_by key x ys)
  unfolding insert_by
  insert_by-All P x [] h k = (h, tt)
  insert_by-All P x (y ∷ ys) h k = elim (Bool-cases (lex_leb (key x) (key y))) [
    | inl t ↦ rw t (h, k)
    | inr f ↦ rw f (k.0, insert_by-All P x ys h k.1)
  ]

  pub sort_by_key-All {κ} : (P : A → Type κ) (xs : List A) → All P xs → All P (sort_by_key key xs)
  unfolding sort_by_key
  sort_by_key-All P [] h = tt
  sort_by_key-All P (x ∷ xs) h =
      insert_by-All P x (sort_by_key key xs) h.0 (sort_by_key-All P xs h.1)

  -- Two insertions in either order.
  insert_by_before :
      (x y : A) (zs : List A)
      → lex_leb (key x) (key y) ≡ true
      → lex_leb (key y) (key x) ≡ false
      → insert_by key x (insert_by key y zs) ≡ insert_by key y (insert_by key x zs)
  unfolding insert_by
  insert_by_before x y [] xy yx = rw (xy, yx) refl
  insert_by_before x y (z ∷ zs) xy yx = elim (Bool-cases (lex_leb (key y) (key z))) [
    | inl yz ↦ let xz = lex_leb_trans (key x) (key y) (key z) xy yz in rw (yz, xz, xy, yx, yz) refl
    | inr zy ↦ elim (Bool-cases (lex_leb (key x) (key z))) [
      | inl xz ↦ rw (zy, xz, yx, zy) refl
      | inr zx ↦ rw (zy, zx, zy) (ap (◌∷◌ z) (insert_by_before x y zs xy yx))
    ]
  ]

  insert_by_comm :
      (x y : A) (zs : List A)
      → key x ≢ key y
      → insert_by key x (insert_by key y zs) ≡ insert_by key y (insert_by key x zs)
  insert_by_comm x y zs ne = elim (Bool-cases (lex_leb (key x) (key y))) [
    | inl xy ↦ elim (Bool-cases (lex_leb (key y) (key x))) [
      | inl yx ↦ absurd (ne (lex_leb_antisym (key x) (key y) xy yx))
      | inr yx ↦ insert_by_before x y zs xy yx
    ]
    | inr yx ↦ sym (insert_by_before y x zs (lex_leb_total (key x) (key y) yx) yx)
  ]

  pub All-Permᴰ : (P : A → Type 0) {xs ys : List A} → Permᴰ xs ys → All P xs → All P ys
  All-Permᴰ P nil h = h
  All-Permᴰ P (cons e d) h = (subst P e h.0, All-Permᴰ P d h.1)
  All-Permᴰ P (swap e d) h = (subst P d h.1.0, (subst P e h.0, h.1.1))
  All-Permᴰ P (trans d d') h = All-Permᴰ P d' (All-Permᴰ P d h)

  pub Distinct-Permᴰ : {xs ys : List A} → Permᴰ xs ys → Distinct xs → Distinct ys
  Distinct-Permᴰ nil h = h
  Distinct-Permᴰ (cons {l₂ = l} e d) h =
      (subst (λ a. All (λ y. key a ≢ key y) l) e (All-Permᴰ _ d h.0), Distinct-Permᴰ d h.1)
  Distinct-Permᴰ (swap {l = l} e d) h = (
    (
      (λ same. h.0.0 (ap key e ∙ sym same ∙ sym (ap key d))),
      subst (λ a. All (λ y. key a ≢ key y) l) d h.1.0,
    ),
    (subst (λ a. All (λ y. key a ≢ key y) l) e h.0.1, h.1.1),
  )
  Distinct-Permᴰ (trans d d') h = Distinct-Permᴰ d' (Distinct-Permᴰ d h)

  -- The order of a list with distinct keys does not count.
  pub sort_by_key-Permᴰ :
      {xs ys : List A} → Permᴰ xs ys → Distinct xs → sort_by_key key xs ≡ sort_by_key key ys
  unfolding sort_by_key
  sort_by_key-Permᴰ nil h = refl
  sort_by_key-Permᴰ (cons e d) h = ap₂ (insert_by key) e (sort_by_key-Permᴰ d h.1)
  sort_by_key-Permᴰ (swap {a} {b} {l = l} e d) h =
      insert_by_comm a b (sort_by_key key l) h.0.0
      ∙ ap₂ (λ u v. insert_by key u (insert_by key v (sort_by_key key l))) d e
  sort_by_key-Permᴰ (trans d d') h =
      sort_by_key-Permᴰ d h ∙ sort_by_key-Permᴰ d' (Distinct-Permᴰ d h)

  last_of-insert_by {κ} :
      {B : Type κ} (f : A → Option B) (x : A) (ys : List A)
      → All (λ y. (f x ≡ none) ⊎ (f y ≡ none)) ys
      → last_of f (insert_by key x ys) ≡ or_option (last_of f ys) (f x)
  unfolding insert_by
  last_of-insert_by f x [] h = refl
  last_of-insert_by f x (y ∷ ys) h = elim (Bool-cases (lex_leb (key x) (key y))) [
    | inl t ↦ rw t refl
    | inr n ↦ rw n (
        ap (λ o. or_option o (f y)) (last_of-insert_by f x ys h.1)
        ∙ or_option-swap (last_of f ys) (f x) (f y) h.0)
  ]

  pub last_of-sort_by_key {κ} :
      {B : Type κ} (f : A → Option B) (xs : List A)
      → ((x y : A) → key x ≢ key y → (f x ≡ none) ⊎ (f y ≡ none))
      → Distinct xs
      → last_of f (sort_by_key key xs) ≡ last_of f xs
  unfolding sort_by_key
  last_of-sort_by_key f [] apart h = refl
  last_of-sort_by_key f (x ∷ xs) apart h =
      last_of-insert_by f x (sort_by_key key xs)
        (sort_by_key-All (λ y. (f x ≡ none) ⊎ (f y ≡ none)) xs (All-imp (λ y. apart x y) xs h.0))
      ∙ ap (λ o. or_option o (f x)) (last_of-sort_by_key f xs apart h.1)
