-- ===== src/Router/Ordered.antt =====
-- src/router.rs: a list sorted by its keys is in their order and has the same elements.
use nyasniproxy.Base.{
  Bool, true, ◌||◌, List, [], ◌∷◌, Bytes, ◌≡◌, ◌≢◌, refl, sym, ap, ◌∙◌, arith, any, All, All-imp,
  if-elim,
}
use nyasniproxy.Router.{lex_leb, insert_by, sort_by_key}
use nyasniproxy.Router.Sorting.{
  lex_leb_total, lex_leb_trans, Distinct, insert_by-All, sort_by_key-All,
}

module _ {A : Type 0} (key : A → Bytes) where
  abbrev pub Ordered : List A → Type 0
  Ordered [] = Unit
  Ordered (x ∷ xs) = All (λ y. lex_leb (key x) (key y) ≡ true) xs × Ordered xs

  insert_by-Ordered : (x : A) (ys : List A) → Ordered ys → Ordered (insert_by key x ys)
  unfolding insert_by
  insert_by-Ordered x [] h = (tt, tt)
  insert_by-Ordered x (y ∷ ys) h =
      if-elim Ordered (lex_leb (key x) (key y)) _ _
        (λ xy. ((xy, All-imp (λ z. lex_leb_trans (key x) (key y) (key z) xy) ys h.0), h))
        (λ yx. (
          insert_by-All key _ x ys (lex_leb_total (key x) (key y) yx) h.0,
          insert_by-Ordered x ys h.1,
        ))

  pub sort_by_key-Ordered : (xs : List A) → Ordered (sort_by_key key xs)
  unfolding sort_by_key
  sort_by_key-Ordered [] = tt
  sort_by_key-Ordered (x ∷ xs) = insert_by-Ordered x (sort_by_key key xs) (sort_by_key-Ordered xs)

  insert_by-Distinct :
      (x : A) (ys : List A)
      → All (λ y. key x ≢ key y) ys
      → Distinct key ys
      → Distinct key (insert_by key x ys)
  unfolding insert_by
  insert_by-Distinct x [] n h = (tt, tt)
  insert_by-Distinct x (y ∷ ys) n h =
      if-elim (Distinct key) (lex_leb (key x) (key y)) _ _ (λ xy. (n, h))
        (λ yx. (insert_by-All key _ x ys (λ e. n.0 (sym e)) h.0, insert_by-Distinct x ys n.1 h.1))

  pub sort_by_key-Distinct : (xs : List A) → Distinct key xs → Distinct key (sort_by_key key xs)
  unfolding sort_by_key
  sort_by_key-Distinct [] h = tt
  sort_by_key-Distinct (x ∷ xs) h =
      insert_by-Distinct x (sort_by_key key xs) (sort_by_key-All key _ xs h.0)
        (sort_by_key-Distinct xs h.1)

  any-insert_by :
      (f : A → Bool) (x : A) (ys : List A) → any f (insert_by key x ys) ≡ (f x || any f ys)
  unfolding insert_by
  any-insert_by f x [] = refl
  any-insert_by f x (y ∷ ys) =
      if-elim (λ l. any f l ≡ (f x || (f y || any f ys))) (lex_leb (key x) (key y)) _ _ (λ xy. refl)
        (λ yx. ground (arith, any-insert_by f x ys))

  pub any-sort_by_key : (f : A → Bool) (xs : List A) → any f (sort_by_key key xs) ≡ any f xs
  unfolding sort_by_key
  any-sort_by_key f [] = refl
  any-sort_by_key f (x ∷ xs) =
      any-insert_by f x (sort_by_key key xs) ∙ ap (◌||◌ (f x)) (any-sort_by_key f xs)
