-- ===== src/Router/Map.antt =====
-- src/router.rs: the map of the rules, and the lookup in it.
use nyasniproxy.Base.{
  Bool, true, false, List, [], ◌∷◌, ◌++◌, some, Bytes, ◌≡◌, refl, sym, ap, ◌∙◌, inl, inr, arith,
  ◌==◌, ◌&&◌, if◌then◌else◌, is_empty, bytes_eq, bytes_eq_iff, Bool-cases, to_ascii_lowercase,
  lower_byte,
}
use nyasniproxy.Config.{unwrap_or}
use nyasniproxy.Router.{get, insert, Router, trim_end_dots, lookup}

bytes_eq_apart : (a b c : Bytes) → bytes_eq a b ≡ false → bytes_eq a c ≡ true → bytes_eq b c ≡ false
bytes_eq_apart a b c differ same = elim (Bool-cases (bytes_eq b c)) [
  | inr f ↦ f
  | inl t ↦
      cc ((bytes_eq_iff a b).1 ((bytes_eq_iff a c).0 same ∙ sym ((bytes_eq_iff b c).0 t)), differ)
]

shadowed :
    {A : Type 0} (b : Bool) (x y z : A)
    → (if b then x else y) ≡ (if b then x else if b then z else y)
shadowed true x y z = refl
shadowed false x y z = refl

-- A map after an insertion.
pub get-insert :
    {A : Type 0} (m : List (Bytes × A)) (k q : Bytes) (v : A)
    → get (insert m k v) q ≡ (if bytes_eq k q then some v else get m q)
unfolding get insert
get-insert [] k q v = refl
get-insert ((k', v') ∷ m) k q v = elim (Bool-cases (bytes_eq k' k)) [
  | inl same ↦
      rw (same, insert)
        (rw ((bytes_eq_iff k' k).0 same) (shadowed (bytes_eq k q) (some v) (get m q) (some v')))
  | inr differ ↦
      rw (differ, insert)
        (elim (Bool-cases (bytes_eq k' q)) [
          | inl found ↦ rw found (rw (bytes_eq_apart k' k q differ found) refl)
          | inr next ↦ rw next (get-insert m k q v)
        ])
]

trim_end_dots-empty :
    (s : Bytes) → is_empty (trim_end_dots (to_ascii_lowercase s)) ≡ is_empty (trim_end_dots s)
unfolding trim_end_dots lower_byte
trim_end_dots-empty [] = refl
trim_end_dots-empty (c ∷ s) = ground (arith, trim_end_dots-empty s)

trim_end_dots-lower :
    (s : Bytes)
    → to_ascii_lowercase (trim_end_dots (to_ascii_lowercase s))
      ≡ to_ascii_lowercase (trim_end_dots s)
unfolding trim_end_dots lower_byte
trim_end_dots-lower [] = refl
trim_end_dots-lower (c ∷ s) = ground (arith, trim_end_dots-empty s, trim_end_dots-lower s)

trim_end_dots-dot : (s : Bytes) → trim_end_dots (s ++ (b'.' ∷ [])) ≡ trim_end_dots s
unfolding trim_end_dots
trim_end_dots-dot [] = refl
trim_end_dots-dot (c ∷ s) =
    ap (λ r. if is_empty r && c == b'.' then [] else c ∷ r) (trim_end_dots-dot s)

-- A host finds the same proxies in any case and with a dot behind it.
pub lookup-normalise :
    (r : Router) (host : Bytes)
    → (lookup r (to_ascii_lowercase host) ≡ lookup r host)
      × (lookup r (host ++ (b'.' ∷ [])) ≡ lookup r host)
unfolding lookup
lookup-normalise r host = (
  ap (λ k. unwrap_or (get r.rules k) r.default) (trim_end_dots-lower host),
  ap (λ k. unwrap_or (get r.rules (to_ascii_lowercase k)) r.default) (trim_end_dots-dot host),
)
