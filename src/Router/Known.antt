-- ===== src/Router/Known.antt =====
-- src/router.rs: when the names of a rule are those of proxies, and `resolve` finds them.
use nyasniproxy.Base.{
  Bool, true, false, List, [], ◌∷◌, Option, none, some, Bytes, Error, ok, ◌≡◌, refl, sym, ap, ◌∙◌,
  inl, inr, ok_same, any, is_empty, bytes_eq, All, Bool-cases, Option-cases, bind-eq-ok, or_fail,
}
use nyasniproxy.Proxy.{Url, ProxyConfig}
use nyasniproxy.Config.{or_option}
use nyasniproxy.Router.{Hop, get, load_proxies, resolve}
use nyasniproxy.Router.Sorting.{last_of}
use nyasniproxy.Router.Entries.{entry, load_proxies-get}
use nyasniproxy.Router.Success.{Loads}

-- The configuration has a proxy of this name.
abbrev pub has_proxy : List (Bytes × Bytes) → Bytes → Bool
has_proxy ps name = any (λ p. bytes_eq p.0 name) ps

-- A map has an entry.
abbrev pub Has : List (Bytes × ProxyConfig) → Bytes → Type 0
Has m name = (c : ProxyConfig) × (get m name ≡ some c)

module _ (parse_url : Bytes → Option Url) where
  last_entry-some :
      (name : Bytes) (ps : List (Bytes × Bytes))
      → All (Loads parse_url) ps
      → has_proxy ps name ≡ true
      → (c : ProxyConfig) × (last_of (entry parse_url name) ps ≡ some c)
  last_entry-some name [] h e = cc
  last_entry-some name (p ∷ ps) h e = elim (Option-cases (last_of (entry parse_url name) ps)) [
    | inr (c, later) ↦ (c, rw later refl)
    | inl no_later ↦ elim (Bool-cases (bytes_eq p.0 name)) [
      | inl same ↦ (h.0.0, rw (no_later, same, h.0.1) refl)
      | inr other ↦
          let (c, later) = last_entry-some name ps h.1 (rw other at e) in
          absurd (cc (later, no_later))
    ]
  ]

  last_entry-none :
      (name : Bytes) (ps : List (Bytes × Bytes))
      → has_proxy ps name ≡ false
      → last_of (entry parse_url name) ps ≡ none
  last_entry-none name [] e = refl
  last_entry-none name (p ∷ ps) e = elim (Bool-cases (bytes_eq p.0 name)) [
    | inl same ↦ cc (rw same at e)
    | inr other ↦ rw (other, last_entry-none name ps (rw other at e)) refl
  ]

  pub load_proxies-Has :
      (ps : List (Bytes × Bytes)) (name : Bytes) {m : List (Bytes × ProxyConfig)}
      → All (Loads parse_url) ps
      → load_proxies parse_url ps [] ≡ ok m
      → has_proxy ps name ≡ true
      → Has m name
  unfolding get
  load_proxies-Has ps name h loaded e =
      let (c, last) = last_entry-some name ps h e in
      (c, load_proxies-get parse_url ps [] name loaded ∙ rw last refl)

  pub Has-load_proxies :
      (ps : List (Bytes × Bytes)) (name : Bytes) {m : List (Bytes × ProxyConfig)}
      → load_proxies parse_url ps [] ≡ ok m
      → Has m name
      → has_proxy ps name ≡ true
  unfolding get
  Has-load_proxies ps name {m} loaded (c, here) = elim (Bool-cases (has_proxy ps name)) [
    | inl t ↦ t
    | inr f ↦
        let gone : get m name ≡ none =
          load_proxies-get parse_url ps [] name loaded
          ∙ ap (λ o. or_option o none) (last_entry-none name ps f) in
        cc (here, gone)
  ]

-- Names that are resolved, to as many hops.
pub resolve-Has :
    (m : List (Bytes × ProxyConfig)) (names : List Bytes) {hops : List Hop}
    → resolve m names ≡ ok hops
    → All (Has m) names × (is_empty hops ≡ is_empty names)
unfolding resolve
resolve-Has m [] e = (tt, ap is_empty (sym (ok_same e)))
resolve-Has m (name ∷ names) e =
    let (c, here, e1) = bind-eq-ok (or_fail (get m name) (Error.unknown_proxy name)) _ e in
    let (rest, later, e2) = bind-eq-ok (resolve m names) _ e1 in
    (((c, given (get m name) here), (resolve-Has m names later).0), ap is_empty (sym (ok_same e2)))
  where
    given :
        (o : Option ProxyConfig) {c : ProxyConfig}
        → or_fail o (Error.unknown_proxy name) ≡ ok c
        → o ≡ some c
    given none h = cc
    given (some a) h = cc

pub Has-resolve :
    (m : List (Bytes × ProxyConfig)) (names : List Bytes)
    → All (Has m) names
    → (hops : List Hop) × (resolve m names ≡ ok hops)
unfolding resolve
Has-resolve m [] h = ([], refl)
Has-resolve m (name ∷ names) h =
    let (hops, later) = Has-resolve m names h.1 in
    (record { name = name; proxy = h.0.0 } ∷ hops, rw (h.0.1, later) refl)
