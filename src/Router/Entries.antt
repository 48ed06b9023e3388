-- ===== src/Router/Entries.antt =====
-- src/router.rs: what the rules and the proxies of a map say depends only on its sorted list.
use nyasniproxy.Base.{
  ok_same, Bool, true, false, List, [], ◌∷◌, Option, none, some, Bytes, codes, Result, ok, err, ◌≡◌,
  ◌≢◌, ◌⊎◌, inl, inr, refl, sym, ap, ap₂, ◌∙◌, if◌then◌else◌, Bool-cases, bytes_eq, bytes_eq_iff,
  to_ascii_lowercase, to_ascii_lowercase_idem, eq_ignore_ascii_case, bind-eq-ok,
}
use nyasniproxy.Proxy.{Url, ProxyConfig, parse}
use nyasniproxy.Config.{FileConfig, or_option}
use nyasniproxy.Config.Parse.{is_default}
use nyasniproxy.Router.{sort_by_key, get, insert, load_proxies, resolve, normalise}
use nyasniproxy.Router.Map.{get-insert}
use nyasniproxy.Router.Routes.{rule_at, default_at, last_rule, last_default, route}
use nyasniproxy.Router.Sorting.{Distinct, last_of, last_of-sort_by_key}
use nyasniproxy.Router.Writes.{rule_key, proxy_key, lowered}

-- What one rule or one proxy says, in the form of an option.
abbrev pub rule_said : Bytes → Bytes × List Bytes → Option (List Bytes)
rule_said host r = rule_at r.0 r.1 host

abbrev pub default_said : Bytes × List Bytes → Option (List Bytes)
default_said r = default_at r.0 r.1

abbrev pub found : Result ProxyConfig → Option ProxyConfig
found (ok c) = some c
found (err e) = none

last_rule-last_of :
    (rules : List (Bytes × List Bytes)) (host : Bytes)
    → last_rule rules host ≡ last_of (rule_said host) rules
last_rule-last_of [] host = refl
last_rule-last_of ((k, ns) ∷ rules) host =
    ap (λ o. or_option o (rule_at k ns host)) (last_rule-last_of rules host)

last_default-last_of :
    (rules : List (Bytes × List Bytes)) → last_default rules ≡ last_of default_said rules
last_default-last_of [] = refl
last_default-last_of ((k, ns) ∷ rules) =
    ap (λ o. or_option o (default_at k ns)) (last_default-last_of rules)

lowered-last_of :
    (f : Bytes × List Bytes → Option (List Bytes))
    → ((r : Bytes × List Bytes) → f (rule_key r, r.1) ≡ f r)
    → (rules : List (Bytes × List Bytes)) → last_of f (lowered rules) ≡ last_of f rules
lowered-last_of f same [] = refl
lowered-last_of f same (r ∷ rules) = ap₂ or_option (lowered-last_of f same rules) (same r)

rule_said-lower :
    (host : Bytes) (r : Bytes × List Bytes) → rule_said host (rule_key r, r.1) ≡ rule_said host r
unfolding eq_ignore_ascii_case
rule_said-lower host (k, ns) = rw (to_ascii_lowercase_idem k) refl

default_said-lower : (r : Bytes × List Bytes) → default_said (rule_key r, r.1) ≡ default_said r
unfolding eq_ignore_ascii_case
default_said-lower (k, ns) = rw (to_ascii_lowercase_idem k) refl

-- Two tests for different texts do not both succeed.
one_of {κ} :
    {B : Type κ} (k j q : Bytes) (a b : Option B)
    → k ≢ j
    → ((if bytes_eq k q then a else none) ≡ none) ⊎ ((if bytes_eq j q then b else none) ≡ none)
one_of k j q a b ne = elim (Bool-cases (bytes_eq k q)) [
  | inr f ↦ inl (rw f refl)
  | inl t ↦ elim (Bool-cases (bytes_eq j q)) [
    | inr f ↦ inr (rw f refl)
    | inl u ↦ absurd (ne ((bytes_eq_iff k q).0 t ∙ sym ((bytes_eq_iff j q).0 u)))
  ]
]

guarded : {A : Type 0} (d : Bool) (o : Option A) → o ≡ none → (if d then none else o) ≡ none
guarded true o h = refl
guarded false o h = h

rule_said-apart :
    (host : Bytes) (r q : Bytes × List Bytes)
    → rule_key r ≢ rule_key q
    → (rule_said host r ≡ none) ⊎ (rule_said host q ≡ none)
rule_said-apart host r q ne =
    elim (one_of (rule_key r) (rule_key q) host (some r.1) (some q.1) ne) [
      | inl h ↦ inl (guarded (is_default r.0) _ h)
      | inr h ↦ inr (guarded (is_default q.0) _ h)
    ]

default_said-apart :
    (r q : Bytes × List Bytes)
    → rule_key r ≢ rule_key q
    → (default_said r ≡ none) ⊎ (default_said q ≡ none)
unfolding eq_ignore_ascii_case
default_said-apart r q ne =
    one_of (rule_key r) (rule_key q) (to_ascii_lowercase (codes "default")) (some r.1) (some q.1) ne

-- What the rules of a map say is said by their sorted list with keys in lower case.
sorted-last_of :
    (f : Bytes × List Bytes → Option (List Bytes)) (rules : List (Bytes × List Bytes))
    → ((r : Bytes × List Bytes) → f (rule_key r, r.1) ≡ f r)
    → ((r q : Bytes × List Bytes) → rule_key r ≢ rule_key q → (f r ≡ none) ⊎ (f q ≡ none))
    → Distinct rule_key rules
    → last_of f (lowered (sort_by_key rule_key rules)) ≡ last_of f rules
sorted-last_of f rules same apart h =
    lowered-last_of f same (sort_by_key rule_key rules)
    ∙ last_of-sort_by_key rule_key f rules apart h

pub route-last_of :
    (yaml : FileConfig) (host : Bytes)
    → Distinct rule_key yaml.rules
    → let rules = lowered (sort_by_key rule_key yaml.rules) in
      route yaml host
      ≡ or_option (last_of (rule_said (normalise host)) rules) (last_of default_said rules)
route-last_of yaml host h =
    ap₂ or_option
      (last_rule-last_of yaml.rules (normalise host)
        ∙ sym (
            sorted-last_of (rule_said (normalise host)) yaml.rules
              (rule_said-lower (normalise host)) (rule_said-apart (normalise host)) h))
      (last_default-last_of yaml.rules
        ∙ sym (sorted-last_of default_said yaml.rules default_said-lower default_said-apart h))

pub last_default-same :
    (rules rules' : List (Bytes × List Bytes))
    → Distinct rule_key rules
    → Distinct rule_key rules'
    → sort_by_key rule_key rules ≡ sort_by_key rule_key rules'
    → last_default rules ≡ last_default rules'
last_default-same rules rules' h h' same =
    last_default-last_of rules
    ∙ sym (sorted-last_of default_said rules default_said-lower default_said-apart h)
    ∙ ap (λ l. last_of default_said (lowered l)) same
    ∙ sorted-last_of default_said rules' default_said-lower default_said-apart h'
    ∙ sym (last_default-last_of rules')

module _ (parse_url : Bytes → Option Url) where
  abbrev pub entry : Bytes → Bytes × Bytes → Option ProxyConfig
  entry name p = if bytes_eq p.0 name then found (parse parse_url p.1) else none

  or_option_assoc :
      {A : Type 0} (a : Option A) (b : Bool) (c : A) (d : Option A)
      → or_option a (if b then some c else d)
        ≡ or_option (or_option a (if b then some c else none)) d
  or_option_assoc (some a) b c d = refl
  or_option_assoc none true c d = refl
  or_option_assoc none false c d = refl

  pub load_proxies-get :
      (ps : List (Bytes × Bytes)) (acc : List (Bytes × ProxyConfig)) (name : Bytes)
      {m : List (Bytes × ProxyConfig)}
      → load_proxies parse_url ps acc ≡ ok m
      → get m name ≡ or_option (last_of (entry name) ps) (get acc name)
  unfolding load_proxies
  load_proxies-get [] acc name e = ap (λ l. get l name) (sym (ok_same e))
  load_proxies-get ((n, url) ∷ ps) acc name e =
      let (proxy, parsed, e1) = bind-eq-ok (parse parse_url url) _ e in
      load_proxies-get ps (insert acc n proxy) name e1
      ∙ ap (or_option (last_of (entry name) ps)) (get-insert acc n name proxy)
      ∙ or_option_assoc (last_of (entry name) ps) (bytes_eq n name) proxy (get acc name)
      ∙ ap
          (λ r.
            or_option
              (or_option (last_of (entry name) ps) (if bytes_eq n name then found r else none))
              (get acc name))
          (sym parsed)

  -- The proxies that are loaded depend only on the sorted list.
  pub load_proxies-same :
      (ps os : List (Bytes × Bytes)) (name : Bytes) {m l : List (Bytes × ProxyConfig)}
      → Distinct proxy_key ps
      → Distinct proxy_key os
      → sort_by_key proxy_key ps ≡ sort_by_key proxy_key os
      → load_proxies parse_url ps [] ≡ ok m
      → load_proxies parse_url os [] ≡ ok l
      → get m name ≡ get l name
  unfolding get
  load_proxies-same ps os name {m} {l} dp d_o same p o =
      load_proxies-get ps [] name p
      ∙ ap (λ f. or_option f none)
          (sym (last_of-sort_by_key proxy_key (entry name) ps apart dp)
            ∙ ap (last_of (entry name)) same
            ∙ last_of-sort_by_key proxy_key (entry name) os apart d_o)
      ∙ sym (load_proxies-get os [] name o)
    where
      apart :
          (p q : Bytes × Bytes)
          → proxy_key p ≢ proxy_key q
          → (entry name p ≡ none) ⊎ (entry name q ≡ none)
      apart p q ne =
          one_of p.0 q.0 name (found (parse parse_url p.1)) (found (parse parse_url q.1)) ne

pub resolve-same :
    (m l : List (Bytes × ProxyConfig)) (names : List Bytes)
    → ((name : Bytes) → get m name ≡ get l name)
    → resolve m names ≡ resolve l names
unfolding resolve
resolve-same m l [] same = refl
resolve-same m l (n ∷ names) same = rw (same n, resolve-same m l names same) refl
