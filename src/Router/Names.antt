-- ===== src/Router/Names.antt =====
-- src/router.rs: which host names `from_yaml` hands to the hosts file.
use nyasniproxy.Base.{
  ok_same, ℕ, Bool, true, false, not, ◌&&◌, ◌||◌, List, [], ◌∷◌, ◌++◌, Option, Bytes, Error, ok,
  ◌≡◌, ◌≢◌, refl, sym, ap, ap₂, ◌∙◌, inl, inr, arith, is_empty, any, All, bytes_eq, bytes_eq_iff,
  Bool-cases, bail_if, or_fail, bind-eq-ok, to_ascii_lowercase, subst, All-append,
}
use nyasniproxy.Target.{is_valid_hostname}
use nyasniproxy.Proxy.{Url, ProxyConfig}
use nyasniproxy.Config.{FileConfig}
use nyasniproxy.Config.Parse.{is_default}
use nyasniproxy.Router.{
  Hop, Runtime, load_proxies, resolve, Build, add_host, add_rule, add_rules, HashWrite, empty_build,
  from_yaml,
}
use nyasniproxy.Router.Sorting.{Distinct, sort_by_key-All}
use nyasniproxy.Router.RuleKeys.{is_rule_key, add_rules-All, own_keys}
use nyasniproxy.Router.Ordered.{Ordered, sort_by_key-Ordered, sort_by_key-Distinct, any-sort_by_key}

-- A list has a name in any case.
abbrev pub named : Bytes → List Bytes → Bool
named host names = any (λ n. bytes_eq (to_ascii_lowercase n) host) names

-- A rule has a host as its key, in any case.
abbrev pub has_rule : Bytes → List (Bytes × List Bytes) → Bool
has_rule host rules =
    any (λ r. not (is_default r.0) && bytes_eq (to_ascii_lowercase r.0) host) rules

-- The host names are those seen so far, once each.
pub record IsSeen (b : Build) : Type 0 where
  pub same_names : (host : Bytes) → any (bytes_eq host) b.seen ≡ named host b.hostnames
  pub distinct : Distinct to_ascii_lowercase b.hostnames

any-append :
    (f : Bytes → Bool) (xs : List Bytes) (y : Bytes) → any f (xs ++ (y ∷ [])) ≡ (f y || any f xs)
any-append f [] y = ground arith
any-append f (x ∷ xs) y = ground (arith, any-append f xs y)

bytes_eq_comm : (a b : Bytes) → bytes_eq a b ≡ bytes_eq b a
unfolding bytes_eq
bytes_eq_comm [] [] = refl
bytes_eq_comm [] (y ∷ b) = refl
bytes_eq_comm (x ∷ a) [] = refl
bytes_eq_comm (x ∷ a) (y ∷ b) = ground (arith, bytes_eq_comm a b)

-- A name that a list does not have differs from each of its names.
named-apart :
    (key : Bytes) (names : List Bytes)
    → named (to_ascii_lowercase key) names ≡ false
    → All (λ n. to_ascii_lowercase n ≢ to_ascii_lowercase key) names
named-apart key [] h = tt
named-apart key (n ∷ names) h =
    elim (Bool-cases (bytes_eq (to_ascii_lowercase n) (to_ascii_lowercase key))) [
      | inl t ↦ cc (rw t at h)
      | inr f ↦ ((λ e. cc ((bytes_eq_iff _ _).1 e, f)), named-apart key names (rw f at h))
    ]

Distinct-append :
    (names : List Bytes) (key : Bytes)
    → Distinct to_ascii_lowercase names
    → All (λ n. to_ascii_lowercase n ≢ to_ascii_lowercase key) names
    → Distinct to_ascii_lowercase (names ++ (key ∷ []))
Distinct-append [] key d h = (tt, tt)
Distinct-append (n ∷ names) key d h =
    (All-append _ names (key ∷ []) d.0 (h.0, tt), Distinct-append names key d.1 h.1)

add_host-IsSeen :
    (b : Build) (key : Bytes) (hops : List Hop)
    → IsSeen b
    → IsSeen (add_host b key hops)
      × ((host : Bytes)
          → named host (add_host b key hops).hostnames
            ≡ (bytes_eq (to_ascii_lowercase key) host || named host b.hostnames))
unfolding add_host
add_host-IsSeen b key hops s = elim (Bool-cases (any (bytes_eq (to_ascii_lowercase key)) b.seen)) [
  | inl t ↦ rw t (record { same_names = s.same_names; distinct = s.distinct }, λ host. known host t)
  | inr f ↦ rw f (
    record {
      same_names = λ host.
          ap₂ ◌||◌ (bytes_eq_comm host (to_ascii_lowercase key)) (s.same_names host)
          ∙ sym (any-append _ b.hostnames key);
      distinct =
          Distinct-append b.hostnames key s.distinct
            (named-apart key b.hostnames (sym (s.same_names (to_ascii_lowercase key)) ∙ f));
    },
    λ host. any-append _ b.hostnames key,
  )
]
  where
    known :
        (host : Bytes)
        → any (bytes_eq (to_ascii_lowercase key)) b.seen ≡ true
        → named host b.hostnames
          ≡ (bytes_eq (to_ascii_lowercase key) host || named host b.hostnames)
    known host t = elim (Bool-cases (bytes_eq (to_ascii_lowercase key) host)) [
      | inr f ↦ rw f refl
      | inl same ↦ rw same (
          subst (λ h. named h b.hostnames ≡ true) ((bytes_eq_iff _ _).0 same)
            (sym (s.same_names (to_ascii_lowercase key)) ∙ t))
    ]

-- The names after some rules.
pub record Names (rules : List (Bytes × List Bytes)) (b b' : Build) : Type 0 where
  pub seen_is : IsSeen b'
  pub named_is :
      (host : Bytes) → named host b'.hostnames ≡ (has_rule host rules || named host b.hostnames)

pub add_rule-Names :
    (proxies : List (Bytes × ProxyConfig)) (key : Bytes) (names : List Bytes) (b : Build)
    {b' : Build}
    → IsSeen b
    → add_rule proxies key names b ≡ ok b'
    → Names ((key, names) ∷ []) b b'
unfolding add_rule
add_rule-Names proxies key names b s e = elim (Bool-cases (is_default key)) [
  | inl d ↦
      let (hops, resolved, e1) = bind-eq-ok (resolve proxies names) _ (rw d at e) in
      subst (Names ((key, names) ∷ []) b) (ok_same e1) (record {
        seen_is = record { same_names = s.same_names; distinct = s.distinct };
        named_is = λ host. rw d refl;
      })
  | inr r ↦
      let (u, valid, e1) = bind-eq-ok (bail_if (not (is_valid_hostname key)) _) _ (rw r at e) in
      let (hops, resolved, e2) = bind-eq-ok (resolve proxies names) _ e1 in
      let (seen, adds) = add_host-IsSeen b key hops s in
      subst (Names ((key, names) ∷ []) b) (ok_same e2)
        (record { seen_is = seen; named_is = λ host. rw r (adds host ∙ ground arith) })
]

or_shuffle : (x r n : Bool) → (r || ((x || false) || n)) ≡ ((x || r) || n)
or_shuffle true true n = refl
or_shuffle true false n = refl
or_shuffle false true n = refl
or_shuffle false false n = refl

add_rules-Names :
    (proxies : List (Bytes × ProxyConfig)) (rules : List (Bytes × List Bytes)) (b : Build)
    {b' : Build}
    → IsSeen b
    → add_rules proxies rules b ≡ ok b'
    → Names rules b b'
unfolding add_rules
add_rules-Names proxies [] b s e =
    subst (Names [] b) (ok_same e) (record { seen_is = s; named_is = λ host. refl })
add_rules-Names proxies ((key, names) ∷ rules) b s e =
    let (mid, here, rest) = bind-eq-ok (add_rule proxies key names b) _ e in
    let first = add_rule-Names proxies key names b s here in
    let later = add_rules-Names proxies rules mid first.seen_is rest in
    record {
      seen_is = later.seen_is;
      named_is = λ host.
          later.named_is host
          ∙ ap (◌||◌ (has_rule host rules)) (first.named_is host)
          ∙ or_shuffle (not (is_default key) && bytes_eq (to_ascii_lowercase key) host)
              (has_rule host rules) (named host b.hostnames);
    }

-- The names that a runtime gives the hosts file.
pub record IsHostList (rules : List (Bytes × List Bytes)) (names : List Bytes) : Type 0 where
  pub keys : All (λ name. is_rule_key name rules ≡ true) names
  pub exactly : (host : Bytes) → named host names ≡ has_rule host rules
  pub once : Distinct to_ascii_lowercase names
  pub sorted : Ordered to_ascii_lowercase names

or_false : (b : Bool) → (b || false) ≡ b
or_false true = refl
or_false false = refl

-- The names that go to the hosts file are keys of the rules but the default, as these spell them;
-- every such key is among them up to case, once; and they are in the order of their lower case.
pub from_yaml-IsHostList :
    (parse_url : Bytes → Option Url) (finish : List HashWrite → ℕ) (yaml : FileConfig)
    {rt : Runtime}
    → from_yaml parse_url finish yaml ≡ ok rt
    → IsHostList yaml.rules rt.hostnames
unfolding from_yaml
from_yaml-IsHostList parse_url finish yaml e =
    let (proxies, loaded, e1) = bind-eq-ok (load_proxies parse_url yaml.proxies []) _ e in
    let (b, built, e2) = bind-eq-ok (add_rules proxies yaml.rules empty_build) _ e1 in
    let (d, set, e3) = bind-eq-ok (or_fail b.default Error.default_required) _ e2 in
    let (u, filled, e4) = bind-eq-ok (bail_if (is_empty d) Error.default_empty) _ e3 in
    let n =
      add_rules-Names proxies yaml.rules empty_build
        (record { same_names = λ host. refl; distinct = tt }) built in
    subst (λ rt. IsHostList yaml.rules (Runtime.hostnames rt)) (ok_same e4)
      (record {
        keys = sort_by_key-All to_ascii_lowercase _ b.hostnames (
            add_rules-All (λ name. is_rule_key name yaml.rules ≡ true) proxies yaml.rules
              empty_build tt (own_keys yaml.rules) built);
        exactly = λ host.
            any-sort_by_key to_ascii_lowercase _ b.hostnames
            ∙ n.named_is host
            ∙ or_false (has_rule host yaml.rules);
        once = sort_by_key-Distinct to_ascii_lowercase b.hostnames n.seen_is.distinct;
        sorted = sort_by_key-Ordered to_ascii_lowercase b.hostnames;
      })
