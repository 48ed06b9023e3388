-- ===== src/Router/Nonempty.antt =====
-- src/router.rs: a runtime of an accepted configuration has a proxy for every host.
use nyasniproxy.Base.{
  some_same, ℕ, Bool, true, false, List, [], ◌∷◌, Option, none, some, Bytes, Result, Error, ok, ◌≡◌,
  refl, All, is_empty, if◌then◌else◌, bytes_eq, to_ascii_lowercase, subst, or_fail, bind-eq-ok,
}
use nyasniproxy.Proxy.{Url, ProxyConfig}
use nyasniproxy.Config.{FileConfig, or_option}
use nyasniproxy.Config.Parse.{NamesHops, IsUsable, is_default}
use nyasniproxy.Router.{Hop, Runtime, HashWrite, lookup, normalise, from_yaml, resolve, get}
use nyasniproxy.Router.Routes.{rule_at, default_at, last_rule, last_default, from_yaml-route}

-- The names that a rule of a list gives are those of one of its rules.
rule_at-NamesHops :
    (key : Bytes) (names : List Bytes) (host : Bytes) {found : List Bytes}
    → NamesHops names
    → rule_at key names host ≡ some found
    → NamesHops found
rule_at-NamesHops key names host {found} h e =
    go (is_default key) (bytes_eq (to_ascii_lowercase key) host) e
  where
    go :
        (d m : Bool)
        → (if d then none else if m then some names else none) ≡ some found
        → NamesHops found
    go true m e = cc
    go false true e = subst NamesHops (some_same e) h
    go false false e = cc

default_at-NamesHops :
    (key : Bytes) (names : List Bytes) {found : List Bytes}
    → NamesHops names
    → default_at key names ≡ some found
    → NamesHops found
default_at-NamesHops key names {found} h e = go (is_default key) e
  where
    go : (d : Bool) → (if d then some names else none) ≡ some found → NamesHops found
    go true e = subst NamesHops (some_same e) h
    go false e = cc

-- One of two options, where each gives only such names.
or_option-NamesHops :
    (first second : Option (List Bytes)) {found : List Bytes}
    → ((n : List Bytes) → first ≡ some n → NamesHops n)
    → ((n : List Bytes) → second ≡ some n → NamesHops n)
    → or_option first second ≡ some found
    → NamesHops found
or_option-NamesHops none second f g e = g _ e
or_option-NamesHops (some a) second f g e = f _ e

last_rule-NamesHops :
    (rules : List (Bytes × List Bytes)) (host : Bytes) {found : List Bytes}
    → All (λ r. NamesHops r.1) rules
    → last_rule rules host ≡ some found
    → NamesHops found
last_rule-NamesHops [] host h e = cc
last_rule-NamesHops ((key, names) ∷ rules) host h e =
    or_option-NamesHops (last_rule rules host) (rule_at key names host)
      (λ n. last_rule-NamesHops rules host h.1) (λ n. rule_at-NamesHops key names host h.0) e

last_default-NamesHops :
    (rules : List (Bytes × List Bytes)) {found : List Bytes}
    → All (λ r. NamesHops r.1) rules
    → last_default rules ≡ some found
    → NamesHops found
last_default-NamesHops [] h e = cc
last_default-NamesHops ((key, names) ∷ rules) h e =
    or_option-NamesHops (last_default rules) (default_at key names)
      (λ n. last_default-NamesHops rules h.1) (λ n. default_at-NamesHops key names h.0) e

-- Names that are resolved give as many hops.
resolve-filled :
    (proxies : List (Bytes × ProxyConfig)) (names : List Bytes) {hops : List Hop}
    → is_empty names ≡ false
    → resolve proxies names ≡ ok hops
    → is_empty hops ≡ false
unfolding resolve
resolve-filled proxies [] f e = cc
resolve-filled proxies (name ∷ names) {hops} f e =
    let (proxy, found, e1) =
      bind-eq-ok (or_fail (get proxies name) (Error.unknown_proxy name)) _ e in
    let (more, resolved, e2) = bind-eq-ok (resolve proxies names) _ e1 in
    subst (λ hs. is_empty hs ≡ false) (same e2) refl
  where
    same : {a b : List Hop} → ◌≡◌ {A = Result (List Hop)} (ok a) (ok b) → a ≡ b
    same e = cc

-- A runtime that is built from an accepted configuration has at least one proxy for every host.
pub from_yaml-NamesHops :
    (parse_url : Bytes → Option Url) (finish : List HashWrite → ℕ) (yaml : FileConfig)
    {rt : Runtime} (host : Bytes)
    → IsUsable yaml
    → from_yaml parse_url finish yaml ≡ ok rt
    → is_empty (lookup rt.router host) ≡ false
from_yaml-NamesHops parse_url finish yaml host u e =
    let (proxies, names, loaded, routed, resolved) = from_yaml-route parse_url finish yaml host e in
    let named =
      or_option-NamesHops (last_rule yaml.rules (normalise host)) (last_default yaml.rules)
        (λ n. last_rule-NamesHops yaml.rules (normalise host) u.named_hops)
        (λ n. last_default-NamesHops yaml.rules u.named_hops) routed in
    resolve-filled proxies names named.0 resolved
