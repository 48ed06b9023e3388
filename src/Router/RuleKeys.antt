-- ===== src/Router/RuleKeys.antt =====
-- src/router.rs: every host name that `from_yaml` collects is the key of a rule, as it is spelled.
use nyasniproxy.Base.{
  ok_same, Bool, true, false, not, ◌&&◌, List, [], ◌∷◌, Bytes, ok, ◌≡◌, refl, inl, inr, arith, any,
  All, bytes_eq, bytes_eq_iff, Bool-cases, bail_if, bind-eq-ok, if-elim, to_ascii_lowercase, subst,
  All-append,
}
use nyasniproxy.Target.{is_valid_hostname}
use nyasniproxy.Proxy.{ProxyConfig}
use nyasniproxy.Config.Parse.{is_default}
use nyasniproxy.Router.{Hop, resolve, Build, add_host, add_rule, add_rules}

-- The name is the key of a rule other than the default, byte by byte.
abbrev pub is_rule_key : Bytes → List (Bytes × List Bytes) → Bool
is_rule_key name rules = any (λ r. not (is_default r.0) && bytes_eq name r.0) rules

add_host-All :
    (P : Bytes → Type 0) (b : Build) (key : Bytes) (hops : List Hop)
    → All P b.hostnames
    → P key
    → All P (add_host b key hops).hostnames
unfolding add_host
add_host-All P b key hops h k =
    if-elim (λ (b' : Build). All P b'.hostnames) (any (bytes_eq (to_ascii_lowercase key)) b.seen) _
      _ (λ _. h) (λ _. All-append P b.hostnames (key ∷ []) h (k, tt))

add_rule-All :
    (P : Bytes → Type 0) (proxies : List (Bytes × ProxyConfig)) (key : Bytes) (names : List Bytes)
    (b : Build) {b' : Build}
    → All P b.hostnames
    → (is_default key ≡ false → P key)
    → add_rule proxies key names b ≡ ok b'
    → All P b'.hostnames
unfolding add_rule
add_rule-All P proxies key names b h k e = elim (Bool-cases (is_default key)) [
  | inl d ↦
      let (hops, resolved, e1) = bind-eq-ok (resolve proxies names) _ (rw d at e) in
      subst (λ (b : Build). All P b.hostnames) (ok_same e1) h
  | inr r ↦
      let (u, valid, e1) = bind-eq-ok (bail_if (not (is_valid_hostname key)) _) _ (rw r at e) in
      let (hops, resolved, e2) = bind-eq-ok (resolve proxies names) _ e1 in
      subst (λ (b : Build). All P b.hostnames) (ok_same e2) (add_host-All P b key hops h (k r))
]

-- Whatever holds of the keys of the rules but the default holds of the host names.
pub add_rules-All :
    (P : Bytes → Type 0) (proxies : List (Bytes × ProxyConfig)) (rules : List (Bytes × List Bytes))
    (b : Build) {b' : Build}
    → All P b.hostnames
    → All (λ r. is_default r.0 ≡ false → P r.0) rules
    → add_rules proxies rules b ≡ ok b'
    → All P b'.hostnames
unfolding add_rules
add_rules-All P proxies [] b h k e = subst (λ (b : Build). All P b.hostnames) (ok_same e) h
add_rules-All P proxies ((key, names) ∷ rules) b h k e =
    let (mid, here, rest) = bind-eq-ok (add_rule proxies key names b) _ e in
    add_rules-All P proxies rules mid (add_rule-All P proxies key names b h k.0 here) k.1 rest

keys_among :
    (whole rules : List (Bytes × List Bytes))
    → ((name : Bytes) → is_rule_key name rules ≡ true → is_rule_key name whole ≡ true)
    → All (λ r. is_default r.0 ≡ false → is_rule_key r.0 whole ≡ true) rules
keys_among whole [] h = tt
keys_among whole ((key, names) ∷ rules) h = (
  (λ other. h key (rw (other, (bytes_eq_iff key key).1 refl) refl)),
  keys_among whole rules (λ name t. h name (ground (arith, t))),
)

-- Each key of the rules but the default is one of their keys.
pub own_keys :
    (rules : List (Bytes × List Bytes))
    → All (λ r. is_default r.0 ≡ false → is_rule_key r.0 rules ≡ true) rules
own_keys rules = keys_among rules rules (λ name t. t)
