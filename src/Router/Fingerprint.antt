-- ===== src/Router/Fingerprint.antt =====
-- src/router.rs: what equal fingerprints say of two configurations, and that the order in which
-- the maps are walked does not count.
use nyasniproxy.Base.{
  ok_same, some_same, ℕ, List, [], ◌++◌, Option, Bytes, Error, ok, ◌≡◌, sym, ap, ap₂, ◌∙◌, or_fail,
  bind-eq-ok, bail_if, is_empty,
}
use nyasniproxy.Proxy.{Url}
use nyasniproxy.Config.{FileConfig, or_option}
use nyasniproxy.Router.{
  HashWrite, proxy_writes, rule_writes, routing_fingerprint, sort_by_key, load_proxies, resolve,
  Runtime, lookup, normalise, from_yaml, add_rules, empty_build,
}
use nyasniproxy.Router.Routes.{route, from_yaml-route}
use mathlib.Core.List.{Perm}
use mathlib.Core.Logic.{∥∥₁_elim}
use native.Mathlib.Nat.{ℕ_set}
use nyasniproxy.Router.Sorting.{last_of, sort_by_key-Permᴰ}
use nyasniproxy.Router.Writes.{rule_key, proxy_key, IsMap, routing_writes, lowered, writes_same}
use nyasniproxy.Router.Entries.{
  rule_said, default_said, route-last_of, load_proxies-same, resolve-same,
}

-- The fingerprint of a runtime is the hash of the writes of its configuration.
pub from_yaml-writes :
    (parse_url : Bytes → Option Url) (finish : List HashWrite → ℕ) (yaml : FileConfig)
    {rt : Runtime}
    → from_yaml parse_url finish yaml ≡ ok rt
    → rt.fingerprint ≡ finish (routing_writes yaml)
unfolding from_yaml routing_fingerprint
from_yaml-writes parse_url finish yaml e =
    let (proxies, loaded, e1) = bind-eq-ok (load_proxies parse_url yaml.proxies []) _ e in
    let (b, built, e2) = bind-eq-ok (add_rules proxies yaml.rules empty_build) _ e1 in
    let (d, set, e3) = bind-eq-ok (or_fail b.default Error.default_required) _ e2 in
    let (u, filled, e4) = bind-eq-ok (bail_if (is_empty d) Error.default_empty) _ e3 in
    ap Runtime.fingerprint (sym (ok_same e4))

same_route :
    (y z : FileConfig) (host : Bytes)
    → IsMap y
    → IsMap z
    → lowered (sort_by_key rule_key y.rules) ≡ lowered (sort_by_key rule_key z.rules)
    → route y host ≡ route z host
same_route y z host my mz same =
    route-last_of y host my.rule_keys
    ∙ ap
        (λ rules.
          or_option (last_of (rule_said (normalise host)) rules) (last_of default_said rules))
        same
    ∙ sym (route-last_of z host mz.rule_keys)

-- Two configurations whose runtimes have the same fingerprint send every host through the same
-- proxies, if the keys of their maps are distinct, those of the rules in any case, and the hash
-- does not give the same value for different inputs of these two.
pub from_yaml-fingerprint :
    (parse_url : Bytes → Option Url) (finish : List HashWrite → ℕ) (y z : FileConfig)
    {r s : Runtime} (host : Bytes)
    → IsMap y
    → IsMap z
    → (finish (routing_writes y) ≡ finish (routing_writes z) → routing_writes y ≡ routing_writes z)
    → from_yaml parse_url finish y ≡ ok r
    → from_yaml parse_url finish z ≡ ok s
    → r.fingerprint ≡ s.fingerprint
    → lookup r.router host ≡ lookup s.router host
from_yaml-fingerprint parse_url finish y z {r} {s} host my mz tells ey ez print =
    let (m, names, loaded_y, route_y, resolved_y) = from_yaml-route parse_url finish y host ey in
    let (l, names', loaded_z, route_z, resolved_z) = from_yaml-route parse_url finish z host ez in
    let writes : routing_writes y ≡ routing_writes z = tells (
      sym (from_yaml-writes parse_url finish y ey)
      ∙ print
      ∙ from_yaml-writes parse_url finish z ez) in
    let (proxies, rules) =
      writes_same (sort_by_key proxy_key y.proxies) (sort_by_key proxy_key z.proxies)
        (sort_by_key rule_key y.rules) (sort_by_key rule_key z.rules) writes in
    let same_names : names ≡ names' =
      some_same (sym route_y ∙ same_route y z host my mz rules ∙ route_z) in
    ok_same (
      sym resolved_y
      ∙ ap (resolve m) same_names
      ∙ resolve-same m l names' (λ name.
        load_proxies-same parse_url y.proxies z.proxies name my.proxy_keys mz.proxy_keys proxies
          loaded_y loaded_z)
      ∙ resolved_z)

-- The fingerprint does not depend on the order in which the two maps are walked.
pub routing_fingerprint-Perm :
    (finish : List HashWrite → ℕ) (y z : FileConfig)
    → IsMap y
    → Perm y.proxies z.proxies
    → Perm y.rules z.rules
    → routing_fingerprint finish y ≡ routing_fingerprint finish z
unfolding routing_fingerprint
routing_fingerprint-Perm finish y z m p q = ∥∥₁_elim p (ℕ_set _ _) (λ d.
    ∥∥₁_elim q (ℕ_set _ _) (λ d'.
      ap₂ (λ ps rs. finish (proxy_writes ps ++ rule_writes rs))
        (sort_by_key-Permᴰ proxy_key d m.proxy_keys) (sort_by_key-Permᴰ rule_key d' m.rule_keys)))
