-- ===== src/Router/Order.antt =====
-- src/router.rs: the order in which `from_yaml` walks the maps does not count.
use nyasniproxy.Base.{
  ℕ, List, [], ◌++◌, Option, none, Bytes, ok, ◌≡◌, refl, sym, ap, ap₂, subst, ◌∙◌, All-imp,
  to_ascii_lowercase,
}
use mathlib.Core.List.{Permᴰ}
use nyasniproxy.Proxy.{Url}
use nyasniproxy.Config.{FileConfig}
use nyasniproxy.Router.{
  HashWrite, proxy_writes, rule_writes, Runtime, lookup, empty_build, resolve, sort_by_key,
  routing_fingerprint, from_yaml,
}
use nyasniproxy.Router.Sorting.{All-Permᴰ, Distinct-Permᴰ, sort_by_key-Permᴰ}
use nyasniproxy.Router.Writes.{rule_key, proxy_key, routing_writes, IsMap}
use nyasniproxy.Router.Entries.{last_default-same, load_proxies-same, resolve-same}
use nyasniproxy.Router.Routes.{last_default, Follows, add_rules-AddsAll}
use nyasniproxy.Router.Fingerprint.{
  from_yaml-writes, from_yaml-fingerprint, routing_fingerprint-Perm,
}
use nyasniproxy.Router.RuleNames.{rule_names-Distinct, rule_names-Permᴰ, build-hostnames}
use nyasniproxy.Router.Success.{
  Loads, load_proxies-Loads, Loads-load_proxies, Adds, add_rules-Adds, Adds-add_rules,
}
use nyasniproxy.Router.Built.{Built, from_yaml-Built, Built-from_yaml, Follows-same}

-- Two runtimes that act alike.
pub record IsAlike (r s : Runtime) : Type 0 where
  pub routes : (host : Bytes) → lookup r.router host ≡ lookup s.router host
  pub names : r.hostnames ≡ s.hostnames
  pub print : r.fingerprint ≡ s.fingerprint

from_writes :
    (finish : List HashWrite → ℕ) (yaml : FileConfig)
    → finish (routing_writes yaml) ≡ routing_fingerprint finish yaml
unfolding routing_fingerprint
from_writes finish yaml = refl

module _ (parse_url : Bytes → Option Url) (finish : List HashWrite → ℕ) (y z : FileConfig) where
  -- What the loops build of one order, they build of the other.
  Built-Permᴰ :
      {names : List Bytes}
      → IsMap y
      → Permᴰ y.proxies z.proxies
      → Permᴰ y.rules z.rules
      → Built parse_url y names
      → Built parse_url z names
  Built-Permᴰ m p q b =
      let dp = Distinct-Permᴰ proxy_key p m.proxy_keys in
      let dr = Distinct-Permᴰ rule_key q m.rule_keys in
      let (l, loaded) = Loads-load_proxies parse_url z.proxies [] (
        All-Permᴰ proxy_key (Loads parse_url) p
          (load_proxies-Loads parse_url y.proxies [] b.loaded)) in
      let alike : (names : List Bytes) → resolve b.proxies names ≡ resolve l names = λ names.
        resolve-same b.proxies l names (λ name.
          load_proxies-same parse_url y.proxies z.proxies name m.proxy_keys dp
            (sort_by_key-Permᴰ proxy_key p m.proxy_keys) b.loaded loaded) in
      let (c, built) = Adds-add_rules l z.rules empty_build (
        All-Permᴰ rule_key (Adds l) q (
          All-imp
            (λ r a. record {
              key_ok = a.key_ok;
              hops = a.hops;
              resolved = sym (alike r.1) ∙ a.resolved;
            })
            y.rules (add_rules-Adds b.proxies y.rules empty_build b.built))) in
      let same_default : last_default y.rules ≡ last_default z.rules =
        last_default-same y.rules z.rules m.rule_keys dr
          (sort_by_key-Permᴰ rule_key q m.rule_keys) in
      record {
        proxies = l;
        loaded = loaded;
        build = c;
        built = built;
        fallback = b.fallback;
        set =
            sym (
              Follows-same b.proxies l (last_default y.rules) alike
                (add_rules-AddsAll b.proxies y.rules empty_build b.built).all_default
                (subst (λ said. Follows l said none c.default) (sym same_default)
                  (add_rules-AddsAll l z.rules empty_build built).all_default))
            ∙ b.set;
        filled = b.filled;
        names_are =
            b.names_are
            ∙ ap (sort_by_key to_ascii_lowercase)
                (build-hostnames b.proxies y.rules m.rule_keys b.built)
            ∙ sort_by_key-Permᴰ to_ascii_lowercase (rule_names-Permᴰ q)
                (rule_names-Distinct y.rules m.rule_keys)
            ∙ ap (sort_by_key to_ascii_lowercase) (sym (build-hostnames l z.rules dr built));
      }

  -- The order in which the two maps are walked, which differs from run to run, does not count: if
  -- the configuration builds a runtime in one order, then it builds one in any other order, with
  -- the same proxies for every host, the same names for the hosts file and the same fingerprint;
  -- for maps whose keys are distinct, those of the rules in any case.
  pub from_yaml-IsAlike :
      {r : Runtime}
      → IsMap y
      → Permᴰ y.proxies z.proxies
      → Permᴰ y.rules z.rules
      → from_yaml parse_url finish y ≡ ok r
      → (s : Runtime) × (from_yaml parse_url finish z ≡ ok s) × IsAlike r s
  from_yaml-IsAlike m p q e =
      let (s, e', same) =
        Built-from_yaml parse_url finish z _
          (Built-Permᴰ m p q (from_yaml-Built parse_url finish y e)) in
      let writes : routing_writes y ≡ routing_writes z =
        ap₂ (λ ps rs. proxy_writes ps ++ rule_writes rs)
          (sort_by_key-Permᴰ proxy_key p m.proxy_keys) (sort_by_key-Permᴰ rule_key q m.rule_keys) in
      let print =
        from_yaml-writes parse_url finish y e
        ∙ from_writes finish y
        ∙ routing_fingerprint-Perm finish y z m ∣ p ∣₁ ∣ q ∣₁
        ∙ sym (from_yaml-writes parse_url finish z e' ∙ from_writes finish z) in
      let m' : IsMap z = record {
        proxy_keys = Distinct-Permᴰ proxy_key p m.proxy_keys;
        rule_keys = Distinct-Permᴰ rule_key q m.rule_keys;
      } in
      (
        s,
        e',
        record {
          routes =
              λ host. from_yaml-fingerprint parse_url finish y z host m m' (λ _. writes) e e' print;
          names = sym same;
          print = print;
        },
      )
