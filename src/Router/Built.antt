-- ===== src/Router/Built.antt =====
-- src/router.rs: what `from_yaml` builds, from the variables of its two loops.
use nyasniproxy.Base.{
  ok_same, passed, ℕ, false, List, [], Option, none, some, Bytes, Error, ok, ◌≡◌, refl, sym, ap,
  ◌∙◌, bail_if, bind-eq-ok, or_fail, is_empty, to_ascii_lowercase,
}
use nyasniproxy.Proxy.{Url, ProxyConfig}
use nyasniproxy.Config.{FileConfig}
use nyasniproxy.Router.{
  HashWrite, Hop, Runtime, Build, add_rules, empty_build, load_proxies, resolve, sort_by_key,
  routing_fingerprint, from_yaml,
}
use nyasniproxy.Router.Routes.{Follows}

set_default :
    (o : Option (List Hop)) {d : List Hop} → or_fail o Error.default_required ≡ ok d → o ≡ some d
set_default none h = cc
set_default (some a) h = cc

-- What the loops have built, and the names of the runtime.
pub record Built (parse_url : Bytes → Option Url) (yaml : FileConfig) (names : List Bytes)
    : Type 0 where
  pub proxies : List (Bytes × ProxyConfig)
  pub loaded : load_proxies parse_url yaml.proxies [] ≡ ok proxies
  pub build : Build
  pub built : add_rules proxies yaml.rules empty_build ≡ ok build
  pub fallback : List Hop
  pub set : build.default ≡ some fallback
  pub filled : is_empty fallback ≡ false
  pub names_are : names ≡ sort_by_key to_ascii_lowercase build.hostnames

module _ (parse_url : Bytes → Option Url) (finish : List HashWrite → ℕ) (yaml : FileConfig) where
  pub from_yaml-Built :
      {rt : Runtime} → from_yaml parse_url finish yaml ≡ ok rt → Built parse_url yaml rt.hostnames
  unfolding from_yaml
  from_yaml-Built e =
      let (proxies, loaded, e1) = bind-eq-ok (load_proxies parse_url yaml.proxies []) _ e in
      let (b, built, e2) = bind-eq-ok (add_rules proxies yaml.rules empty_build) _ e1 in
      let (d, set, e3) = bind-eq-ok (or_fail b.default Error.default_required) _ e2 in
      let (u, filled, e4) = bind-eq-ok (bail_if (is_empty d) Error.default_empty) _ e3 in
      record {
        proxies = proxies;
        loaded = loaded;
        build = b;
        built = built;
        fallback = d;
        set = set_default b.default set;
        filled = passed _ Error.default_empty filled;
        names_are = ap Runtime.hostnames (sym (ok_same e4));
      }

  pub Built-from_yaml :
      (names : List Bytes)
      → Built parse_url yaml names
      → (rt : Runtime) × (from_yaml parse_url finish yaml ≡ ok rt) × (rt.hostnames ≡ names)
  unfolding from_yaml
  Built-from_yaml names b =
      let rt : Runtime = record {
        router = record { rules = b.build.rules; default = b.fallback };
        hostnames = sort_by_key to_ascii_lowercase b.build.hostnames;
        fingerprint = routing_fingerprint finish yaml;
      } in
      (rt, rw (b.loaded, b.built, b.set, b.filled) refl, sym b.names_are)

-- The same rules on proxies that resolve alike leave the same entry.
pub Follows-same :
    (m l : List (Bytes × ProxyConfig)) (said : Option (List Bytes)) {o o' : Option (List Hop)}
    → ((names : List Bytes) → resolve m names ≡ resolve l names)
    → Follows m said none o
    → Follows l said none o'
    → o ≡ o'
Follows-same m l none same f g = f ∙ sym g
Follows-same m l (some names) same (hops, r, e) (hops', r', e') =
    e ∙ ap some (ok_same (sym r ∙ same names ∙ r')) ∙ sym e'
