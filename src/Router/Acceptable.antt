-- ===== src/Router/Acceptable.antt =====
-- src/router.rs: which configurations `from_yaml` accepts.
use nyasniproxy.Base.{
  ℕ, true, false, List, [], Option, none, some, Bytes, ok, some_same, ◌≡◌, ◌⊎◌, ◌↔◌, refl, sym, ap,
  ◌∙◌, is_empty, subst, All, All-imp, to_ascii_lowercase,
}
use nyasniproxy.Target.{is_valid_hostname}
use nyasniproxy.Proxy.{Url, ProxyConfig}
use nyasniproxy.Config.{FileConfig}
use nyasniproxy.Config.Parse.{is_default}
use nyasniproxy.Router.{
  HashWrite, Hop, Runtime, load_proxies, resolve, empty_build, sort_by_key, from_yaml,
}
use nyasniproxy.Router.Routes.{last_default, Follows, add_rules-AddsAll}
use nyasniproxy.Router.Success.{
  Loads, load_proxies-Loads, Loads-load_proxies, Adds, add_rules-Adds, Adds-add_rules,
}
use nyasniproxy.Router.Built.{Built, from_yaml-Built, Built-from_yaml}
use nyasniproxy.Router.Known.{
  has_proxy, load_proxies-Has, Has-load_proxies, resolve-Has, Has-resolve,
}

-- A rule is for the default or for a host, and names proxies that the configuration has.
pub record IsRule (yaml : FileConfig) (r : Bytes × List Bytes) : Type 0 where
  pub key : (is_default r.0 ≡ true) ⊎ (is_valid_hostname r.0 ≡ true)
  pub proxies_known : All (λ name. has_proxy yaml.proxies name ≡ true) r.1

-- Every proxy has an accepted URL, every rule is one, and the last default names a proxy.
pub record IsAcceptable (parse_url : Bytes → Option Url) (yaml : FileConfig) : Type 0 where
  pub urls : All (Loads parse_url) yaml.proxies
  pub rules : All (IsRule yaml) yaml.rules
  pub fallback : List Bytes
  pub fallback_is : last_default yaml.rules ≡ some fallback
  pub fallback_given : is_empty fallback ≡ false

-- The default that the rules leave.
default_names :
    (proxies : List (Bytes × ProxyConfig)) (said : Option (List Bytes)) {o : Option (List Hop)}
    {hops : List Hop}
    → Follows proxies said none o
    → o ≡ some hops
    → (names : List Bytes) × (said ≡ some names) × (resolve proxies names ≡ ok hops)
default_names proxies none f e = cc
default_names proxies (some names) (hops', resolved, o_is) e =
    (names, refl, resolved ∙ ap ok (some_same (sym o_is ∙ e)))

module _ (parse_url : Bytes → Option Url) (yaml : FileConfig) where
  Built-IsAcceptable :
      (names : List Bytes) → Built parse_url yaml names → IsAcceptable parse_url yaml
  Built-IsAcceptable names b =
      let (fallback, said, resolved) =
        default_names b.proxies (last_default yaml.rules)
          (add_rules-AddsAll b.proxies yaml.rules empty_build b.built).all_default b.set in
      record {
        urls = load_proxies-Loads parse_url yaml.proxies [] b.loaded;
        rules =
            All-imp
              (λ r a. record {
                key = a.key_ok;
                proxies_known =
                    All-imp (λ name. Has-load_proxies parse_url yaml.proxies name b.loaded) r.1
                      (resolve-Has b.proxies r.1 a.resolved).0;
              })
              yaml.rules (add_rules-Adds b.proxies yaml.rules empty_build b.built);
        fallback = fallback;
        fallback_is = said;
        fallback_given = sym (resolve-Has b.proxies fallback resolved).1 ∙ b.filled;
      }

  IsAcceptable-Built :
      IsAcceptable parse_url yaml → (names : List Bytes) × Built parse_url yaml names
  IsAcceptable-Built h =
      let (m, loaded) = Loads-load_proxies parse_url yaml.proxies [] h.urls in
      let (b, built) =
        Adds-add_rules m yaml.rules empty_build
          (All-imp (λ r i. known_rule m loaded r i) yaml.rules h.rules) in
      let follows : Follows m (some h.fallback) none b.default =
        subst (λ said. Follows m said none b.default) h.fallback_is
          (add_rules-AddsAll m yaml.rules empty_build built).all_default in
      let (hops, resolved, set) = follows in
      (
        sort_by_key to_ascii_lowercase b.hostnames,
        record {
          proxies = m;
          loaded = loaded;
          build = b;
          built = built;
          fallback = hops;
          set = set;
          filled = (resolve-Has m h.fallback resolved).1 ∙ h.fallback_given;
          names_are = refl;
        },
      )
    where
      known_rule :
          (m : List (Bytes × ProxyConfig))
          → load_proxies parse_url yaml.proxies [] ≡ ok m
          → (r : Bytes × List Bytes) → IsRule yaml r
          → Adds m r
      known_rule m loaded r i =
          let (hops, resolved) = Has-resolve m r.1 (
            All-imp (λ name. load_proxies-Has parse_url yaml.proxies name h.urls loaded) r.1
              i.proxies_known) in
          record { key_ok = i.key; hops = hops; resolved = resolved }

-- `from_yaml` builds a runtime for exactly the configurations in which every proxy has an accepted
-- URL, every rule is for the default or for a valid host name and names only proxies that the
-- configuration has, and the last rule for the default names at least one.
pub from_yaml_iff :
    (parse_url : Bytes → Option Url) (finish : List HashWrite → ℕ) (yaml : FileConfig)
    → ((rt : Runtime) × (from_yaml parse_url finish yaml ≡ ok rt)) ↔ IsAcceptable parse_url yaml
from_yaml_iff parse_url finish yaml = (
  (λ r. Built-IsAcceptable parse_url yaml _ (from_yaml-Built parse_url finish yaml r.1)),
  (λ h.
      let (names, b) = IsAcceptable-Built parse_url yaml h in
      let (rt, e, same) = Built-from_yaml parse_url finish yaml names b in (rt, e)),
)
