-- ===== src/Router/Routes.antt =====
-- src/router.rs: the routes that the rules describe, and that `from_yaml` builds exactly these.
use nyasniproxy.Base.{
  ok_same, ℕ, Bool, true, false, not, List, [], ◌∷◌, Option, none, some, Bytes, Error, ok, ◌≡◌,
  refl, sym, ap, ◌∙◌, inl, inr, if◌then◌else◌, is_empty, any, bytes_eq, Bool-cases, bail_if,
  or_fail, bind-eq-ok, to_ascii_lowercase, subst,
}
use nyasniproxy.Target.{is_valid_hostname}
use nyasniproxy.Proxy.{Url, ProxyConfig}
use nyasniproxy.Config.{FileConfig, or_option, unwrap_or}
use nyasniproxy.Config.Parse.{is_default}
use nyasniproxy.Router.{
  get, insert, Hop, normalise, lookup, Runtime, load_proxies, resolve, Build, add_host, add_rule,
  add_rules, HashWrite, empty_build, from_yaml,
}
use nyasniproxy.Router.Map.{get-insert}

-- What one rule says of a host, by its key in lower case, and of the default.
abbrev pub rule_at : Bytes → List Bytes → Bytes → Option (List Bytes)
rule_at key names host =
    if is_default key
    then none
    else if bytes_eq (to_ascii_lowercase key) host
    then some names
    else none

abbrev pub default_at : Bytes → List Bytes → Option (List Bytes)
default_at key names = if is_default key then some names else none

-- The last rule counts.
abbrev pub last_rule : List (Bytes × List Bytes) → Bytes → Option (List Bytes)
last_rule [] host = none
last_rule ((key, names) ∷ rules) host = or_option (last_rule rules host) (rule_at key names host)

abbrev pub last_default : List (Bytes × List Bytes) → Option (List Bytes)
last_default [] = none
last_default ((key, names) ∷ rules) = or_option (last_default rules) (default_at key names)

-- The names of the proxies that the configuration gives a host.
abbrev pub route : FileConfig → Bytes → Option (List Bytes)
route yaml host = or_option (last_rule yaml.rules (normalise host)) (last_default yaml.rules)

module _ (proxies : List (Bytes × ProxyConfig)) where
  -- How an entry changes from `old` to `new` under rules that say `said` of it.
  abbrev pub Follows : Option (List Bytes) → Option (List Hop) → Option (List Hop) → Type 0
  Follows none old new = new ≡ old
  Follows (some names) old new =
      (hops : List Hop) × (resolve proxies names ≡ ok hops) × (new ≡ some hops)

  Follows-trans :
      (first second : Option (List Bytes)) (old mid new : Option (List Hop))
      → Follows first old mid
      → Follows second mid new
      → Follows (or_option second first) old new
  Follows-trans none none old mid new f s = s ∙ f
  Follows-trans (some names) none old mid new (hops, r, e) s = (hops, r, s ∙ e)
  Follows-trans first (some names) old mid new f s = s

  pub record Adds (key : Bytes) (names : List Bytes) (b b' : Build) : Type 0 where
    pub entries :
        (host : Bytes) → Follows (rule_at key names host) (get b.rules host) (get b'.rules host)
    pub default_entry : Follows (default_at key names) b.default b'.default

  add_host-rules :
      (b : Build) (key : Bytes) (hops : List Hop)
      → ((add_host b key hops).rules ≡ insert b.rules (to_ascii_lowercase key) hops)
        × ((add_host b key hops).default ≡ b.default)
  unfolding add_host
  add_host-rules b key hops = elim (Bool-cases (any (bytes_eq (to_ascii_lowercase key)) b.seen)) [
    | inl t ↦ rw t (refl, refl)
    | inr f ↦ rw f (refl, refl)
  ]

  inserted :
      (test : Bool) (names : List Bytes) (hops : List Hop) (old : Option (List Hop))
      → resolve proxies names ≡ ok hops
      → Follows (if test then some names else none) old (if test then some hops else old)
  inserted true names hops old e = (hops, e, refl)
  inserted false names hops old e = refl

  add_rule-Adds :
      (key : Bytes) (names : List Bytes) (b : Build) {b' : Build}
      → add_rule proxies key names b ≡ ok b'
      → Adds key names b b'
  unfolding add_rule
  add_rule-Adds key names b {b'} e = elim (Bool-cases (is_default key)) [
    | inl d ↦
        let (hops, resolved, e1) = bind-eq-ok (resolve proxies names) _ (rw d at e) in
        subst (Adds key names b) (ok_same e1)
          (record { entries = λ host. rw d refl; default_entry = rw d (hops, resolved, refl) })
    | inr r ↦
        let (u, valid, e1) = bind-eq-ok (bail_if (not (is_valid_hostname key)) _) _ (rw r at e) in
        let (hops, resolved, e2) = bind-eq-ok (resolve proxies names) _ e1 in
        let (rules_are, default_is) = add_host-rules b key hops in
        subst (Adds key names b) (ok_same e2) (record {
          entries = λ host.
              rw (r, rules_are, get-insert b.rules (to_ascii_lowercase key) host hops)
                (inserted (bytes_eq (to_ascii_lowercase key) host) names hops (get b.rules host)
                  resolved);
          default_entry = rw r default_is;
        })
  ]

  pub record AddsAll (rules : List (Bytes × List Bytes)) (b b' : Build) : Type 0 where
    pub all_entries :
        (host : Bytes) → Follows (last_rule rules host) (get b.rules host) (get b'.rules host)
    pub all_default : Follows (last_default rules) b.default b'.default

  pub add_rules-AddsAll :
      (rules : List (Bytes × List Bytes)) (b : Build) {b' : Build}
      → add_rules proxies rules b ≡ ok b'
      → AddsAll rules b b'
  unfolding add_rules
  add_rules-AddsAll [] b e =
      subst (AddsAll [] b) (ok_same e) (record { all_entries = λ host. refl; all_default = refl })
  add_rules-AddsAll ((key, names) ∷ rules) b e =
      let (mid, here, rest) = bind-eq-ok (add_rule proxies key names b) _ e in
      let first = add_rule-Adds key names b here in
      let second = add_rules-AddsAll rules mid rest in
      record {
        all_entries = λ host.
            Follows-trans (rule_at key names host) (last_rule rules host) _ _ _ (first.entries host)
              (second.all_entries host);
        all_default =
            Follows-trans (default_at key names) (last_default rules) _ _ _ first.default_entry
              second.all_default;
      }

  -- A lookup in the entries that follow the rules, with a default that is set.
  routed :
      (said fallback : Option (List Bytes)) (entry default : Option (List Hop)) {d : List Hop}
      → Follows said none entry
      → Follows fallback none default
      → default ≡ some d
      → (names : List Bytes) × (or_option said fallback ≡ some names)
        × (resolve proxies names ≡ ok (unwrap_or entry d))
  routed (some names) fallback entry default (hops, r, e) f set = (names, refl, r ∙ rw e refl)
  routed none none entry default e f set = cc
  routed none (some names) entry default e (hops, r, e') set =
      (names, refl, r ∙ ap ok (same (sym e' ∙ set)) ∙ rw e refl)
    where
      same : {a b : List Hop} → some a ≡ some b → a ≡ b
      same e = cc

pub from_yaml-route :
    (parse_url : Bytes → Option Url) (finish : List HashWrite → ℕ) (yaml : FileConfig)
    {rt : Runtime} (host : Bytes)
    → from_yaml parse_url finish yaml ≡ ok rt
    → (proxies : List (Bytes × ProxyConfig)) × (names : List Bytes) × (load_proxies parse_url
          yaml.proxies []
        ≡ ok proxies)
      × (route yaml host ≡ some names)
      × (resolve proxies names ≡ ok (lookup rt.router host))
unfolding from_yaml lookup get
from_yaml-route parse_url finish yaml host e =
    let (proxies, loaded, e1) = bind-eq-ok (load_proxies parse_url yaml.proxies []) _ e in
    let (b, built, e2) = bind-eq-ok (add_rules proxies yaml.rules empty_build) _ e1 in
    let (d, set, e3) = bind-eq-ok (or_fail b.default Error.default_required) _ e2 in
    let (u, filled, e4) = bind-eq-ok (bail_if (is_empty d) Error.default_empty) _ e3 in
    let added = add_rules-AddsAll proxies yaml.rules empty_build built in
    let (names, r, resolved) =
      routed proxies (last_rule yaml.rules (normalise host)) (last_default yaml.rules) _ _
        (added.all_entries (normalise host)) added.all_default (or_fail-ok b.default set) in
    (
      proxies,
      names,
      loaded,
      r,
      resolved ∙ ap (λ rt. ok (lookup (Runtime.router rt) host)) (ok_same e4),
    )
  where
    or_fail-ok :
        (o : Option (List Hop)) {d : List Hop}
        → or_fail o Error.default_required ≡ ok d
        → o ≡ some d
    or_fail-ok none h = cc
    or_fail-ok (some a) h = cc
