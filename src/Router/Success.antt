-- ===== src/Router/Success.antt =====
-- src/router.rs: when the loops of `from_yaml` succeed.
use nyasniproxy.Base.{
  Bool, true, false, not, List, [], ◌∷◌, Option, some, Bytes, Error, ok, ◌≡◌, ◌⊎◌, refl, ap, ◌∙◌,
  inl, inr, All, Bool-cases, bail_if, bind-eq-ok, ◌>>=◌,
}
use nyasniproxy.Target.{is_valid_hostname}
use nyasniproxy.Proxy.{Url, ProxyConfig, parse}
use nyasniproxy.Config.Parse.{is_default}
use nyasniproxy.Router.{Hop, insert, load_proxies, resolve, Build, add_host, add_rule, add_rules}

module _ (parse_url : Bytes → Option Url) where
  -- The URL of a proxy is accepted.
  abbrev pub Loads : Bytes × Bytes → Type 0
  Loads p = (c : ProxyConfig) × (parse parse_url p.1 ≡ ok c)

  pub load_proxies-Loads :
      (ps : List (Bytes × Bytes)) (acc : List (Bytes × ProxyConfig))
      {m : List (Bytes × ProxyConfig)}
      → load_proxies parse_url ps acc ≡ ok m
      → All Loads ps
  unfolding load_proxies
  load_proxies-Loads [] acc e = tt
  load_proxies-Loads ((n, url) ∷ ps) acc e =
      let (proxy, parsed, e1) = bind-eq-ok (parse parse_url url) _ e in
      ((proxy, parsed), load_proxies-Loads ps (insert acc n proxy) e1)

  pub Loads-load_proxies :
      (ps : List (Bytes × Bytes)) (acc : List (Bytes × ProxyConfig))
      → All Loads ps
      → (m : List (Bytes × ProxyConfig)) × (load_proxies parse_url ps acc ≡ ok m)
  unfolding load_proxies
  Loads-load_proxies [] acc h = (acc, refl)
  Loads-load_proxies ((n, url) ∷ ps) acc h =
      let (m, e) = Loads-load_proxies ps (insert acc n h.0.0) h.1 in
      (m, ap (λ r. r >>= (λ proxy. load_proxies parse_url ps (insert acc n proxy))) h.0.1 ∙ e)

module _ (proxies : List (Bytes × ProxyConfig)) where
  -- The key of a rule is accepted, and its names are those of proxies.
  pub record Adds (r : Bytes × List Bytes) : Type 0 where
    pub key_ok : (is_default r.0 ≡ true) ⊎ (is_valid_hostname r.0 ≡ true)
    pub hops : List Hop
    pub resolved : resolve proxies r.1 ≡ ok hops

  valid_key : (b : Bool) (e : Error) → bail_if (not b) e ≡ ok tt → b ≡ true
  valid_key true e h = refl
  valid_key false e h = cc

  add_rule-Adds :
      (key : Bytes) (names : List Bytes) (b : Build) {b' : Build}
      → add_rule proxies key names b ≡ ok b'
      → Adds (key, names)
  unfolding add_rule
  add_rule-Adds key names b e = elim (Bool-cases (is_default key)) [
    | inl d ↦
        let (hops, resolved, e1) = bind-eq-ok (resolve proxies names) _ (rw d at e) in
        record { key_ok = inl d; hops = hops; resolved = resolved }
    | inr r ↦
        let (u, valid, e1) = bind-eq-ok (bail_if (not (is_valid_hostname key)) _) _ (rw r at e) in
        let (hops, resolved, e2) = bind-eq-ok (resolve proxies names) _ e1 in
        record {
          key_ok = inr (valid_key (is_valid_hostname key) _ valid);
          hops = hops;
          resolved = resolved;
        }
  ]

  pub add_rules-Adds :
      (rules : List (Bytes × List Bytes)) (b : Build) {b' : Build}
      → add_rules proxies rules b ≡ ok b'
      → All Adds rules
  unfolding add_rules
  add_rules-Adds [] b e = tt
  add_rules-Adds ((key, names) ∷ rules) b e =
      let (mid, here, rest) = bind-eq-ok (add_rule proxies key names b) _ e in
      (add_rule-Adds key names b here, add_rules-Adds rules mid rest)

  Adds-add_rule :
      (key : Bytes) (names : List Bytes) (b : Build)
      → Adds (key, names)
      → (b' : Build) × (add_rule proxies key names b ≡ ok b')
  unfolding add_rule
  Adds-add_rule key names b h = elim (Bool-cases (is_default key)) [
    | inl d ↦ (record b { default = some h.hops }, rw (d, h.resolved) refl)
    | inr r ↦ elim h.key_ok [
      | inl d ↦ cc
      | inr valid ↦ (add_host b key h.hops, rw (r, valid, h.resolved) refl)
    ]
  ]

  pub Adds-add_rules :
      (rules : List (Bytes × List Bytes)) (b : Build)
      → All Adds rules
      → (b' : Build) × (add_rules proxies rules b ≡ ok b')
  unfolding add_rules
  Adds-add_rules [] b h = (b, refl)
  Adds-add_rules ((key, names) ∷ rules) b h =
      let (mid, here) = Adds-add_rule key names b h.0 in
      let (b', e) = Adds-add_rules rules mid h.1 in
      (b', ap (λ r. r >>= (λ c. add_rules proxies rules c)) here ∙ e)
