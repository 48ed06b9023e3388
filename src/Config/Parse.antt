-- ===== src/Config/Parse.antt =====
-- src/config.rs: the visitors of the YAML form, `parse_yaml`, and what it accepts.
use nyasniproxy.Base.{
  passed, ok_same, ℕ, Bool, true, false, not, List, [], ◌∷◌, Option, none, some, Bytes, codes,
  Result, Error, ok, err, ◌>>=◌, ◌>>◌, bail_if, is_empty, any, All, subst, bind-eq-ok, arith, refl,
  ◌≡◌, eq_ignore_ascii_case,
}
use nyasniproxy.Config.{
  Ip, HostsSetting, disabled, path, YamlValue, boolean, string, sequence, other, FileConfig,
}

-- `HostsVisitor`.
unfoldable pub visit_hosts : YamlValue → Result HostsSetting
visit_hosts (boolean true) = err Error.hosts_true_invalid
visit_hosts (boolean false) = ok disabled
visit_hosts (string []) = err Error.hosts_path_empty
visit_hosts (string (c ∷ s)) = ok (path (c ∷ s))
visit_hosts (sequence vs) = err Error.parse_yaml_failed
visit_hosts other = err Error.parse_yaml_failed

-- The loop over the elements of `visit_seq`.
unfoldable pub next_elements : List (Option Bytes) → Result (List Bytes)
next_elements [] = ok []
next_elements (none ∷ vs) = err Error.parse_yaml_failed
next_elements (some [] ∷ vs) = err Error.proxy_name_empty
next_elements (some (c ∷ s) ∷ vs) = do names ← next_elements vs; ok ((c ∷ s) ∷ names)

-- `ProxyRefVisitor`.
unfoldable pub visit_proxy_ref : YamlValue → Result (List Bytes)
unfolding next_elements
visit_proxy_ref (string []) = err Error.proxy_name_empty
visit_proxy_ref (string (c ∷ s)) = ok ((c ∷ s) ∷ [])
visit_proxy_ref (sequence vs) = do
  names ← next_elements vs
  bail_if (is_empty names) Error.proxy_list_empty
  ok names
visit_proxy_ref (boolean b) = err Error.parse_yaml_failed
visit_proxy_ref other = err Error.parse_yaml_failed

-- The document as `serde_yaml` hands it to the fields' visitors.
pub record Document : Type 0 where
  pub listen : Option Ip
  pub hosts : Option YamlValue
  pub refresh : Option ℕ
  pub http : Option Bool
  pub proxies : List (Bytes × Bytes)
  pub rules : List (Bytes × YamlValue)

hosts_field : Option YamlValue → Result (Option HostsSetting)
hosts_field none = ok none
hosts_field (some v) = do h ← visit_hosts v; ok (some h)

rules_field : List (Bytes × YamlValue) → Result (List (Bytes × List Bytes))
rules_field [] = ok []
rules_field ((key, v) ∷ rest) = do
  names ← visit_proxy_ref v
  more ← rules_field rest
  ok ((key, names) ∷ more)

from_document : Document → Result FileConfig
unfolding hosts_field rules_field
from_document d = do
  hosts ← hosts_field d.hosts
  rules ← rules_field d.rules
  ok (record {
    listen = d.listen;
    hosts = hosts;
    refresh = d.refresh;
    http = d.http;
    proxies = d.proxies;
    rules = rules;
  })

-- `.context(..)`.
abbrev pub context {ℓ} : {A : Type ℓ} → Error → Result A → Result A
context e (ok a) = ok a
context e (err e') = err e

abbrev pub is_default : Bytes → Bool
is_default key = eq_ignore_ascii_case key (codes "default")

-- `parse_yaml`, with the reader of `serde_yaml` as a parameter.
unfoldable pub parse_yaml : (Bytes → Result Document) → Bytes → Result FileConfig
unfolding from_document
parse_yaml read_document text = do
  cfg ← context Error.parse_yaml_failed (read_document text >>= from_document)
  bail_if (is_empty cfg.proxies) Error.proxies_empty
  bail_if (any (λ p. is_empty p.0) cfg.proxies) Error.proxy_name_empty
  bail_if (not (any (λ r. is_default r.0) cfg.rules)) Error.default_required
  ok cfg

-- At least one name, and none of them empty.
abbrev pub NamesHops : List Bytes → Type 0
NamesHops names = (is_empty names ≡ false) × All (λ n. is_empty n ≡ false) names

not-false : (b : Bool) → not b ≡ false → b ≡ true
not-false b h = ground arith

-- What the router relies on: proxies, each with a name, rules that each name at least one proxy by
-- a name that is not empty, and a rule for the default.
pub record IsUsable (cfg : FileConfig) : Type 0 where
  pub some_proxy : is_empty cfg.proxies ≡ false
  pub named_proxies : any (λ p. is_empty p.0) cfg.proxies ≡ false
  pub named_hops : All (λ r. NamesHops r.1) cfg.rules
  pub has_default : any (λ r. is_default r.0) cfg.rules ≡ true

next_elements-named :
    (vs : List (Option Bytes)) {names : List Bytes}
    → next_elements vs ≡ ok names
    → All (λ n. is_empty n ≡ false) names
unfolding next_elements
next_elements-named [] e = subst (λ ns. All (λ n. is_empty n ≡ false) ns) (ok_same e) tt
next_elements-named (none ∷ vs) e = cc
next_elements-named (some [] ∷ vs) e = cc
next_elements-named (some (c ∷ s) ∷ vs) e =
    let (names, before, here) = bind-eq-ok (next_elements vs) _ e in
    subst (λ ns. All (λ n. is_empty n ≡ false) ns) (ok_same here)
      (refl, next_elements-named vs before)

visit_proxy_ref-NamesHops :
    (v : YamlValue) {names : List Bytes} → visit_proxy_ref v ≡ ok names → NamesHops names
unfolding visit_proxy_ref
visit_proxy_ref-NamesHops (string []) e = cc
visit_proxy_ref-NamesHops (string (c ∷ s)) e = subst NamesHops (ok_same e) (refl, (refl, tt))
visit_proxy_ref-NamesHops (sequence vs) e =
    let (names, read, e1) = bind-eq-ok (next_elements vs) _ e in
    let (u, filled, e2) = bind-eq-ok (bail_if (is_empty names) Error.proxy_list_empty) _ e1 in
    subst NamesHops (ok_same e2) (passed _ _ filled, next_elements-named vs read)
visit_proxy_ref-NamesHops (boolean b) e = cc
visit_proxy_ref-NamesHops other e = cc

rules_field-NamesHops :
    (rs : List (Bytes × YamlValue)) {rules : List (Bytes × List Bytes)}
    → rules_field rs ≡ ok rules
    → All (λ r. NamesHops r.1) rules
unfolding rules_field
rules_field-NamesHops [] e = subst (λ rs. All (λ r. NamesHops r.1) rs) (ok_same e) tt
rules_field-NamesHops ((key, v) ∷ rest) e =
    let (names, here, e1) = bind-eq-ok (visit_proxy_ref v) _ e in
    let (more, there, e2) = bind-eq-ok (rules_field rest) _ e1 in
    subst (λ rs. All (λ r. NamesHops r.1) rs) (ok_same e2)
      (visit_proxy_ref-NamesHops v here, rules_field-NamesHops rest there)

from_document-NamesHops :
    (d : Document) {cfg : FileConfig}
    → from_document d ≡ ok cfg
    → All (λ r. NamesHops r.1) cfg.rules
unfolding from_document
from_document-NamesHops d e =
    let (hosts, h, e1) = bind-eq-ok (hosts_field d.hosts) _ e in
    let (rules, r, e2) = bind-eq-ok (rules_field d.rules) _ e1 in
    subst (λ c. All (λ r. NamesHops r.1) (FileConfig.rules c)) (ok_same e2)
      (rules_field-NamesHops d.rules r)

context-ok : {A : Type 0} (e : Error) (m : Result A) {a : A} → context e m ≡ ok a → m ≡ ok a
context-ok e (ok b) h = h
context-ok e (err e') h = cc

-- A configuration that `parse_yaml` accepts has a proxy, no proxy without a name, a rule for the
-- default in any case, and in every rule at least one proxy name, none of them empty.
pub parse_yaml-IsUsable :
    (read_document : Bytes → Result Document) (text : Bytes) {cfg : FileConfig}
    → parse_yaml read_document text ≡ ok cfg
    → IsUsable cfg
unfolding parse_yaml
parse_yaml-IsUsable read_document text e =
    let (c, parsed, e1) =
      bind-eq-ok (context Error.parse_yaml_failed (read_document text >>= from_document)) _ e in
    let (u, filled, e2) = bind-eq-ok (bail_if (is_empty c.proxies) Error.proxies_empty) _ e1 in
    let (v, named, e3) =
      bind-eq-ok (bail_if (any (λ p. is_empty p.0) c.proxies) Error.proxy_name_empty) _ e2 in
    let (w, default, e4) =
      bind-eq-ok (bail_if (not (any (λ r. is_default r.0) c.rules)) Error.default_required) _ e3 in
    let (d, read, visited) =
      bind-eq-ok (read_document text) _
        (context-ok Error.parse_yaml_failed (read_document text >>= from_document) parsed) in
    subst IsUsable (ok_same e4) (record {
      some_proxy = passed _ _ filled;
      named_proxies = passed _ _ named;
      named_hops = from_document-NamesHops d visited;
      has_default = not-false (any (λ r. is_default r.0) c.rules) (passed _ _ default);
    })
