-- ===== src/Router/Hostnames.antt =====
-- src/router.rs: the host names that `from_yaml` hands to the hosts file.
use nyasniproxy.Base.{
  ok_same, ℕ, Bool, true, false, not, List, [], ◌∷◌, Option, Bytes, Error, ok, ◌≡◌, refl, inl, inr,
  arith, ◌==◌, is_empty, any, All, bytes_eq, Bool-cases, bail_if, or_fail, bind-eq-ok,
  to_ascii_lowercase, subst, All-append, is_ascii_alphanumeric,
}
use nyasniproxy.Target.{is_valid_hostname}
use nyasniproxy.Target.Hostname.{IsHostByte, is_valid_hostname-IsHostByte}
use nyasniproxy.Hosts.{render_block, replace_managed_block}
use nyasniproxy.Hosts.Replace.{IsNewline}
use nyasniproxy.Hosts.Plain.{NoHash}
use nyasniproxy.Hosts.Idempotent.{replace_managed_block_idem}
use nyasniproxy.Proxy.{Url, ProxyConfig}
use nyasniproxy.Config.{FileConfig}
use nyasniproxy.Config.Parse.{is_default}
use nyasniproxy.Router.{
  Hop, Runtime, load_proxies, resolve, Build, add_host, add_rule, add_rules, HashWrite, empty_build,
  from_yaml,
}
use nyasniproxy.Router.Sorting.{sort_by_key-All}

abbrev pub Valid : Bytes → Type 0
Valid name = is_valid_hostname name ≡ true

valid_key : (b : Bool) (e : Error) → bail_if (not b) e ≡ ok tt → b ≡ true
valid_key true e h = refl
valid_key false e h = cc

add_host-Valid :
    (b : Build) (key : Bytes) (hops : List Hop)
    → Valid key
    → All Valid b.hostnames
    → All Valid (add_host b key hops).hostnames
unfolding add_host
add_host-Valid b key hops v h = elim (Bool-cases (any (bytes_eq (to_ascii_lowercase key)) b.seen)) [
  | inl t ↦ rw t h
  | inr f ↦ rw f (All-append Valid b.hostnames (key ∷ []) h (v, tt))
]

add_rule-Valid :
    (proxies : List (Bytes × ProxyConfig)) (key : Bytes) (names : List Bytes) (b : Build)
    {b' : Build}
    → All Valid b.hostnames
    → add_rule proxies key names b ≡ ok b'
    → All Valid b'.hostnames
unfolding add_rule
add_rule-Valid proxies key names b h e = elim (Bool-cases (is_default key)) [
  | inl d ↦
      let (hops, resolved, e1) = bind-eq-ok (resolve proxies names) _ (rw d at e) in
      subst (λ c. All Valid (Build.hostnames c)) (ok_same e1) h
  | inr r ↦
      let (u, valid, e1) = bind-eq-ok (bail_if (not (is_valid_hostname key)) _) _ (rw r at e) in
      let (hops, resolved, e2) = bind-eq-ok (resolve proxies names) _ e1 in
      subst (λ c. All Valid (Build.hostnames c)) (ok_same e2)
        (add_host-Valid b key hops (valid_key (is_valid_hostname key) _ valid) h)
]

add_rules-Valid :
    (proxies : List (Bytes × ProxyConfig)) (rules : List (Bytes × List Bytes)) (b : Build)
    {b' : Build}
    → All Valid b.hostnames
    → add_rules proxies rules b ≡ ok b'
    → All Valid b'.hostnames
unfolding add_rules
add_rules-Valid proxies [] b h e = subst (λ c. All Valid (Build.hostnames c)) (ok_same e) h
add_rules-Valid proxies ((key, names) ∷ rules) b h e =
    let (mid, here, rest) = bind-eq-ok (add_rule proxies key names b) _ e in
    add_rules-Valid proxies rules mid (add_rule-Valid proxies key names b h here) rest

pub from_yaml-Valid :
    (parse_url : Bytes → Option Url) (finish : List HashWrite → ℕ) (yaml : FileConfig)
    {rt : Runtime}
    → from_yaml parse_url finish yaml ≡ ok rt
    → All Valid rt.hostnames
unfolding from_yaml
from_yaml-Valid parse_url finish yaml e =
    let (proxies, loaded, e1) = bind-eq-ok (load_proxies parse_url yaml.proxies []) _ e in
    let (b, built, e2) = bind-eq-ok (add_rules proxies yaml.rules empty_build) _ e1 in
    let (d, set, e3) = bind-eq-ok (or_fail b.default Error.default_required) _ e2 in
    let (u, filled, e4) = bind-eq-ok (bail_if (is_empty d) Error.default_empty) _ e3 in
    subst (λ rt. All Valid (Runtime.hostnames rt)) (ok_same e4)
      (sort_by_key-All to_ascii_lowercase Valid b.hostnames
        (add_rules-Valid proxies yaml.rules empty_build tt built))

host_byte-not_hash : (c : ℕ) → IsHostByte c → (c == b'#') ≡ false
unfolding is_ascii_alphanumeric
host_byte-not_hash c h = ground arith

NoHash-host : (name : Bytes) → All IsHostByte name → NoHash name
NoHash-host [] h = refl
NoHash-host (c ∷ s) h = ground (arith, host_byte-not_hash c h.0, NoHash-host s h.1)

NoHash-All : (names : List Bytes) → All Valid names → All NoHash names
NoHash-All [] h = tt
NoHash-All (n ∷ ns) h = (NoHash-host n (is_valid_hostname-IsHostByte n h.0), NoHash-All ns h.1)

-- The host names of every runtime that `from_yaml` builds can be written to the hosts file again
-- and again: whatever the file holds, the second replacement of the managed block changes
-- nothing, with a line end of LF or CR LF and an address without `#`.
from_yaml_idem :
    (parse_url : Bytes → Option Url) (finish : List HashWrite → ℕ) (yaml : FileConfig)
    {rt : Runtime} (original ip newline : Bytes)
    → from_yaml parse_url finish yaml ≡ ok rt
    → NoHash ip
    → IsNewline newline
    → replace_managed_block
        (replace_managed_block original (render_block ip rt.hostnames newline))
        (render_block ip rt.hostnames newline)
      ≡ replace_managed_block original (render_block ip rt.hostnames newline)
from_yaml_idem parse_url finish yaml {rt} original ip newline e plain_ip eol =
    replace_managed_block_idem original ip rt.hostnames newline (record {
      ip_plain = plain_ip;
      names_plain = NoHash-All rt.hostnames (from_yaml-Valid parse_url finish yaml e);
      newline_known = eol;
    })
