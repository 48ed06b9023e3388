-- ===== src/Router.antt =====
-- src/router.rs: which upstream proxies a host is sent through.
pub mod Map
pub mod Routes
pub mod Hostnames
pub mod Nonempty
pub mod Ordered
pub mod Names
pub mod Sorting
pub mod Writes
pub mod Entries
pub mod Fingerprint
pub mod Success
pub mod Built
pub mod RuleKeys
pub mod RuleNames
pub mod Order
pub mod Known
pub mod Single
pub mod Acceptable
pub mod Fallback
use nyasniproxy.Base.{
  ℕ, suc, Bool, true, false, not, ◌&&◌, List, [], ◌∷◌, ◌++◌, Option, none, some, Bytes, codes,
  Result, Error, ok, err, ◌>>=◌, ◌>>◌, bail_if, or_fail, ltb, ◌==◌, if◌then◌else◌, length, is_empty,
  any, bytes_eq, to_ascii_lowercase,
}
use nyasniproxy.Target.{Target, is_valid_hostname}
use nyasniproxy.Config.{FileConfig, unwrap_or}
use nyasniproxy.Config.Parse.{is_default}
use nyasniproxy.Proxy.{Url, ProxyConfig, parse}
use nyasniproxy.Proxy.Tunnel.{ProxyStream}
use nyasniproxy.Proxy.Connect.{Attempt, connect}

-- `HashMap::get` and `HashMap::insert` on a list of entries.
unfoldable pub get {ℓ} : {A : Type ℓ} → List (Bytes × A) → Bytes → Option A
get [] k = none
get ((k', v) ∷ m) k = if bytes_eq k' k then some v else get m k

unfoldable pub insert {ℓ} : {A : Type ℓ} → List (Bytes × A) → Bytes → A → List (Bytes × A)
insert [] k v = (k, v) ∷ []
insert ((k', v') ∷ m) k v = if bytes_eq k' k then (k', v) ∷ m else (k', v') ∷ insert m k v

pub record Hop : Type 0 where
  pub name : Bytes
  pub proxy : ProxyConfig

pub record Router : Type 0 where
  pub rules : List (Bytes × List Hop)
  pub default : List Hop

-- `trim_end_matches('.')`.
unfoldable pub trim_end_dots : Bytes → Bytes
trim_end_dots [] = []
trim_end_dots (c ∷ s) =
    let rest = trim_end_dots s in if is_empty rest && c == b'.' then [] else c ∷ rest

-- The key under which a host is looked up.
abbrev pub normalise : Bytes → Bytes
normalise host = to_ascii_lowercase (trim_end_dots host)

unfoldable pub lookup : Router → Bytes → List Hop
lookup r host = unwrap_or (get r.rules (normalise host)) r.default

pub record Runtime : Type 0 where
  pub router : Router
  pub hostnames : List Bytes
  pub fingerprint : ℕ

-- The loop over the proxies, with `Url::parse` as a parameter.
unfoldable pub load_proxies :
    (Bytes → Option Url)
    → List (Bytes × Bytes)
    → List (Bytes × ProxyConfig)
    → Result (List (Bytes × ProxyConfig))
load_proxies parse_url [] proxies = ok proxies
load_proxies parse_url ((name, url) ∷ rest) proxies = do
  proxy ← parse parse_url url
  load_proxies parse_url rest (insert proxies name proxy)

-- The closure `resolve`.
unfoldable pub resolve : List (Bytes × ProxyConfig) → List Bytes → Result (List Hop)
resolve proxies [] = ok []
resolve proxies (name ∷ names) = do
  proxy ← or_fail (get proxies name) (Error.unknown_proxy name)
  hops ← resolve proxies names
  ok (record { name = name; proxy = proxy } ∷ hops)

-- The variables of the loop over the rules.
pub record Build : Type 0 where
  pub rules : List (Bytes × List Hop)
  pub default : Option (List Hop)
  pub hostnames : List Bytes
  pub seen : List Bytes

add_host : Build → Bytes → List Hop → Build
add_host b key hops =
    let lower = to_ascii_lowercase key in
    if any (bytes_eq lower) b.seen
    then record b { rules = insert b.rules lower hops }
    else record b {
      rules = insert b.rules lower hops;
      hostnames = b.hostnames ++ (key ∷ []);
      seen = lower ∷ b.seen;
    }

-- The body of the loop.
unfoldable pub add_rule : List (Bytes × ProxyConfig) → Bytes → List Bytes → Build → Result Build
unfolding add_host
add_rule proxies key names b =
    if is_default key
    then (do hops ← resolve proxies names; ok (record b { default = some hops }))
    else do
      bail_if (not (is_valid_hostname key)) (Error.invalid_rule_hostname key)
      hops ← resolve proxies names
      ok (add_host b key hops)

unfoldable pub add_rules :
    List (Bytes × ProxyConfig) → List (Bytes × List Bytes) → Build → Result Build
add_rules proxies [] b = ok b
add_rules proxies ((key, names) ∷ rules) b = do
  b' ← add_rule proxies key names b
  add_rules proxies rules b'

-- `Ord` of byte strings.
unfoldable pub lex_leb : Bytes → Bytes → Bool
lex_leb [] t = true
lex_leb (c ∷ s) [] = false
lex_leb (c ∷ s) (d ∷ t) = if ltb c d then true else c == d && lex_leb s t

-- `sort_by_key`, which is stable.
unfoldable pub insert_by {ℓ} : {A : Type ℓ} → (A → Bytes) → A → List A → List A
insert_by key x [] = x ∷ []
insert_by key x (y ∷ ys) = if lex_leb (key x) (key y) then x ∷ y ∷ ys else y ∷ insert_by key x ys

unfoldable pub sort_by_key {ℓ} : {A : Type ℓ} → (A → Bytes) → List A → List A
sort_by_key key [] = []
sort_by_key key (x ∷ xs) = insert_by key x (sort_by_key key xs)

-- What is fed to a `Hasher`.
pub data HashWrite : Type 0 where
  write_str : Bytes → HashWrite
  write_length : ℕ → HashWrite

unfoldable pub proxy_writes : List (Bytes × Bytes) → List HashWrite
proxy_writes [] = []
proxy_writes ((name, url) ∷ rest) = write_str name ∷ write_str url ∷ proxy_writes rest

unfoldable pub name_writes : List Bytes → List HashWrite → List HashWrite
name_writes [] rest = rest
name_writes (n ∷ ns) rest = write_str n ∷ name_writes ns rest

unfoldable pub rule_writes : List (Bytes × List Bytes) → List HashWrite
unfolding name_writes
rule_writes [] = []
rule_writes ((key, names) ∷ rest) =
    write_str (to_ascii_lowercase key)
    ∷ write_length (length names)
    ∷ name_writes names (rule_writes rest)

-- `routing_fingerprint`, with the value that `DefaultHasher` makes of its input as a parameter.
unfoldable pub routing_fingerprint : (List HashWrite → ℕ) → FileConfig → ℕ
unfolding proxy_writes rule_writes
routing_fingerprint finish yaml = finish (
    proxy_writes (sort_by_key (λ p. p.0) yaml.proxies)
    ++ rule_writes (sort_by_key (λ r. to_ascii_lowercase r.0) yaml.rules))

abbrev pub empty_build : Build
empty_build = record { rules = []; default = none; hostnames = []; seen = [] }

-- `Runtime::from_yaml`.
unfoldable pub from_yaml : (Bytes → Option Url) → (List HashWrite → ℕ) → FileConfig → Result Runtime
unfolding load_proxies add_rules
from_yaml parse_url finish yaml = do
  proxies ← load_proxies parse_url yaml.proxies []
  b ← add_rules proxies yaml.rules empty_build
  default ← or_fail b.default Error.default_required
  bail_if (is_empty default) Error.default_empty
  ok (record {
    router = record { rules = b.rules; default = default };
    hostnames = sort_by_key to_ascii_lowercase b.hostnames;
    fingerprint = routing_fingerprint finish yaml;
  })

-- The loop of `connect_with_fallback`: `attempts n` is what the `n`-th attempt meets.
unfoldable pub connect_hops :
    (Bytes → Bytes) → (ℕ → Attempt) → Target → ℕ → Error → List Hop → Result ProxyStream
connect_hops base64 attempts t n last_err [] = err last_err
connect_hops base64 attempts t n last_err (hop ∷ hops) =
    elim (connect base64 hop.proxy t (attempts n)) [
      | ok stream ↦ ok stream
      | err e ↦ connect_hops base64 attempts t (suc n) e hops
    ]

unfoldable pub connect_with_fallback :
    (Bytes → Bytes) → (ℕ → Attempt) → List Hop → Target → Result ProxyStream
unfolding connect_hops
connect_with_fallback base64 attempts hops t =
    connect_hops base64 attempts t 0 Error.no_proxy_candidates hops
