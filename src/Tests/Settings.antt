-- ===== src/Tests/Settings.antt =====
-- src/config.rs and src/router.rs on a concrete configuration.
use nyasniproxy.Base.{
  ◌↔◌, true, false, List, [], ◌∷◌, Option, none, some, Bytes, codes, ok, ◌≡◌, refl, bytes_eq,
  eq_ignore_ascii_case, is_ascii_alphanumeric,
}
use nyasniproxy.Base.Text.{split}
use nyasniproxy.Target.{is_valid_hostname, is_valid_dns_label}
use nyasniproxy.Proxy.{Url, ProxyConfig, ProxyKind, parse, kind_of_scheme}
use nyasniproxy.Config.{v4, CliOverrides, HostsSetting, string, sequence, boolean, FileConfig}
use nyasniproxy.Config.Parse.{Document}
use nyasniproxy.Config.Merge.{Merges, merge_settings-Merges}
use nyasniproxy.Config.{merge_settings}
use nyasniproxy.Config.Ignored.{Setting, warn_ignored_runtime_changes}
use nyasniproxy.Router.{Router, Runtime, HashWrite, resolve, from_yaml, get, insert, sort_by_key}
use mathlib.Core.List.Permᴰ
use mathlib.Core.List.Permᴰ.{swap}
use nyasniproxy.Base.{ℕ, ◌+◌, ◌*◌, length, lower_byte}
use nyasniproxy.Router.{write_str, write_length, routing_fingerprint}
use nyasniproxy.Router.Names.{IsHostList, from_yaml-IsHostList}
use nyasniproxy.Router.Writes.{IsMap}
use nyasniproxy.Router.Acceptable.{IsAcceptable, from_yaml_iff}
use nyasniproxy.Router.Order.{IsAlike, from_yaml-IsAlike}

abbrev pub document : Document
document = record {
  listen = none;
  hosts = some (boolean false);
  refresh = some 60;
  http = none;
  proxies = (codes "jp", codes "http://p") ∷ [];
  rules =
      (codes "A.b", string (codes "jp"))
      ∷ (codes "Default", sequence (some (codes "jp") ∷ []))
      ∷ [];
}

abbrev pub config : FileConfig
config = record {
  listen = none;
  hosts = some HostsSetting.disabled;
  refresh = some 60;
  http = none;
  proxies = (codes "jp", codes "http://p") ∷ [];
  rules = (codes "A.b", codes "jp" ∷ []) ∷ (codes "Default", codes "jp" ∷ []) ∷ [];
}

abbrev pub cli : CliOverrides
cli = record {
  listen = some (v4 127 0 0 9);
  hosts = none;
  no_hosts = false;
  no_http = true;
  refresh = none;
}

merge_settings-Merges_example : Merges config cli (merge_settings config cli)
merge_settings-Merges_example = merge_settings-Merges config cli

abbrev pub parse_url : Bytes → Option Url
parse_url raw = some (record {
  scheme = codes "http";
  host_str = some (codes "p");
  port_or_known_default = some 80;
  username = [];
  password = none;
})

abbrev pub jp : ProxyConfig
jp = record {
  kind = ProxyKind.http;
  host = codes "p";
  port = 80;
  username = none;
  password = none;
  tls_connector = false;
}

abbrev pub runtime : Runtime
runtime = record {
  router = record {
    rules = (codes "a.b", record { name = codes "jp"; proxy = jp } ∷ []) ∷ [];
    default = record { name = codes "jp"; proxy = jp } ∷ [];
  };
  hostnames = codes "A.b" ∷ [];
  fingerprint = 0;
}

pub builds : from_yaml parse_url (λ ws. 0) config ≡ ok runtime
unfolding from_yaml parse kind_of_scheme bytes_eq get insert eq_ignore_ascii_case is_valid_hostname
    split is_valid_dns_label is_ascii_alphanumeric sort_by_key nyasniproxy.Router.add_rule resolve
    nyasniproxy.Router.insert_by nyasniproxy.Router.routing_fingerprint
builds = refl

-- The same maps, walked in another order.
abbrev pub reordered : FileConfig
reordered = record config {
  rules = (codes "Default", codes "jp" ∷ []) ∷ (codes "A.b", codes "jp" ∷ []) ∷ [];
}

pub config-IsMap : IsMap config
unfolding lower_byte
config-IsMap = record { proxy_keys = (tt, tt); rule_keys = (((λ e. cc), tt), (tt, tt)) }

reordered-IsMap : IsMap reordered
unfolding lower_byte
reordered-IsMap = record { proxy_keys = (tt, tt); rule_keys = (((λ e. cc), tt), (tt, tt)) }

abbrev pub hash : List HashWrite → ℕ
hash [] = 7
hash (write_str s ∷ ws) = length s + 31 * hash ws
hash (write_length n ∷ ws) = n + 37 * hash ws

builds_reordered : from_yaml parse_url (λ ws. 0) reordered ≡ ok runtime
unfolding from_yaml parse kind_of_scheme bytes_eq nyasniproxy.Router.add_rule eq_ignore_ascii_case
    resolve get insert is_valid_hostname split is_valid_dns_label is_ascii_alphanumeric sort_by_key
    routing_fingerprint nyasniproxy.Router.insert_by
builds_reordered = refl

builds_hashed :
    from_yaml parse_url hash config
    ≡ ok (record runtime { fingerprint = routing_fingerprint hash config })
unfolding from_yaml parse kind_of_scheme bytes_eq nyasniproxy.Router.add_rule eq_ignore_ascii_case
    resolve get insert is_valid_hostname split is_valid_dns_label is_ascii_alphanumeric sort_by_key
    routing_fingerprint nyasniproxy.Router.insert_by
builds_hashed = refl

from_yaml-IsAlike_example :
    (s : Runtime) × (from_yaml parse_url hash reordered ≡ ok s)
    × IsAlike (record runtime { fingerprint = routing_fingerprint hash config }) s
from_yaml-IsAlike_example =
    from_yaml-IsAlike parse_url hash config reordered config-IsMap (Permᴰ.refl config.proxies)
      (swap refl refl) builds_hashed

from_yaml_iff_example :
    ((rt : Runtime) × (from_yaml parse_url hash config ≡ ok rt)) ↔ IsAcceptable parse_url config
from_yaml_iff_example = from_yaml_iff parse_url hash config

warns_of_refresh :
    warn_ignored_runtime_changes config (record config { refresh = none; http = some true })
    ≡ Setting.http ∷ Setting.refresh ∷ []
unfolding warn_ignored_runtime_changes
warns_of_refresh = refl

from_yaml-IsHostList_example : IsHostList config.rules runtime.hostnames
from_yaml-IsHostList_example = from_yaml-IsHostList parse_url (λ ws. 0) config builds
