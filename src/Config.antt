-- ===== src/Config.antt =====
-- src/config.rs: the sources of the configuration, its YAML form and the settings fixed at start.
pub mod Parse
pub mod Merge
pub mod Ignored
pub mod Fetch
use nyasniproxy.Base.{
  ℕ, ◌+◌, ◌*◌, Bool, true, false, not, List, [], ◌∷◌, ◌++◌, Option, none, some, Bytes, codes,
  Result, Error, ok, err, ◌>>=◌, ◌>>◌, bail_if, or_fail, ltb, ◌==◌, if◌then◌else◌, length, take,
  is_empty, any, map, min, eq_ignore_ascii_case,
}
use nyasniproxy.Base.Text.{starts_with}
use nyasniproxy.Base.Utf8.{is_utf8}

-- An `IpAddr`: the four octets, or the number of 128 bits.
pub data Ip : Type 0 where
  v4 : ℕ → ℕ → ℕ → ℕ → Ip
  v6 : ℕ → Ip

-- `IpAddr::is_loopback`: 127.0.0.0/8 and `::1`.
abbrev pub is_loopback : Ip → Bool
is_loopback (v4 a b c d) = a == 127
is_loopback (v6 n) = n == 1

abbrev pub default_listen : Ip
default_listen = v4 127 0 0 2

abbrev pub default_refresh_secs : ℕ
default_refresh_secs = 30

abbrev pub max_config_bytes : ℕ
max_config_bytes = 1024 * 1024

-- A path and a URL are their text.
pub data ConfigSource : Type 0 where
  file url : Bytes → ConfigSource

-- `ConfigSource::parse`, with `Url::parse` as a parameter.
unfoldable pub parse_source : (Bytes → Option Bytes) → Bytes → Result ConfigSource
parse_source parse_url raw =
    if starts_with raw (codes "http://")
    then (do u ← or_fail (parse_url raw) Error.parse_config_url_failed; ok (url u))
    else if starts_with raw (codes "https://")
    then (do u ← or_fail (parse_url raw) Error.parse_config_url_failed; ok (url u))
    else ok (file raw)

pub record CliOverrides : Type 0 where
  pub listen : Option Ip
  pub hosts : Option Bytes
  pub no_hosts : Bool
  pub no_http : Bool
  pub refresh : Option ℕ

-- `refresh` is in seconds.
pub record StaticSettings : Type 0 where
  pub listen : Ip
  pub http : Bool
  pub hosts_path : Option Bytes
  pub refresh : ℕ

pub data HostsSetting : Type 0 where
  disabled : HostsSetting
  path : Bytes → HostsSetting

-- A YAML value as a visitor meets it; an element of a sequence is `none` if it is not a string.
pub data YamlValue : Type 0 where
  boolean : Bool → YamlValue
  string : Bytes → YamlValue
  sequence : List (Option Bytes) → YamlValue
  other : YamlValue

-- The maps are lists of entries in the order in which the map is walked.
pub record FileConfig : Type 0 where
  pub listen : Option Ip
  pub hosts : Option HostsSetting
  pub refresh : Option ℕ
  pub http : Option Bool
  pub proxies : List (Bytes × Bytes)
  pub rules : List (Bytes × List Bytes)

-- `Option::or` and `Option::unwrap_or`.
abbrev pub or_option {ℓ} : {A : Type ℓ} → Option A → Option A → Option A
or_option none b = b
or_option (some a) b = some a

abbrev pub unwrap_or {ℓ} : {A : Type ℓ} → Option A → A → A
unwrap_or none d = d
unwrap_or (some a) d = a

-- Off Windows.
abbrev pub default_hosts_path : Bytes
default_hosts_path = codes "/etc/hosts"

-- The choice of the hosts file.
unfoldable pub hosts_path_of : Bool → Option Bytes → Option HostsSetting → Option Bytes
hosts_path_of true hosts setting = none
hosts_path_of false (some p) setting = some p
hosts_path_of false none (some disabled) = none
hosts_path_of false none (some (path p)) = some p
hosts_path_of false none none = some default_hosts_path

unfoldable pub merge_settings : FileConfig → CliOverrides → Result StaticSettings
unfolding hosts_path_of
merge_settings yaml cli =
    let listen = unwrap_or (or_option cli.listen yaml.listen) default_listen in
    let refresh_secs = unwrap_or (or_option cli.refresh yaml.refresh) default_refresh_secs in
    do
      bail_if (not (is_loopback listen)) Error.not_loopback
      bail_if (refresh_secs == 0) Error.refresh_zero
      ok (record {
        listen = listen;
        http = if cli.no_http then false else unwrap_or yaml.http true;
        hosts_path = hosts_path_of cli.no_hosts cli.hosts yaml.hosts;
        refresh = refresh_secs;
      })

-- `canonicalize_source`, with the file system's `canonicalize` as a parameter.
unfoldable pub canonicalize_source : (Bytes → Option Bytes) → ConfigSource → Result ConfigSource
canonicalize_source canonicalize (file p) = do
  real ← or_fail (canonicalize p) Error.canonicalize_failed
  ok (file real)
canonicalize_source canonicalize (url u) = ok (url u)
