-- ===== src/Config/Merge.antt =====
-- src/config.rs: the settings that `merge_settings` allows.
use nyasniproxy.Base.{
  ◌<◌, Bool, true, false, Option, none, some, Bytes, Result, Error, ok, err, ◌≡◌, ◌⊎◌, refl, inl,
  inr, arith, ◌==◌, if◌then◌else◌,
}
use nyasniproxy.Config.{
  is_loopback, default_listen, default_refresh_secs, CliOverrides, StaticSettings, HostsSetting,
  disabled, path, FileConfig, or_option, unwrap_or, default_hosts_path, hosts_path_of,
  merge_settings,
}

-- A value from the command line, from the file, or by default, in this order.
pub data Chosen {A : Type 0} (cli yaml : Option A) (default : A) : A → Type 0 where
  from_cli : {a : A} → cli ≡ some a → Chosen cli yaml default a
  from_file : {a : A} → cli ≡ none → yaml ≡ some a → Chosen cli yaml default a
  by_default : cli ≡ none → yaml ≡ none → Chosen cli yaml default default

Chosen-unwrap_or :
    {A : Type 0} (cli yaml : Option A) (d : A)
    → Chosen cli yaml d (unwrap_or (or_option cli yaml) d)
Chosen-unwrap_or (some a) yaml d = from_cli refl
Chosen-unwrap_or none (some a) d = from_file refl refl
Chosen-unwrap_or none none d = by_default refl refl

-- Which hosts file the program writes, if any.
pub data HostsFile (no_hosts : Bool) (cli : Option Bytes) (yaml : Option HostsSetting)
    : Option Bytes → Type 0 where
  switched_off : no_hosts ≡ true → HostsFile no_hosts cli yaml none
  named : {p : Bytes} → no_hosts ≡ false → cli ≡ some p → HostsFile no_hosts cli yaml (some p)
  switched_off_in_file :
      no_hosts ≡ false → cli ≡ none → yaml ≡ some disabled → HostsFile no_hosts cli yaml none
  named_in_file :
      {p : Bytes}
      → no_hosts ≡ false
      → cli ≡ none
      → yaml ≡ some (path p)
      → HostsFile no_hosts cli yaml (some p)
  usual :
      no_hosts ≡ false
      → cli ≡ none
      → yaml ≡ none
      → HostsFile no_hosts cli yaml (some default_hosts_path)

HostsFile-hosts_path_of :
    (b : Bool) (cli : Option Bytes) (yaml : Option HostsSetting)
    → HostsFile b cli yaml (hosts_path_of b cli yaml)
unfolding hosts_path_of
HostsFile-hosts_path_of true cli yaml = switched_off refl
HostsFile-hosts_path_of false (some p) yaml = named refl refl
HostsFile-hosts_path_of false none (some disabled) = switched_off_in_file refl refl refl
HostsFile-hosts_path_of false none (some (path p)) = named_in_file refl refl refl
HostsFile-hosts_path_of false none none = usual refl refl refl

-- Whether the listener for HTTP is on: off by the command line, else as in the file, else on.
pub data HttpListener (no_http : Bool) (yaml : Option Bool) : Bool → Type 0 where
  http_switched_off : no_http ≡ true → HttpListener no_http yaml false
  http_from_file : {b : Bool} → no_http ≡ false → yaml ≡ some b → HttpListener no_http yaml b
  http_usual : no_http ≡ false → yaml ≡ none → HttpListener no_http yaml true

HttpListener-merged :
    (no_http : Bool) (yaml : Option Bool)
    → HttpListener no_http yaml (if no_http then false else unwrap_or yaml true)
HttpListener-merged true yaml = http_switched_off refl
HttpListener-merged false (some b) = http_from_file refl refl
HttpListener-merged false none = http_usual refl refl

pub record IsMerged (yaml : FileConfig) (cli : CliOverrides) (s : StaticSettings) : Type 0 where
  pub listens : Chosen cli.listen yaml.listen default_listen s.listen
  pub loopback : is_loopback s.listen ≡ true
  pub refreshes : Chosen cli.refresh yaml.refresh default_refresh_secs s.refresh
  pub refresh_positive : 0 < s.refresh
  pub http_listener : HttpListener cli.no_http yaml.http s.http
  pub hosts_file : HostsFile cli.no_hosts cli.hosts yaml.hosts s.hosts_path

-- The outcome of `merge_settings`, the errors included.
abbrev pub Merges : FileConfig → CliOverrides → Result StaticSettings → Type 0
Merges yaml cli (ok s) = IsMerged yaml cli s
Merges yaml cli (err e) =
    ((e ≡ Error.not_loopback)
      × (is_loopback (unwrap_or (or_option cli.listen yaml.listen) default_listen) ≡ false))
    ⊎ ((e ≡ Error.refresh_zero)
        × (unwrap_or (or_option cli.refresh yaml.refresh) default_refresh_secs ≡ 0))

merged :
    (yaml : FileConfig) (cli : CliOverrides) (loop zero_refresh : Bool)
    → is_loopback (unwrap_or (or_option cli.listen yaml.listen) default_listen) ≡ loop
    → (unwrap_or (or_option cli.refresh yaml.refresh) default_refresh_secs == 0) ≡ zero_refresh
    → Merges yaml cli (merge_settings yaml cli)
unfolding merge_settings
merged yaml cli false z l r = rw l (inl (refl, l))
merged yaml cli true true l r = rw (l, r) (inr (refl, ground (arith, r)))
merged yaml cli true false l r =
    rw (l, r)
      (record {
        listens = Chosen-unwrap_or cli.listen yaml.listen default_listen;
        loopback = l;
        refreshes = Chosen-unwrap_or cli.refresh yaml.refresh default_refresh_secs;
        refresh_positive = ground (arith, r);
        http_listener = HttpListener-merged cli.no_http yaml.http;
        hosts_file = HostsFile-hosts_path_of cli.no_hosts cli.hosts yaml.hosts;
      })

-- Settings come from the command line, else from the file, else by default; they are accepted
-- only with a loopback address and a positive refresh interval, `--no-http` and `--no-hosts` win
-- over the file, the HTTP listener is on where neither speaks of it, and the only refusals are an address that is not loopback and a zero interval.
pub merge_settings-Merges :
    (yaml : FileConfig) (cli : CliOverrides) → Merges yaml cli (merge_settings yaml cli)
merge_settings-Merges yaml cli = merged yaml cli _ _ refl refl
