-- ===== src/Startup.antt =====
-- src/main.rs: `main`, from the command line to the start of the loops.
pub mod Outcome
use nyasniproxy.Base.{
  ℕ, Bool, true, false, not, ◌&&◌, Option, Bytes, Result, Error, ok, err, ◌>>=◌, ◌>>◌, bail_if, ◌≡◌,
  refl, ap, bind-eq-ok, subst, is_empty,
}
use nyasniproxy.Hosts.{Disk, FileSystem}
use nyasniproxy.Config.{
  Ip, ConfigSource, parse_source, CliOverrides, StaticSettings, FileConfig, merge_settings,
}
use nyasniproxy.Config.Parse.{parse_yaml, IsUsable, parse_yaml-IsUsable}
use nyasniproxy.Config.Merge.{Merges, IsMerged, merge_settings-Merges}
use nyasniproxy.Router.{lookup, from_yaml}
use nyasniproxy.Reload.{
  max_in_flight_fetches, InFlightFetches, Reply, Fetched, text, error, fetch_with_hard_timeout,
  Libraries, App, apply_hosts, prepare_source,
}
use nyasniproxy.Reload.Loop.{Future, run_reload_loop}
use nyasniproxy.Reload.Serves.{Serves, run_reload_loop-lookup}

-- The arguments, as `clap` parses them.
pub record Cli : Type 0 where
  pub config : Bytes
  pub listen : Option Ip
  pub hosts : Option Bytes
  pub no_hosts : Bool
  pub no_http : Bool
  pub refresh : Option ℕ

abbrev pub overrides : Cli → CliOverrides
overrides cli = record {
  listen = cli.listen;
  hosts = cli.hosts;
  no_hosts = cli.no_hosts;
  no_http = cli.no_http;
  refresh = cli.refresh;
}

-- What the start meets: the thread that fetches, the canonical paths, the two sockets, the file
-- system and what is on the disk.
pub record Boot : Type 0 where
  pub lib : Libraries
  pub parse_config_url : Bytes → Option Bytes
  pub spawned : Bool
  pub reply : Reply
  pub canonicalize : Bytes → Option Bytes
  pub binds_https : Bool
  pub binds_http : Bool
  pub fs : FileSystem
  pub disk : Disk

-- A program that runs: what the reload loop and the accept loops start with.
pub record Started : Type 0 where
  pub source : ConfigSource
  pub settings : StaticSettings
  pub http_listener : Bool
  pub app : App

-- `map_err(|err| anyhow!("{err}"))`.
fetched_text : Fetched → Result Bytes
fetched_text (text t) = ok t
fetched_text (error e) = err Error.config_fetch_failed

abbrev pub new_slots : InFlightFetches
new_slots = record { current = 0; max = max_in_flight_fetches }

-- Up to the binding of the sockets.
unfoldable pub prepare : Boot → Cli → Result Started
unfolding fetched_text
prepare b cli =
    let (fetched, slots) = fetch_with_hard_timeout new_slots b.spawned b.reply in
    do
      source ← parse_source b.parse_config_url cli.config
      t ← fetched_text fetched
      yaml ← parse_yaml b.lib.read_document t
      settings ← merge_settings yaml (overrides cli)
      runtime ← from_yaml b.lib.parse_url b.lib.finish yaml
      bail_if (not b.binds_https) Error.bind_failed
      bail_if (settings.http && not b.binds_http) Error.bind_failed
      ok (record {
        source = prepare_source b.canonicalize source;
        settings = settings;
        http_listener = settings.http;
        app = record {
          runtime = runtime;
          last_yaml = yaml;
          slots = slots;
          disk = b.disk;
          receivers = true;
        };
      })

-- `main` up to its loops, with the disk that it leaves.
unfoldable pub write_hosts : Boot → Result Started → Result Started × Disk
write_hosts b (err e) = (err e, b.disk)
write_hosts b (ok s) =
    let disk = apply_hosts b.lib s.settings b.fs s.app.runtime s.app.disk in
    (ok (record s { app = record s.app { disk = disk } }), disk)

unfoldable pub startup : Boot → Cli → Result Started × Disk
unfolding prepare write_hosts
startup b cli = write_hosts b (prepare b cli)
