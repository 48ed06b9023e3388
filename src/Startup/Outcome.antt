-- ===== src/Startup/Outcome.antt =====
-- src/main.rs: what a start establishes, and what it leaves behind when it fails.
use nyasniproxy.Base.{
  ok_same, passed, Bool, true, false, not, ◌&&◌, Bytes, Result, Error, ok, err, bail_if, ◌≡◌, refl,
  ap, bind-eq-ok, subst, is_empty,
}
use nyasniproxy.Hosts.{Disk}
use nyasniproxy.Config.{parse_source, CliOverrides, StaticSettings, FileConfig, merge_settings}
use nyasniproxy.Config.Parse.{parse_yaml, IsUsable, parse_yaml-IsUsable}
use nyasniproxy.Config.Merge.{Merges, IsMerged, merge_settings-Merges}
use nyasniproxy.Router.{lookup, from_yaml}
use nyasniproxy.Reload.{fetch_with_hard_timeout, apply_hosts}
use nyasniproxy.Reload.Loop.{Future, run_reload_loop}
use nyasniproxy.Reload.Serves.{Serves, run_reload_loop-lookup}
use nyasniproxy.Startup.{
  Cli, overrides, Boot, Started, fetched_text, new_slots, prepare, write_hosts, startup,
}

-- What a start has established.
pub record IsStarted (b : Boot) (cli : Cli) (s : Started) : Type 0 where
  pub serves : Serves b.lib s.app
  pub merged : IsMerged s.app.last_yaml (overrides cli) s.settings
  pub usable : IsUsable s.app.last_yaml
  pub bound : b.binds_https ≡ true
  pub listens : s.http_listener ≡ s.settings.http
  pub bound_http : s.http_listener ≡ true → b.binds_http ≡ true
  pub listening : s.app.receivers ≡ true
  pub slots_are : s.app.slots ≡ (fetch_with_hard_timeout new_slots b.spawned b.reply).1

not-false : (b : Bool) → not b ≡ false → b ≡ true
not-false true h = refl
not-false false h = cc

and_not : (a b : Bool) → (a && not b) ≡ false → a ≡ true → b ≡ true
and_not true true h e = refl
and_not true false h e = cc
and_not false b h e = cc

merges-ok :
    (yaml : FileConfig) (cli : CliOverrides) {s : StaticSettings}
    → merge_settings yaml cli ≡ ok s
    → IsMerged yaml cli s
merges-ok yaml cli e = subst (Merges yaml cli) e (merge_settings-Merges yaml cli)

prepare-IsStarted :
    (b : Boot) (cli : Cli) {s : Started}
    → prepare b cli ≡ ok s
    → IsStarted b cli s × (s.app.disk ≡ b.disk)
unfolding prepare
prepare-IsStarted b cli e =
    let (fetched, slots) = fetch_with_hard_timeout new_slots b.spawned b.reply in
    let (source, parsed, e1) = bind-eq-ok (parse_source b.parse_config_url cli.config) _ e in
    let (t, arrived, e2) = bind-eq-ok (fetched_text fetched) _ e1 in
    let (yaml, accepted, e3) = bind-eq-ok (parse_yaml b.lib.read_document t) _ e2 in
    let (settings, merged, e4) = bind-eq-ok (merge_settings yaml (overrides cli)) _ e3 in
    let (runtime, built, e5) = bind-eq-ok (from_yaml b.lib.parse_url b.lib.finish yaml) _ e4 in
    let (u, https, e6) = bind-eq-ok (bail_if (not b.binds_https) Error.bind_failed) _ e5 in
    let (v, http, e7) =
      bind-eq-ok (bail_if (settings.http && not b.binds_http) Error.bind_failed) _ e6 in
    subst (λ (s : Started). IsStarted b cli s × (s.app.disk ≡ b.disk)) (ok_same e7)
      (
        record {
          serves = record { config = yaml; source_text = t; accepted = accepted; served = built };
          merged = merges-ok yaml (overrides cli) merged;
          usable = parse_yaml-IsUsable b.lib.read_document t accepted;
          bound = not-false b.binds_https (passed _ Error.bind_failed https);
          listens = refl;
          bound_http = and_not settings.http b.binds_http (passed _ Error.bind_failed http);
          listening = refl;
          slots_are = refl;
        },
        refl,
      )

-- The outcome of the start, with what it leaves on the disk.
abbrev pub Starts : Boot → Cli → Result Started × Disk → Type 0
Starts b cli (ok s, d) =
    IsStarted b cli s
    × (d ≡ s.app.disk)
    × (d ≡ apply_hosts b.lib s.settings b.fs s.app.runtime b.disk)
Starts b cli (err e, d) = d ≡ b.disk

write_hosts-Starts :
    (b : Boot) (cli : Cli) (r : Result Started) → prepare b cli ≡ r → Starts b cli (write_hosts b r)
unfolding write_hosts
write_hosts-Starts b cli (err e) p = refl
write_hosts-Starts b cli (ok s) p =
    let (v, same) = prepare-IsStarted b cli p in
    (
      record {
        serves = record {
          config = v.serves.config;
          source_text = v.serves.source_text;
          accepted = v.serves.accepted;
          served = v.serves.served;
        };
        merged = v.merged;
        usable = v.usable;
        bound = v.bound;
        listens = v.listens;
        bound_http = v.bound_http;
        listening = v.listening;
        slots_are = v.slots_are;
      },
      refl,
      ap (apply_hosts b.lib s.settings b.fs s.app.runtime) same,
    )

-- A start that fails, at whatever step, leaves the disk as it was. One that succeeds has bound its
-- sockets, runs with settings merged from the command line and the configuration that it has
-- accepted, serves the runtime built from an accepted configuration, and has synchronised the
-- hosts file with it once.
pub startup-Starts : (b : Boot) (cli : Cli) → Starts b cli (startup b cli)
unfolding startup
startup-Starts b cli = write_hosts-Starts b cli (prepare b cli) refl

-- From a start that succeeds, through every run of the reload loop, every host has an upstream
-- proxy to try.
startup-lookup :
    (b : Boot) (cli : Cli) (f : Future) (host : Bytes) {s : Started} {d : Disk}
    → startup b cli ≡ (ok s, d)
    → is_empty (lookup (run_reload_loop b.lib s.settings f s.source s.app).runtime.router host)
      ≡ false
startup-lookup b cli f host {s} {d} e =
    let v : Starts b cli (ok s, d) = subst (Starts b cli) e (startup-Starts b cli) in
    run_reload_loop-lookup b.lib s.settings f s.source s.app host v.0.serves
