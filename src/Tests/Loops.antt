-- ===== src/Tests/Loops.antt =====
-- src/reload.rs and the start of src/main.rs on a concrete configuration.
use nyasniproxy.Base.{
  ℕ, true, false, not, List, [], ◌∷◌, Option, none, some, Bytes, codes, ok, ◌≡◌, refl, arith,
  is_empty, All, length,
}
use nyasniproxy.Hosts.{written, FileSystem}
use nyasniproxy.Config.{v4, ConfigSource, url, file, StaticSettings}
use nyasniproxy.Config.Parse.{parse_yaml}
use nyasniproxy.Router.{lookup}
use nyasniproxy.Reload.{
  Reply, late, Poll, App, Libraries, fetch_with_hard_timeout, reload_once, poll_source,
}
use nyasniproxy.Reload.Loop.{
  modify, access, Arrivals, FileReload, applies, Future, start_watching, watch_loop,
}
use nyasniproxy.Reload.Slots.{loading, holding, run, Counts, run-Counts}
use nyasniproxy.Config.Fetch.{content}
use nyasniproxy.Reload.Fetcher.{
  Surroundings, default_fetcher, in_time, fetching, fetch_thread, LoadsWhole,
  reload_once-LoadsWhole,
}
use nyasniproxy.Reload.Polls.{Reloads, reload_once-Reloads}
use nyasniproxy.Reload.Settings.{Unwarned, poll_source-merge_settings}
use nyasniproxy.Reload.Watch.{ReloadedSince, Spaced, first_polls, watch_loop-start}
use nyasniproxy.Startup.{Cli, Boot, Started, startup}
use nyasniproxy.Config.{merge_settings, parse_source}
use nyasniproxy.Startup.{overrides}
use nyasniproxy.Startup.Outcome.{Starts, startup-Starts}
use nyasniproxy.Base.{Result, subst, sym, ◌∙◌}
use nyasniproxy.Config.{FileConfig}
use nyasniproxy.Reload.Current.{IsCurrent, Tells, reload_once-IsCurrent}
use nyasniproxy.Tests.Settings.{
  config-IsMap, document, config, parse_url, reordered, runtime, builds,
}

-- Three threads for one slot beside one that is taken.
run-Counts_example :
    Counts 2 0
      (run 2 (0 ∷ 1 ∷ 0 ∷ 1 ∷ 1 ∷ 2 ∷ []) (loading ∷ loading ∷ holding ∷ [], 1)).0
      (run 2 (0 ∷ 1 ∷ 0 ∷ 1 ∷ 1 ∷ 2 ∷ []) (loading ∷ loading ∷ holding ∷ [], 1)).1
run-Counts_example =
    run-Counts 2 (0 ∷ 1 ∷ 0 ∷ 1 ∷ 1 ∷ 2 ∷ []) (loading ∷ loading ∷ holding ∷ []) 1
      (record { counted = refl; bounded = omega arith; below = (tt, (tt, (tt, tt))) })

abbrev pub libraries : Libraries
libraries = record {
  read_document = λ text. ok document;
  parse_url = parse_url;
  finish = λ ws. 0;
  display_ip = λ ip. codes "127.0.0.2";
}

abbrev pub settings : StaticSettings
settings = record { listen = v4 127 0 0 2; http = true; hosts_path = none; refresh = 60 }

abbrev pub fs : FileSystem
fs = record {
  has_file_name = true;
  read_ok = true;
  write_temp = written;
  metadata_ok = true;
  set_permissions_ok = true;
  rename_ok = true;
  write_hosts = written;
  remove_ok = true;
}

accepts : parse_yaml libraries.read_document (codes "text") ≡ ok config
unfolding parse_yaml nyasniproxy.Config.Parse.visit_hosts nyasniproxy.Config.Parse.visit_proxy_ref
    nyasniproxy.Base.eq_ignore_ascii_case
accepts = refl

accepts_any : (t : Bytes) → parse_yaml libraries.read_document t ≡ ok config
unfolding parse_yaml nyasniproxy.Config.Parse.visit_hosts nyasniproxy.Config.Parse.visit_proxy_ref
    nyasniproxy.Base.eq_ignore_ascii_case
accepts_any t = refl

abbrev pub app : App
app = record {
  runtime = runtime;
  last_yaml = config;
  slots = record { current = 0; max = 2 };
  disk = record { hosts = none; temp = none };
  receivers = true;
}

abbrev pub good_poll : Poll
good_poll = record { ended = 0; spawned = true; reply = Reply.replied (ok (codes "text")); fs = fs }

abbrev pub late_poll : Poll
late_poll = record { ended = 0; spawned = true; reply = late; fs = fs }

reload_once-Reloads_example :
    let (fetched, slots) = fetch_with_hard_timeout app.slots good_poll.spawned good_poll.reply in
    Reloads libraries settings fs
      (record app { slots = slots })
      fetched
      (reload_once libraries settings good_poll app)
reload_once-Reloads_example = reload_once-Reloads libraries settings good_poll app

config_same :
    {yaml : FileConfig} → ◌≡◌ {A = Result FileConfig} (ok config) (ok yaml) → config ≡ yaml
config_same e = cc

told_apart : Tells libraries config config
told_apart = record { old_map = config-IsMap; new_map = config-IsMap; no_collision = λ e. refl }

reload_once-IsCurrent_example : IsCurrent libraries (reload_once libraries settings good_poll app)
reload_once-IsCurrent_example =
    reload_once-IsCurrent libraries settings good_poll app
      (λ t yaml fetched parsed.
        subst (Tells libraries config) (config_same (sym (accepts_any t) ∙ parsed)) told_apart)
      (record { built = runtime; builds = builds; same_print = refl; routes = λ host. refl })

abbrev pub arguments : Cli
arguments = record {
  config = codes "c";
  listen = none;
  hosts = none;
  no_hosts = false;
  no_http = false;
  refresh = none;
}

settings_merged :
    merge_settings reordered (overrides arguments) ≡ ok (record settings { refresh = 60 })
unfolding merge_settings
settings_merged = refl

-- The same rules, in another order.
abbrev before_polls : App
before_polls = record app { last_yaml = reordered }

-- Two polls that load the configuration, and one that comes to nothing.
abbrev three_polls : List Poll
three_polls = good_poll ∷ late_poll ∷ good_poll ∷ []

warns_of_nothing : Unwarned libraries settings three_polls before_polls
unfolding nyasniproxy.Config.Ignored.warn_ignored_runtime_changes reload_once parse_yaml
    nyasniproxy.Config.Parse.visit_hosts nyasniproxy.Config.Parse.visit_proxy_ref
    nyasniproxy.Base.eq_ignore_ascii_case nyasniproxy.Router.from_yaml nyasniproxy.Proxy.parse
    nyasniproxy.Proxy.kind_of_scheme nyasniproxy.Router.add_rule
    nyasniproxy.Target.is_valid_hostname nyasniproxy.Base.Text.split
    nyasniproxy.Target.is_valid_dns_label nyasniproxy.Base.is_ascii_alphanumeric
    nyasniproxy.Router.resolve nyasniproxy.Router.get nyasniproxy.Router.insert
    nyasniproxy.Router.routing_fingerprint
warns_of_nothing = (refl, (refl, (refl, tt)))

poll_source-merge_settings_example :
    merge_settings
      (poll_source libraries settings three_polls before_polls).last_yaml
      (overrides arguments)
    ≡ ok settings
poll_source-merge_settings_example =
    poll_source-merge_settings libraries (overrides arguments) settings three_polls before_polls
      settings_merged warns_of_nothing

-- A change of the file, another event at once, and a further change during the reload.
abbrev pub arrivals : Arrivals
arrivals =
    (10, some (record { kind = modify; file_names = some (codes "c") ∷ [] }))
    ∷ (11, none)
    ∷ (15, some (record { kind = access; file_names = some (codes "c") ∷ [] }))
    ∷ (230, some (record { kind = modify; file_names = some (codes "c") ∷ [] }))
    ∷ []

abbrev pub next : ℕ → FileReload
next n = record { poll = good_poll; took = 40 }

abbrev pub future : Future
future = record {
  watcher = true;
  watches = true;
  filename = some (codes "c");
  arrivals = arrivals;
  next = next;
  polls = late_poll ∷ [];
}

watch_loop-start_example :
    let w' = watch_loop libraries settings (some (codes "c")) next arrivals (start_watching app) in
    All
      (λ arrival. applies (some (codes "c")) arrival.1 ≡ true → ReloadedSince arrival.0 w'.started)
      arrivals
    × Spaced w'.started
    × (w'.app ≡ poll_source libraries settings (first_polls next (length w'.started)) app)
watch_loop-start_example = watch_loop-start libraries settings (some (codes "c")) next arrivals app

abbrev pub boot : Boot
boot = record {
  lib = libraries;
  parse_config_url = λ raw. none;
  spawned = true;
  reply = Reply.replied (ok (codes "text"));
  canonicalize = λ path. some path;
  binds_https = true;
  binds_http = true;
  fs = fs;
  disk = record { hosts = none; temp = none };
}

startup-Starts_example : Starts boot arguments (startup boot arguments)
startup-Starts_example = startup-Starts boot arguments

abbrev pub started : Started
started = record {
  source = ConfigSource.file (codes "c");
  settings = record settings { refresh = 60 };
  http_listener = true;
  app = record app { slots = record { current = 0; max = 2 } };
}

pub starts : startup boot arguments ≡ (ok started, boot.disk)
unfolding startup nyasniproxy.Config.parse_source nyasniproxy.Base.Text.strip_prefix
    fetch_with_hard_timeout parse_yaml nyasniproxy.Config.Parse.visit_hosts
    nyasniproxy.Config.Parse.visit_proxy_ref nyasniproxy.Base.eq_ignore_ascii_case
    nyasniproxy.Config.merge_settings nyasniproxy.Router.from_yaml nyasniproxy.Proxy.parse
    nyasniproxy.Proxy.kind_of_scheme nyasniproxy.Router.add_rule
    nyasniproxy.Target.is_valid_hostname nyasniproxy.Base.Text.split
    nyasniproxy.Target.is_valid_dns_label nyasniproxy.Base.is_ascii_alphanumeric
    nyasniproxy.Base.bytes_eq nyasniproxy.Reload.apply_hosts nyasniproxy.Reload.prepare_source
    nyasniproxy.Config.canonicalize_source nyasniproxy.Router.get nyasniproxy.Router.insert
    nyasniproxy.Router.insert_by nyasniproxy.Router.resolve nyasniproxy.Router.routing_fingerprint
    nyasniproxy.Router.sort_by_key
starts = refl

-- The source answers with a file of four bytes.
abbrev answers : Surroundings
answers = record {
  builds_runtime = true;
  builds_client = true;
  world = record { files = λ p. content (codes "text"); urls = λ u. none };
}

reload_once-LoadsWhole_example :
    let p = fetching (default_fetcher answers) (file (codes "/c")) in_time true 0 fs in
    let (fetched, slots) = fetch_with_hard_timeout app.slots p.spawned p.reply in
    LoadsWhole libraries settings fs answers.world
      (file (codes "/c"))
      (record app { slots = slots })
      (reload_once libraries settings p app)
reload_once-LoadsWhole_example =
    reload_once-LoadsWhole libraries settings answers (file (codes "/c")) in_time true 0 fs app

-- That file is what the poll loads.
loads_text :
    fetch_thread (default_fetcher answers) (file (codes "/c")) in_time
    ≡ Reply.replied (ok (codes "text"))
unfolding fetch_thread nyasniproxy.Reload.Fetcher.default_fetch
    nyasniproxy.Config.Fetch.fetch_config nyasniproxy.Config.Fetch.fetch_config_limited
    nyasniproxy.Config.Fetch.read_file_limited nyasniproxy.Base.Utf8.is_utf8
loads_text = refl
