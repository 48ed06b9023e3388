-- ===== src/Reload/Settings.antt =====
-- src/reload.rs: the settings of a running program beside those of its last configuration.
use nyasniproxy.Base.{List, [], ◌∷◌, ok, ◌≡◌, sym, ◌∙◌}
use nyasniproxy.Config.{CliOverrides, StaticSettings, merge_settings}
use nyasniproxy.Config.Ignored.{
  warn_ignored_runtime_changes, warn_ignored_runtime_changes-merge_settings,
}
use nyasniproxy.Reload.{Poll, App, Libraries, drop_guards, reload_once, poll_source}

-- No poll of the series exchanges the last configuration for one against which it warns.
abbrev pub Unwarned : Libraries → StaticSettings → List Poll → App → Type 0
Unwarned lib settings [] a = Unit
Unwarned lib settings (p ∷ polls) a =
    (warn_ignored_runtime_changes a.last_yaml
        (reload_once lib settings p (drop_guards p.ended a)).last_yaml
      ≡ [])
    × Unwarned lib settings polls (reload_once lib settings p (drop_guards p.ended a))

-- The settings of a program that merged its last configuration with the command line to them are,
-- after any series of polls none of which exchanges the last configuration for one against which
-- it warns, still those to which the then last configuration merges with the same command line.
pub poll_source-merge_settings :
    (lib : Libraries) (cli : CliOverrides) (settings : StaticSettings) (polls : List Poll) (a : App)
    → merge_settings a.last_yaml cli ≡ ok settings
    → Unwarned lib settings polls a
    → merge_settings (poll_source lib settings polls a).last_yaml cli ≡ ok settings
unfolding poll_source
poll_source-merge_settings lib cli settings [] a h quiet = h
poll_source-merge_settings lib cli settings (p ∷ polls) a h quiet =
    let a' = reload_once lib settings p (drop_guards p.ended a) in
    poll_source-merge_settings lib cli settings polls a'
      (sym (warn_ignored_runtime_changes-merge_settings a.last_yaml a'.last_yaml cli quiet.0) ∙ h)
      quiet.1
