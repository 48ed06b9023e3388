-- ===== src/Reload/Serves.antt =====
-- src/reload.rs: what the program serves, whatever the polls meet.
use nyasniproxy.Base.{
  ℕ, false, not, List, [], ◌∷◌, Option, Bytes, ok, ◌≡◌, ◌≢◌, refl, sym, ap, ◌∙◌, inl, inr, ◌==◌,
  ==_iff, Bool-cases, if-elim, is_empty,
}
use nyasniproxy.Config.{StaticSettings, FileConfig, ConfigSource, file, url}
use nyasniproxy.Config.Parse.{parse_yaml, parse_yaml-IsUsable}
use nyasniproxy.Hosts.{FileSystem}
use nyasniproxy.Router.{lookup, from_yaml}
use nyasniproxy.Router.Nonempty.{from_yaml-NamesHops}
use nyasniproxy.Reload.{
  Fetched, text, error, Poll, App, Libraries, drop_guards, fetch_with_hard_timeout, reload_once,
  poll_source,
}
use nyasniproxy.Reload.Loop.{
  FileReload, Watching, Event, on_event, reload_after, watch_loop, Arrivals, Future, start_watching,
  is_drained, applies, watch_file, run_reload_loop,
}
use nyasniproxy.Reload.Polls.{Installs, Reloads, reload_once-Reloads}

-- The program serves a runtime that an accepted configuration builds.
pub record Serves (lib : Libraries) (a : App) : Type 0 where
  pub config : FileConfig
  pub source_text : Bytes
  pub accepted : parse_yaml lib.read_document source_text ≡ ok config
  pub served : from_yaml lib.parse_url lib.finish config ≡ ok a.runtime

same_runtime :
    (lib : Libraries) (a a' : App) → Serves lib a → a'.runtime ≡ a.runtime → Serves lib a'
same_runtime lib a a' s e = record {
  config = s.config;
  source_text = s.source_text;
  accepted = s.accepted;
  served = s.served ∙ ap ok (sym e);
}

Installs-Serves :
    (lib : Libraries) (settings : StaticSettings) (fs : FileSystem) (a : App) (t : Bytes) (a' : App)
    → Serves lib a
    → Installs lib settings fs a t a'
    → Serves lib a'
Installs-Serves lib settings fs a t a' s i =
    elim (Bool-cases (a.runtime.fingerprint == i.built.fingerprint)) [
      | inl same ↦ same_runtime lib a a' s (i.unchanged ((==_iff _ _).0 same)).0
      | inr differs ↦
          let ne : a.runtime.fingerprint ≢ i.built.fingerprint =
            λ e. cc ((==_iff a.runtime.fingerprint i.built.fingerprint).1 e, differs) in
          elim (Bool-cases a.receivers) [
            | inl heard ↦ record {
              config = i.yaml;
              source_text = t;
              accepted = i.accepted;
              served = i.builds ∙ ap ok (sym (i.replaced ne heard).0);
            }
            | inr deaf ↦ same_runtime lib a a' s (i.unheard ne deaf).0
          ]
    ]

Reloads-Serves :
    (lib : Libraries) (settings : StaticSettings) (fs : FileSystem) (a : App) (f : Fetched)
    (a' : App)
    → Serves lib a
    → Reloads lib settings fs a f a'
    → Serves lib a'
Reloads-Serves lib settings fs a (error e) a' s k = same_runtime lib a a' s k.runtime_kept
Reloads-Serves lib settings fs a (text t) a' s (inl (k, why)) =
    same_runtime lib a a' s k.runtime_kept
Reloads-Serves lib settings fs a (text t) a' s (inr i) = Installs-Serves lib settings fs a t a' s i

pub reload_once-Serves :
    (lib : Libraries) (settings : StaticSettings) (p : Poll) (a : App)
    → Serves lib a
    → Serves lib (reload_once lib settings p (drop_guards p.ended a))
reload_once-Serves lib settings p a s =
    let b = drop_guards p.ended a in
    let (fetched, slots) = fetch_with_hard_timeout b.slots p.spawned p.reply in
    let c : App = record b { slots = slots } in
    Reloads-Serves lib settings p.fs c fetched (reload_once lib settings p b)
      (same_runtime lib a c s refl) (reload_once-Reloads lib settings p b)

poll_source-Serves :
    (lib : Libraries) (settings : StaticSettings) (polls : List Poll) (a : App)
    → Serves lib a
    → Serves lib (poll_source lib settings polls a)
unfolding poll_source
poll_source-Serves lib settings [] a s = s
poll_source-Serves lib settings (p ∷ polls) a s =
    poll_source-Serves lib settings polls (reload_once lib settings p (drop_guards p.ended a))
      (reload_once-Serves lib settings p a s)

on_event-Serves :
    (lib : Libraries) (settings : StaticSettings) (filename : Option Bytes) (next : ℕ → FileReload)
    (t : ℕ) (e : Option Event) (w : Watching)
    → Serves lib w.app
    → Serves lib (on_event lib settings filename next t e w).app
unfolding on_event reload_after
on_event-Serves lib settings filename next t e w s =
    if-elim (λ (v : Watching). Serves lib v.app) (is_drained w.drained t) _ _ (λ _. s)
      (λ _.
        if-elim (λ (v : Watching). Serves lib v.app) (applies filename e) _ _
          (λ _. reload_once-Serves lib settings _ w.app s) (λ _. s))

watch_loop-Serves :
    (lib : Libraries) (settings : StaticSettings) (filename : Option Bytes) (next : ℕ → FileReload)
    (arrivals : Arrivals) (w : Watching)
    → Serves lib w.app
    → Serves lib (watch_loop lib settings filename next arrivals w).app
unfolding watch_loop
watch_loop-Serves lib settings filename next [] w s = s
watch_loop-Serves lib settings filename next ((t, e) ∷ arrivals) w s =
    watch_loop-Serves lib settings filename next arrivals _
      (on_event-Serves lib settings filename next t e w s)

watch_file-Serves :
    (lib : Libraries) (settings : StaticSettings) (f : Future) (a : App)
    → Serves lib a
    → Serves lib (watch_file lib settings f a)
unfolding watch_file
watch_file-Serves lib settings f a s =
    if-elim (Serves lib) (not f.watcher) _ _ (λ _. poll_source-Serves lib settings f.polls a s)
      (λ _.
        if-elim (Serves lib) (not f.watches) _ _ (λ _. poll_source-Serves lib settings f.polls a s)
          (λ _. watch_loop-Serves lib settings f.filename f.next f.arrivals (start_watching a) s))

-- After any run of the reload loop, by polling or by watching the file, with whatever failures and
-- events, the runtime that the program serves is one that `from_yaml` built from a configuration
-- that `parse_yaml` accepted, if it was so at the start.
pub run_reload_loop-Serves :
    (lib : Libraries) (settings : StaticSettings) (f : Future) (source : ConfigSource) (a : App)
    → Serves lib a
    → Serves lib (run_reload_loop lib settings f source a)
unfolding run_reload_loop
run_reload_loop-Serves lib settings f (file p) a s = watch_file-Serves lib settings f a s
run_reload_loop-Serves lib settings f (url u) a s = poll_source-Serves lib settings f.polls a s

-- A program that serves an accepted configuration has an upstream proxy to try for every host.
pub Serves-lookup :
    (lib : Libraries) (a : App) (host : Bytes)
    → Serves lib a
    → is_empty (lookup a.runtime.router host) ≡ false
Serves-lookup lib a host v =
    from_yaml-NamesHops lib.parse_url lib.finish v.config host
      (parse_yaml-IsUsable lib.read_document v.source_text v.accepted) v.served

-- In every state that the reload loop reaches, every host has an upstream proxy to try.
pub run_reload_loop-lookup :
    (lib : Libraries) (settings : StaticSettings) (f : Future) (source : ConfigSource) (a : App)
    (host : Bytes)
    → Serves lib a
    → is_empty (lookup (run_reload_loop lib settings f source a).runtime.router host) ≡ false
run_reload_loop-lookup lib settings f source a host s =
    Serves-lookup lib (run_reload_loop lib settings f source a) host
      (run_reload_loop-Serves lib settings f source a s)
