-- ===== src/Reload/Loop.antt =====
-- src/reload.rs: the loop that reloads the configuration, by watching the file or by polling.
use nyasniproxy.Base.{
  ltb, length, ℕ, ◌+◌, Bool, true, false, not, List, [], ◌∷◌, Option, none, some, Bytes, leb,
  if◌then◌else◌, bytes_eq, any,
}
use nyasniproxy.Config.{ConfigSource, file, url, StaticSettings}
use nyasniproxy.Reload.{Poll, App, Libraries, reload_once, drop_guards, poll_source}

-- A file event: its kind, and the file names of its paths, `none` for a path without one.
pub data EventKind : Type 0 where
  create modify remove any_kind access other : EventKind

pub record Event : Type 0 where
  pub kind : EventKind
  pub file_names : List (Option Bytes)

abbrev pub watched : EventKind → Bool
watched access = false
watched other = false
watched _ = true

abbrev pub names_file : Bytes → Option Bytes → Bool
names_file filename none = false
names_file filename (some n) = bytes_eq n filename

unfoldable pub event_applies : Event → Option Bytes → Bool
event_applies e none = watched e.kind
event_applies e (some filename) =
    if watched e.kind then any (names_file filename) e.file_names else false

-- The events of the watcher: the time, in milliseconds, at which each comes, `none` for an error.
abbrev pub Arrivals : Type 0
Arrivals = List (ℕ × Option Event)

-- One reload of the file: what it meets, and the milliseconds that it takes.
pub record FileReload : Type 0 where
  pub poll : Poll
  pub took : ℕ

abbrev pub applies : Option Bytes → Option Event → Bool
applies filename none = false
applies filename (some e) = event_applies e filename

abbrev pub later_of : ℕ → ℕ → ℕ
later_of a b = if ltb a b then b else a

-- The state of the loop of `watch_file`: the events up to `drained` are taken off the channel by
-- `try_recv`; the loop is back at `recv` at `free`; the reloads so far, by the time of their start.
pub record Watching : Type 0 where
  pub drained : Option ℕ
  pub free : ℕ
  pub started : List ℕ
  pub app : App

-- Whether an event that comes at `t` is among those that the last drain has taken.
abbrev pub is_drained : Option ℕ → ℕ → Bool
is_drained none t = false
is_drained (some d) t = leb t d

-- An event that applies: after 200 ms the channel is drained, and the file is reloaded.
unfoldable pub reload_after : Libraries → StaticSettings → FileReload → ℕ → Watching → Watching
unfolding reload_once
reload_after lib settings r t w =
    let start = later_of t w.free + 200 in
    record {
      drained = some start;
      free = start + r.took;
      started = start ∷ w.started;
      app = reload_once lib settings r.poll (drop_guards r.poll.ended w.app);
    }

-- `next n` is what the `n`-th reload meets.
unfoldable pub on_event :
    Libraries
    → StaticSettings
    → Option Bytes
    → (ℕ → FileReload)
    → ℕ
    → Option Event
    → Watching
    → Watching
unfolding reload_after
on_event lib settings filename next t e w =
    if is_drained w.drained t
    then w
    else if applies filename e
    then reload_after lib settings (next (length w.started)) t w
    else w

-- The loop of `watch_file`, over the events in the order in which they come.
unfoldable pub watch_loop :
    Libraries → StaticSettings → Option Bytes → (ℕ → FileReload) → Arrivals → Watching → Watching
unfolding on_event
watch_loop lib settings filename next [] w = w
watch_loop lib settings filename next ((t, e) ∷ arrivals) w =
    watch_loop lib settings filename next arrivals (on_event lib settings filename next t e w)

-- What `run_reload_loop` meets: whether the watcher can be made and can watch the directory, the
-- name of the file, the events and the reloads that they lead to, and the polls of a source that
-- is polled.
pub record Future : Type 0 where
  pub watcher : Bool
  pub watches : Bool
  pub filename : Option Bytes
  pub arrivals : Arrivals
  pub next : ℕ → FileReload
  pub polls : List Poll

abbrev pub start_watching : App → Watching
start_watching a = record { drained = none; free = 0; started = []; app = a }

unfoldable pub watch_file : Libraries → StaticSettings → Future → App → App
unfolding poll_source watch_loop
watch_file lib settings f a =
    if not f.watcher
    then poll_source lib settings f.polls a
    else if not f.watches
    then poll_source lib settings f.polls a
    else (watch_loop lib settings f.filename f.next f.arrivals (start_watching a)).app

unfoldable pub run_reload_loop : Libraries → StaticSettings → Future → ConfigSource → App → App
unfolding watch_file poll_source
run_reload_loop lib settings f (file path) a = watch_file lib settings f a
run_reload_loop lib settings f (url u) a = poll_source lib settings f.polls a
