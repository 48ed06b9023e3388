-- ===== src/Reload.antt =====
-- src/reload.rs: the reloading of the configuration while the program runs.
pub mod Loop
pub mod Slots
pub mod Polls
pub mod Serves
pub mod Settings
pub mod Watch
pub mod Bounded
pub mod Fetcher
pub mod Current
use nyasniproxy.Base.{
  ltb, length, ℕ, ◌+◌, ◌-◌, Bool, true, false, not, List, [], ◌∷◌, Option, none, some, Bytes,
  Result, Error, ok, err, leb, ◌==◌, if◌then◌else◌, bytes_eq, any,
}
use nyasniproxy.Hosts.{Disk, FileSystem, sync_hosts}
use nyasniproxy.Proxy.{Url}
use nyasniproxy.Config.{
  Ip, ConfigSource, file, url, StaticSettings, FileConfig, canonicalize_source,
}
use nyasniproxy.Config.Parse.{Document, parse_yaml}
use nyasniproxy.Router.{Runtime, HashWrite, from_yaml}

abbrev pub max_in_flight_fetches : ℕ
max_in_flight_fetches = 2

pub data FetchError : Type 0 where
  timed_out thread_spawn thread_dropped : FetchError
  in_flight : ℕ → FetchError
  failed : Error → FetchError

pub record InFlightFetches : Type 0 where
  pub current : ℕ
  pub max : ℕ

-- `try_acquire` without interference, and the `drop` of the guard.
unfoldable pub try_acquire : InFlightFetches → Option InFlightFetches
try_acquire s = if leb s.max s.current then none else some (record s { current = s.current + 1 })

abbrev pub release : InFlightFetches → InFlightFetches
release s = record s { current = s.current - 1 }

-- What comes of the thread: the fetcher's result, the end of the thread without one, or nothing
-- before the hard timeout.
pub data Reply : Type 0 where
  replied : Result Bytes → Reply
  dropped late : Reply

pub data Fetched : Type 0 where
  text : Bytes → Fetched
  error : FetchError → Fetched

-- The thread holds the guard until it ends; a thread that is late still holds it.
unfoldable pub await_reply : Reply → InFlightFetches → Fetched × InFlightFetches
await_reply (replied (ok t)) s = (text t, release s)
await_reply (replied (err e)) s = (error (failed e), release s)
await_reply dropped s = (error thread_dropped, release s)
await_reply late s = (error timed_out, s)

after_acquire : InFlightFetches → Bool → Reply → Option InFlightFetches → Fetched × InFlightFetches
unfolding await_reply
after_acquire s spawned reply none = (error (in_flight s.current), s)
after_acquire s true reply (some held) = await_reply reply held
after_acquire s false reply (some held) = (error thread_spawn, release held)

unfoldable pub fetch_with_hard_timeout : InFlightFetches → Bool → Reply → Fetched × InFlightFetches
unfolding try_acquire after_acquire
fetch_with_hard_timeout s spawned reply = after_acquire s spawned reply (try_acquire s)

-- What one poll meets; `ended` late threads have ended since the poll before.
pub record Poll : Type 0 where
  pub ended : ℕ
  pub spawned : Bool
  pub reply : Reply
  pub fs : FileSystem

-- The state that the polls share; `receivers` is whether someone still listens to the channel of
-- the runtime.
pub record App : Type 0 where
  pub runtime : Runtime
  pub last_yaml : FileConfig
  pub slots : InFlightFetches
  pub disk : Disk
  pub receivers : Bool

-- The code outside of the repository: the YAML reader, `Url::parse`, the hash function, and
-- `Display` of an address.
pub record Libraries : Type 0 where
  pub read_document : Bytes → Result Document
  pub parse_url : Bytes → Option Url
  pub finish : List HashWrite → ℕ
  pub display_ip : Ip → Bytes

sync_at : Option Bytes → FileSystem → Bytes → List Bytes → Disk → Disk
sync_at none fs ip names d = d
sync_at (some path) fs ip names d = (sync_hosts fs ip names d).1

-- `apply_hosts`: the result of `sync_hosts` is only logged.
unfoldable pub apply_hosts : Libraries → StaticSettings → FileSystem → Runtime → Disk → Disk
unfolding sync_at
apply_hosts lib settings fs rt d =
    sync_at settings.hosts_path fs (lib.display_ip settings.listen) rt.hostnames d

-- What `reload_once` does with a new runtime.
unfoldable pub install : Libraries → StaticSettings → FileSystem → App → FileConfig → Runtime → App
install lib settings fs a yaml rt =
    let disk = apply_hosts lib settings fs rt a.disk in
    if a.runtime.fingerprint == rt.fingerprint
    then record a { disk = disk; last_yaml = yaml }
    else if a.receivers
    then record a { disk = disk; runtime = rt; last_yaml = yaml }
    else record a { disk = disk }

build_runtime : Libraries → StaticSettings → FileSystem → App → FileConfig → Result Runtime → App
unfolding install
build_runtime lib settings fs a yaml (err e) = a
build_runtime lib settings fs a yaml (ok rt) = install lib settings fs a yaml rt

read_config : Libraries → StaticSettings → FileSystem → App → Result FileConfig → App
unfolding build_runtime
read_config lib settings fs a (err e) = a
read_config lib settings fs a (ok yaml) =
    build_runtime lib settings fs a yaml (from_yaml lib.parse_url lib.finish yaml)

on_fetched : Libraries → StaticSettings → FileSystem → App → Fetched → App
unfolding read_config
on_fetched lib settings fs a (error e) = a
on_fetched lib settings fs a (text t) =
    read_config lib settings fs a (parse_yaml lib.read_document t)

unfoldable pub reload_once : Libraries → StaticSettings → Poll → App → App
unfolding on_fetched fetch_with_hard_timeout
reload_once lib settings p a =
    let (fetched, slots) = fetch_with_hard_timeout a.slots p.spawned p.reply in
    on_fetched lib settings p.fs (record a { slots = slots }) fetched

-- The guards of the late threads that have ended are dropped.
abbrev pub drop_guards : ℕ → App → App
drop_guards n a = record a { slots = record a.slots { current = a.slots.current - n } }

-- The loop of `poll_source`, over the polls that take place.
unfoldable pub poll_source : Libraries → StaticSettings → List Poll → App → App
unfolding reload_once
poll_source lib settings [] a = a
poll_source lib settings (p ∷ polls) a =
    poll_source lib settings polls (reload_once lib settings p (drop_guards p.ended a))

-- `prepare_source`.
unfoldable pub prepare_source : (Bytes → Option Bytes) → ConfigSource → ConfigSource
prepare_source canonicalize source = elim (canonicalize_source canonicalize source) [
  | ok s ↦ s
  | err e ↦ source
]
