-- ===== src/Reload/Fetcher.antt =====
-- src/reload.rs: `BlockingFetch` and `DefaultFetcher`, and what a reload loads through them.
use nyasniproxy.Base.{
  ℕ, Bool, true, false, not, Option, none, some, Bytes, Result, Error, ok, err, ◌>>◌, bail_if, ◌≡◌,
  ◌⊎◌, refl, inl, inr, arith, bind-eq-ok,
}
use nyasniproxy.Hosts.{FileSystem}
use nyasniproxy.Config.{ConfigSource, StaticSettings, max_config_bytes}
use nyasniproxy.Config.Fetch.{World, fetch_config, body_of, IsWhole, fetch_config_limited-IsWhole}
use nyasniproxy.Reload.{
  InFlightFetches, try_acquire, Reply, replied, dropped, late, Fetched, text, error, await_reply,
  after_acquire, fetch_with_hard_timeout, Libraries, App, Poll, reload_once,
}
use nyasniproxy.Reload.Polls.{Keeps, Installs, Reloads, reload_once-Reloads}

pub record BlockingFetch : Type 0 where
  pub fetch : ConfigSource → Result Bytes

-- What a fetch meets: whether the runtime and the HTTP client can be built, and the sources.
pub record Surroundings : Type 0 where
  pub builds_runtime : Bool
  pub builds_client : Bool
  pub world : World

-- `DefaultFetcher`.
unfoldable pub default_fetch : Surroundings → ConfigSource → Result Bytes
default_fetch m source = do
  bail_if (not m.builds_runtime) Error.build_runtime_failed
  bail_if (not m.builds_client) Error.build_client_failed
  fetch_config m.world source

abbrev pub default_fetcher : Surroundings → BlockingFetch
default_fetcher m = record { fetch = default_fetch m }

-- How the thread ends: before the hard timeout, by a panic, or too late.
pub data Ending : Type 0 where
  in_time panics too_late : Ending

-- The thread's message on the channel.
unfoldable pub fetch_thread : BlockingFetch → ConfigSource → Ending → Reply
fetch_thread f source in_time = replied (f.fetch source)
fetch_thread f source panics = dropped
fetch_thread f source too_late = late

-- A poll of a source by a fetcher.
abbrev pub fetching : BlockingFetch → ConfigSource → Ending → Bool → ℕ → FileSystem → Poll
fetching f source ending spawned ended fs = record {
  ended = ended;
  spawned = spawned;
  reply = fetch_thread f source ending;
  fs = fs;
}

await_reply-text :
    (reply : Reply) (s : InFlightFetches) {t : Bytes}
    → (await_reply reply s).0 ≡ text t
    → reply ≡ replied (ok t)
unfolding await_reply
await_reply-text (replied (ok u)) s e = cc
await_reply-text (replied (err x)) s e = cc
await_reply-text dropped s e = cc
await_reply-text late s e = cc

after_acquire-text :
    (s : InFlightFetches) (spawned : Bool) (reply : Reply) (held : Option InFlightFetches)
    {t : Bytes}
    → (after_acquire s spawned reply held).0 ≡ text t
    → reply ≡ replied (ok t)
unfolding after_acquire
after_acquire-text s spawned reply none e = cc
after_acquire-text s true reply (some held) e = await_reply-text reply held e
after_acquire-text s false reply (some held) e = cc

fetch_thread-text :
    (f : BlockingFetch) (source : ConfigSource) (ending : Ending) {t : Bytes}
    → fetch_thread f source ending ≡ replied (ok t)
    → f.fetch source ≡ ok t
unfolding fetch_thread
fetch_thread-text f source in_time e = cc
fetch_thread-text f source panics e = cc
fetch_thread-text f source too_late e = cc

default_fetch-IsWhole :
    (m : Surroundings) (source : ConfigSource) {t : Bytes}
    → default_fetch m source ≡ ok t
    → IsWhole (body_of m.world source) max_config_bytes t
unfolding default_fetch fetch_config
default_fetch-IsWhole m source e =
    let (u, built, e1) =
      bind-eq-ok (bail_if (not m.builds_runtime) Error.build_runtime_failed) _ e in
    let (v, client, e2) =
      bind-eq-ok (bail_if (not m.builds_client) Error.build_client_failed) _ e1 in
    fetch_config_limited-IsWhole m.world source max_config_bytes (omega arith) e2

-- What a reload of a source has come to.
abbrev pub LoadsWhole :
    Libraries → StaticSettings → FileSystem → World → ConfigSource → App → App → Type 0
LoadsWhole lib settings fs w source a a' =
    Keeps a a'
    ⊎ ((t : Bytes) × IsWhole (body_of w source) max_config_bytes t
        × Installs lib settings fs a t a')

whole_text :
    (lib : Libraries) (settings : StaticSettings) (fs : FileSystem) (w : World)
    (source : ConfigSource) (a a' : App) (f : Fetched)
    → ((t : Bytes) → f ≡ text t → IsWhole (body_of w source) max_config_bytes t)
    → Reloads lib settings fs a f a'
    → LoadsWhole lib settings fs w source a a'
whole_text lib settings fs w source a a' (error x) whole r = inl r
whole_text lib settings fs w source a a' (text t) whole (inl (k, why)) = inl k
whole_text lib settings fs w source a a' (text t) whole (inr i) = inr (t, whole t refl, i)

-- A reload by the program's own fetcher either keeps what the program serves and writes, or installs
-- a configuration whose text is all that the source holds, never a part of it, in UTF-8 and within
-- 1 MiB; whatever the source answers, whether or not the thread starts, and however it ends.
pub reload_once-LoadsWhole :
    (lib : Libraries) (settings : StaticSettings) (m : Surroundings) (source : ConfigSource)
    (ending : Ending) (spawned : Bool) (ended : ℕ) (fs : FileSystem) (a : App)
    → let p = fetching (default_fetcher m) source ending spawned ended fs in
      let (fetched, slots) = fetch_with_hard_timeout a.slots p.spawned p.reply in
      LoadsWhole lib settings fs m.world source
        (record a { slots = slots })
        (reload_once lib settings p a)
unfolding fetch_with_hard_timeout
reload_once-LoadsWhole lib settings m source ending spawned ended fs a =
    let p = fetching (default_fetcher m) source ending spawned ended fs in
    let (fetched, slots) = fetch_with_hard_timeout a.slots p.spawned p.reply in
    whole_text lib settings fs m.world source (record a { slots = slots })
      (reload_once lib settings p a) fetched
      (λ t arrived. default_fetch-IsWhole m source (
        fetch_thread-text (default_fetcher m) source ending
          (after_acquire-text a.slots p.spawned p.reply (try_acquire a.slots) arrived)))
      (reload_once-Reloads lib settings p a)
