-- ===== src/Reload/Bounded.antt =====
-- src/reload.rs: the fetches in flight stay within their limit.
use nyasniproxy.Base.{
  ◌+◌, ◌<◌, ◌≤◌, Bool, true, false, some, ok, err, ◌≡◌, refl, sym, subst, arith, leb, inl, inr,
  Result-cases, if-elim, ◌==◌, Bool-cases,
}
use nyasniproxy.Config.{StaticSettings, FileConfig}
use nyasniproxy.Config.Parse.{parse_yaml}
use nyasniproxy.Hosts.{FileSystem}
use nyasniproxy.Router.{Runtime, from_yaml}
use nyasniproxy.Reload.{
  max_in_flight_fetches, InFlightFetches, try_acquire, Reply, replied, dropped, late, Fetched, text,
  error, await_reply, after_acquire, fetch_with_hard_timeout, Libraries, App, Poll, install,
  build_runtime, read_config, on_fetched, reload_once, drop_guards,
}

-- The fetches in flight are within their limit.
abbrev pub IsWithin : InFlightFetches → Type 0
IsWithin s = (s.max ≡ max_in_flight_fetches) × (s.current ≤ max_in_flight_fetches)

await_reply-IsWithin :
    (reply : Reply) (held : InFlightFetches) → IsWithin held → IsWithin (await_reply reply held).1
unfolding await_reply
await_reply-IsWithin (replied (ok t)) held h = (h.0, omega (arith, h.1))
await_reply-IsWithin (replied (err e)) held h = (h.0, omega (arith, h.1))
await_reply-IsWithin dropped held h = (h.0, omega (arith, h.1))
await_reply-IsWithin late held h = h

acquired-IsWithin :
    (s : InFlightFetches) (spawned : Bool) (reply : Reply)
    → IsWithin s
    → s.current < max_in_flight_fetches
    → IsWithin (after_acquire s spawned reply (some (record s { current = s.current + 1 }))).1
unfolding after_acquire
acquired-IsWithin s true reply h room =
    await_reply-IsWithin reply (record s { current = s.current + 1 }) (h.0, omega (arith, room))
acquired-IsWithin s false reply h room = (h.0, omega (arith, room))

pub fetch_with_hard_timeout-IsWithin :
    (s : InFlightFetches) (spawned : Bool) (reply : Reply)
    → IsWithin s
    → IsWithin (fetch_with_hard_timeout s spawned reply).1
unfolding fetch_with_hard_timeout try_acquire
fetch_with_hard_timeout-IsWithin s spawned reply h = elim (Bool-cases (leb s.max s.current)) [
  | inl full ↦ rw (full, after_acquire) h
  | inr room ↦ rw room (acquired-IsWithin s spawned reply h (ground (arith, room, h)))
]

install-slots :
    (lib : Libraries) (settings : StaticSettings) (fs : FileSystem) (a : App) (yaml : FileConfig)
    (rt : Runtime)
    → (install lib settings fs a yaml rt).slots ≡ a.slots
unfolding install
install-slots lib settings fs a yaml rt =
    if-elim (λ (b : App). b.slots ≡ a.slots) (a.runtime.fingerprint == rt.fingerprint) _ _
      (λ _. refl)
      (λ _. if-elim (λ (b : App). b.slots ≡ a.slots) a.receivers _ _ (λ _. refl) (λ _. refl))

on_fetched-slots :
    (lib : Libraries) (settings : StaticSettings) (fs : FileSystem) (a : App) (f : Fetched)
    → (on_fetched lib settings fs a f).slots ≡ a.slots
unfolding on_fetched read_config build_runtime
on_fetched-slots lib settings fs a (error e) = refl
on_fetched-slots lib settings fs a (text t) = elim (Result-cases (parse_yaml lib.read_document t)) [
  | inr (e, bad) ↦ rw bad refl
  | inl (yaml, good) ↦ rw good (elim (Result-cases (from_yaml lib.parse_url lib.finish yaml)) [
    | inr (e, bad) ↦ rw bad refl
    | inl (rt, built) ↦ rw built (install-slots lib settings fs a yaml rt)
  ])
]

reload_once-slots :
    (lib : Libraries) (settings : StaticSettings) (p : Poll) (a : App)
    → (reload_once lib settings p a).slots ≡ (fetch_with_hard_timeout a.slots p.spawned p.reply).1
unfolding reload_once
reload_once-slots lib settings p a = on_fetched-slots lib settings p.fs _ _

pub reload_once-IsWithin :
    (lib : Libraries) (settings : StaticSettings) (p : Poll) (a : App)
    → IsWithin a.slots
    → IsWithin (reload_once lib settings p (drop_guards p.ended a)).slots
reload_once-IsWithin lib settings p a h =
    let dropped = drop_guards p.ended a in
    let less : IsWithin dropped.slots = (h.0, omega (arith, h.1)) in
    subst IsWithin (sym (reload_once-slots lib settings p dropped))
      (fetch_with_hard_timeout-IsWithin dropped.slots p.spawned p.reply less)
