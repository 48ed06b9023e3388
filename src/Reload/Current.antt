-- ===== src/Reload/Current.antt =====
-- src/reload.rs: a poll leaves the program routing as its last configuration says.
use nyasniproxy.Base.{Bytes, ok, ◌≡◌, ◌≢◌, refl, sym, ap, ◌∙◌, inl, inr, ◌==◌, ==_iff, Bool-cases}
use nyasniproxy.Hosts.{FileSystem}
use nyasniproxy.Config.{StaticSettings, FileConfig}
use nyasniproxy.Config.Parse.{parse_yaml}
use nyasniproxy.Router.{Runtime, lookup, from_yaml}
use nyasniproxy.Router.Writes.{IsMap, routing_writes}
use nyasniproxy.Router.Fingerprint.{from_yaml-fingerprint}
use nyasniproxy.Reload.{
  Fetched, text, error, Poll, App, Libraries, fetch_with_hard_timeout, reload_once,
}
use nyasniproxy.Reload.Polls.{Keeps, Installs, Reloads, reload_once-Reloads}

-- The runtime that is served routes every host as one built from the last configuration does.
pub record IsCurrent (lib : Libraries) (a : App) : Type 0 where
  pub built : Runtime
  pub builds : from_yaml lib.parse_url lib.finish a.last_yaml ≡ ok built
  pub same_print : a.runtime.fingerprint ≡ built.fingerprint
  pub routes : (host : Bytes) → lookup a.runtime.router host ≡ lookup built.router host

-- A new configuration that the fingerprint tells from the last one: its keys are distinct, those
-- of the rules in any case, and the hash does not take the one's routing for the other's.
pub record Tells (lib : Libraries) (y z : FileConfig) : Type 0 where
  pub old_map : IsMap y
  pub new_map : IsMap z
  pub no_collision :
      lib.finish (routing_writes y) ≡ lib.finish (routing_writes z)
      → routing_writes y ≡ routing_writes z

module _ (lib : Libraries) (settings : StaticSettings) (fs : FileSystem) (a : App) where
  Keeps-IsCurrent : (a' : App) → Keeps a a' → IsCurrent lib a → IsCurrent lib a'
  Keeps-IsCurrent a' k c = record {
    built = c.built;
    builds = ap (from_yaml lib.parse_url lib.finish) k.yaml_kept ∙ c.builds;
    same_print = ap Runtime.fingerprint k.runtime_kept ∙ c.same_print;
    routes = λ host. ap (λ rt. lookup (Runtime.router rt) host) k.runtime_kept ∙ c.routes host;
  }

  served :
      (a' : App) (rt rt' : Runtime) (yaml : FileConfig)
      → from_yaml lib.parse_url lib.finish yaml ≡ ok rt'
      → a'.runtime ≡ rt
      → a'.last_yaml ≡ yaml
      → rt.fingerprint ≡ rt'.fingerprint
      → ((host : Bytes) → lookup rt.router host ≡ lookup rt'.router host)
      → IsCurrent lib a'
  served a' rt rt' yaml builds is_rt is_yaml print same = record {
    built = rt';
    builds = ap (from_yaml lib.parse_url lib.finish) is_yaml ∙ builds;
    same_print = ap Runtime.fingerprint is_rt ∙ print;
    routes = λ host. ap (λ r. lookup (Runtime.router r) host) is_rt ∙ same host;
  }

  Installs-IsCurrent :
      (t : Bytes) (a' : App)
      → (i : Installs lib settings fs a t a') → Tells lib a.last_yaml i.yaml
      → IsCurrent lib a
      → IsCurrent lib a'
  Installs-IsCurrent t a' i w c = elim (Bool-cases (a.runtime.fingerprint == i.built.fingerprint)) [
    | inl same ↦
        let print = (==_iff _ _).0 same in
        let (kept, next) = i.unchanged print in
        served a' a.runtime i.built i.yaml i.builds kept next print (λ host.
          c.routes host
          ∙ from_yaml-fingerprint lib.parse_url lib.finish a.last_yaml i.yaml host w.old_map
              w.new_map w.no_collision c.builds i.builds (sym c.same_print ∙ print))
    | inr differs ↦
        let ne : a.runtime.fingerprint ≢ i.built.fingerprint =
          λ e. cc ((==_iff a.runtime.fingerprint i.built.fingerprint).1 e, differs) in
        elim (Bool-cases a.receivers) [
          | inl heard ↦
              let (sent, next) = i.replaced ne heard in
              served a' i.built i.built i.yaml i.builds sent next refl (λ host. refl)
          | inr deaf ↦
              let (kept, last) = i.unheard ne deaf in
              served a' a.runtime c.built a.last_yaml c.builds kept last c.same_print c.routes
        ]
  ]

  Reloads-IsCurrent :
      (f : Fetched) (a' : App)
      → ((t : Bytes) (yaml : FileConfig)
          → f ≡ text t
          → parse_yaml lib.read_document t ≡ ok yaml
          → Tells lib a.last_yaml yaml)
      → Reloads lib settings fs a f a'
      → IsCurrent lib a
      → IsCurrent lib a'
  Reloads-IsCurrent (error e) a' tells k c = Keeps-IsCurrent a' k c
  Reloads-IsCurrent (text t) a' tells (inl (k, why)) c = Keeps-IsCurrent a' k c
  Reloads-IsCurrent (text t) a' tells (inr i) c =
      Installs-IsCurrent t a' i (tells t i.yaml refl i.accepted) c

-- Every poll, whatever comes of it, leaves the program routing every host as a runtime built from
-- the last configuration does, also when the fingerprint is the old one and the runtime is not
-- replaced; if it was so before and if the fingerprint tells the configuration that the poll
-- fetches from the last one.
pub reload_once-IsCurrent :
    (lib : Libraries) (settings : StaticSettings) (p : Poll) (a : App)
    → ((t : Bytes) (yaml : FileConfig)
        → (fetch_with_hard_timeout a.slots p.spawned p.reply).0 ≡ text t
        → parse_yaml lib.read_document t ≡ ok yaml
        → Tells lib a.last_yaml yaml)
    → IsCurrent lib a
    → IsCurrent lib (reload_once lib settings p a)
reload_once-IsCurrent lib settings p a tells c =
    let (fetched, slots) = fetch_with_hard_timeout a.slots p.spawned p.reply in
    let b : App = record a { slots = slots } in
    Reloads-IsCurrent lib settings p.fs b fetched (reload_once lib settings p a) tells
      (reload_once-Reloads lib settings p a)
      (record { built = c.built; builds = c.builds; same_print = c.same_print; routes = c.routes })
