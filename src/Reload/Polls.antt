-- ===== src/Reload/Polls.antt =====
-- src/reload.rs: what a poll of the configuration changes.
use nyasniproxy.Base.{
  true, false, Bytes, Error, ok, err, ◌≡◌, ◌≢◌, ◌⊎◌, refl, inl, inr, ◌==◌, ==_iff, Result-cases,
  if-elim,
}
use nyasniproxy.Hosts.{FileSystem}
use nyasniproxy.Config.{StaticSettings, FileConfig}
use nyasniproxy.Config.Parse.{parse_yaml}
use nyasniproxy.Router.{Runtime, from_yaml}
use nyasniproxy.Reload.{
  Fetched, text, error, Poll, App, Libraries, apply_hosts, install, build_runtime, read_config,
  on_fetched, fetch_with_hard_timeout, reload_once,
}

-- Nothing that the program serves or writes is changed.
pub record Keeps (a a' : App) : Type 0 where
  pub runtime_kept : a'.runtime ≡ a.runtime
  pub yaml_kept : a'.last_yaml ≡ a.last_yaml
  pub disk_kept : a'.disk ≡ a.disk

module _ (lib : Libraries) (settings : StaticSettings) (fs : FileSystem) where
  -- A configuration that was accepted, and what became of it.
  pub record Installs (a : App) (fetched : Bytes) (a' : App) : Type 0 where
    pub yaml : FileConfig
    pub built : Runtime
    pub accepted : parse_yaml lib.read_document fetched ≡ ok yaml
    pub builds : from_yaml lib.parse_url lib.finish yaml ≡ ok built
    pub disk_synced : a'.disk ≡ apply_hosts lib settings fs built a.disk
    pub unchanged :
        a.runtime.fingerprint ≡ built.fingerprint → (a'.runtime ≡ a.runtime) × (a'.last_yaml ≡ yaml)
    pub replaced :
        a.runtime.fingerprint ≢ built.fingerprint
        → a.receivers ≡ true
        → (a'.runtime ≡ built) × (a'.last_yaml ≡ yaml)
    pub unheard :
        a.runtime.fingerprint ≢ built.fingerprint
        → a.receivers ≡ false
        → (a'.runtime ≡ a.runtime) × (a'.last_yaml ≡ a.last_yaml)

  -- Why a fetched text is not installed: it does not parse, or `from_yaml` refuses it.
  pub data Refused (fetched : Bytes) : Type 0 where
    unparsed : {e : Error} → parse_yaml lib.read_document fetched ≡ err e → Refused fetched
    unbuilt :
        {yaml : FileConfig} {e : Error}
        → parse_yaml lib.read_document fetched ≡ ok yaml
        → from_yaml lib.parse_url lib.finish yaml ≡ err e
        → Refused fetched

  abbrev pub Reloads : App → Fetched → App → Type 0
  Reloads a (error e) a' = Keeps a a'
  Reloads a (text t) a' = (Keeps a a' × Refused t) ⊎ Installs a t a'

  install-Installs :
      (a : App) (t : Bytes) (yaml : FileConfig) (rt : Runtime)
      → parse_yaml lib.read_document t ≡ ok yaml
      → from_yaml lib.parse_url lib.finish yaml ≡ ok rt
      → Installs a t (install lib settings fs a yaml rt)
  unfolding install
  install-Installs a t yaml rt p b =
      if-elim (Installs a t) (a.runtime.fingerprint == rt.fingerprint) _ _
        (λ same.
          let e = (==_iff a.runtime.fingerprint rt.fingerprint).0 same in
          record {
            yaml = yaml;
            built = rt;
            accepted = p;
            builds = b;
            disk_synced = refl;
            unchanged = λ q. (refl, refl);
            replaced = λ ne q. absurd (ne e);
            unheard = λ ne q. absurd (ne e);
          })
        (λ differs.
          if-elim (Installs a t) a.receivers _ _
            (λ heard. record {
              yaml = yaml;
              built = rt;
              accepted = p;
              builds = b;
              disk_synced = refl;
              unchanged = λ e. cc ((==_iff a.runtime.fingerprint rt.fingerprint).1 e, differs);
              replaced = λ ne q. (refl, refl);
              unheard = λ ne q. cc (heard, q);
            })
            (λ deaf. record {
              yaml = yaml;
              built = rt;
              accepted = p;
              builds = b;
              disk_synced = refl;
              unchanged = λ e. cc ((==_iff a.runtime.fingerprint rt.fingerprint).1 e, differs);
              replaced = λ ne q. cc (deaf, q);
              unheard = λ ne q. (refl, refl);
            }))

  kept : (a : App) → Keeps a a
  kept a = record { runtime_kept = refl; yaml_kept = refl; disk_kept = refl }

  on_fetched-Reloads : (a : App) (f : Fetched) → Reloads a f (on_fetched lib settings fs a f)
  unfolding on_fetched read_config build_runtime
  on_fetched-Reloads a (error e) = kept a
  on_fetched-Reloads a (text t) = elim (Result-cases (parse_yaml lib.read_document t)) [
    | inr (e, bad) ↦ rw bad (inl (kept a, unparsed bad))
    | inl (yaml, good) ↦ rw good (elim (Result-cases (from_yaml lib.parse_url lib.finish yaml)) [
      | inr (e, bad) ↦ rw bad (inl (kept a, unbuilt good bad))
      | inl (rt, built) ↦ rw built (inr (install-Installs a t yaml rt good built))
    ])
  ]

-- A poll that fetches no text, or a text that does not parse or that `from_yaml` refuses, leaves
-- the runtime, the last configuration and the disk as they are. A poll that fetches any other text
-- installs it: the hosts file is synchronised, and the runtime is replaced exactly if its fingerprint differs and a receiver
-- is left; the last configuration is then the new one, unless the runtime could not be sent.
pub reload_once-Reloads :
    (lib : Libraries) (settings : StaticSettings) (p : Poll) (a : App)
    → let (fetched, slots) = fetch_with_hard_timeout a.slots p.spawned p.reply in
      Reloads lib settings p.fs (record a { slots = slots }) fetched (reload_once lib settings p a)
unfolding reload_once
reload_once-Reloads lib settings p a =
    let (fetched, slots) = fetch_with_hard_timeout a.slots p.spawned p.reply in
    on_fetched-Reloads lib settings p.fs (record a { slots = slots }) fetched
