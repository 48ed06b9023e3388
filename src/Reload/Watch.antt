-- ===== src/Reload/Watch.antt =====
-- src/reload.rs: the reloads of the loop of `watch_file`, and when they start.
use nyasniproxy.Base.{
  ℕ, zero, suc, ◌+◌, ◌≤◌, true, ◌++◌, refl, sym, ap, ◌∙◌, List, [], ◌∷◌, Option, ◌≡◌, arith, leb,
  any, All, length, if-elim,
}
use nyasniproxy.Base.{Bytes}
use nyasniproxy.Config.{StaticSettings}
use nyasniproxy.Reload.{Poll, Libraries, App, drop_guards, reload_once, poll_source}
use nyasniproxy.Reload.Loop.{
  Event, Arrivals, FileReload, Watching, applies, later_of, is_drained, reload_after, on_event,
  watch_loop, start_watching,
}

-- A reload has started at `t` or later.
abbrev pub ReloadedSince : ℕ → List ℕ → Type 0
ReloadedSince t started = any (leb t) started ≡ true

-- The starts, the last one first: each at least 200 ms behind the one before.
abbrev pub Spaced : List ℕ → Type 0
Spaced [] = Unit
Spaced (s ∷ []) = Unit
Spaced (s ∷ r ∷ started) = (r + 200 ≤ s) × Spaced (r ∷ started)

abbrev AllBefore : List ℕ → ℕ → Type 0
AllBefore [] free = Unit
AllBefore (s ∷ started) free = s ≤ free

-- What the loop keeps: what a drain has taken, a reload has started behind.
pub record Sound (w : Watching) : Type 0 where
  pub drained_seen : (t : ℕ) → is_drained w.drained t ≡ true → ReloadedSince t w.started
  pub spaced : Spaced w.started
  pub before : AllBefore w.started w.free

later_of-le : (a b : ℕ) → (a ≤ later_of a b) × (b ≤ later_of a b)
later_of-le a b = (ground arith, ground arith)

Spaced-cons :
    (started : List ℕ) (free s : ℕ)
    → AllBefore started free
    → Spaced started
    → free + 200 ≤ s
    → Spaced (s ∷ started)
Spaced-cons [] free s b h k = tt
Spaced-cons (r ∷ started) free s b h k = (omega arith, h)

any-here : (t s : ℕ) (started : List ℕ) → t ≤ s → ReloadedSince t (s ∷ started)
any-here t s started h = ground arith

any-there : (t s : ℕ) (started : List ℕ) → ReloadedSince t started → ReloadedSince t (s ∷ started)
any-there t s started h = ground arith

module _ (lib : Libraries) (settings : StaticSettings) (filename : Option Bytes)
    (next : ℕ → FileReload) where
  reload_after-Sound :
      (r : FileReload) (t : ℕ) (w : Watching) → Sound w → Sound (reload_after lib settings r t w)
  unfolding reload_after
  reload_after-Sound r t w s = record {
    drained_seen = λ t' h. any-here t' (later_of t w.free + 200) w.started (ground arith);
    spaced =
        Spaced-cons w.started w.free (later_of t w.free + 200) s.before s.spaced
          (omega (arith, (later_of-le t w.free).1));
    before = omega arith;
  }

  -- What one event leads to.
  pub record Handles (t : ℕ) (e : Option Event) (w w' : Watching) : Type 0 where
    pub sound : Sound w'
    pub seen : applies filename e ≡ true → ReloadedSince t w'.started
    pub kept : (t' : ℕ) → ReloadedSince t' w.started → ReloadedSince t' w'.started

  on_event-Handles :
      (t : ℕ) (e : Option Event) (w : Watching)
      → Sound w
      → Handles t e w (on_event lib settings filename next t e w)
  unfolding on_event
  on_event-Handles t e w s =
      if-elim (Handles t e w) (is_drained w.drained t) _ _
        (λ drained. record { sound = s; seen = λ _. s.drained_seen t drained; kept = λ t' h. h })
        (λ _.
          if-elim (Handles t e w) (applies filename e) _ _ (λ _. reloads (next (length w.started)))
            (λ other. record { sound = s; seen = λ q. cc (other, q); kept = λ t' h. h }))
    where
      reloads : (r : FileReload) → Handles t e w (reload_after lib settings r t w)
      reloads r =
          unfold reload_after in
          record {
            sound = reload_after-Sound r t w s;
            seen = λ _.
                any-here t (later_of t w.free + 200) w.started
                  (omega (arith, (later_of-le t w.free).0));
            kept = λ t' h. any-there t' (later_of t w.free + 200) w.started h;
          }

  -- Every event of the file is followed by a reload; none is left over.
  pub record IsDebounced (arrivals : Arrivals) (w w' : Watching) : Type 0 where
    pub followed :
        All
          (λ arrival. applies filename arrival.1 ≡ true → ReloadedSince arrival.0 w'.started)
          arrivals
    pub started_apart : Spaced w'.started
    pub earlier : (t : ℕ) → ReloadedSince t w.started → ReloadedSince t w'.started

  watch_loop-IsDebounced :
      (arrivals : Arrivals) (w : Watching)
      → Sound w
      → IsDebounced arrivals w (watch_loop lib settings filename next arrivals w)
  unfolding watch_loop
  watch_loop-IsDebounced [] w s = record {
    followed = tt;
    started_apart = s.spaced;
    earlier = λ t h. h;
  }
  watch_loop-IsDebounced ((t, e) ∷ arrivals) w s =
      let h = on_event-Handles t e w s in
      let ih =
        watch_loop-IsDebounced arrivals (on_event lib settings filename next t e w) h.sound in
      record {
        followed = ((λ a. ih.earlier t (h.seen a)), ih.followed);
        started_apart = ih.started_apart;
        earlier = λ t' q. ih.earlier t' (h.kept t' q);
      }

-- The polls of the first reloads.
abbrev pub first_polls : (ℕ → FileReload) → ℕ → List Poll
first_polls next zero = []
first_polls next (suc n) = first_polls next n ++ ((next n).poll ∷ [])

module _ (lib : Libraries) (settings : StaticSettings) (filename : Option Bytes)
    (next : ℕ → FileReload) (a : App) where
  poll_source-append :
      (ps : List Poll) (p : Poll) (b : App)
      → poll_source lib settings (ps ++ (p ∷ [])) b
        ≡ let b' = poll_source lib settings ps b in
          reload_once lib settings p (drop_guards p.ended b')
  unfolding poll_source
  poll_source-append [] p b = refl
  poll_source-append (q ∷ ps) p b =
      poll_source-append ps p (reload_once lib settings q (drop_guards q.ended b))

  -- The program is what the reloads so far have made of it.
  abbrev IsReloaded : Watching → Type 0
  IsReloaded w = w.app ≡ poll_source lib settings (first_polls next (length w.started)) a

  on_event-IsReloaded :
      (t : ℕ) (e : Option Event) (w : Watching)
      → IsReloaded w
      → IsReloaded (on_event lib settings filename next t e w)
  unfolding on_event reload_after
  on_event-IsReloaded t e w h =
      if-elim IsReloaded (is_drained w.drained t) _ _ (λ _. h)
        (λ _.
          if-elim IsReloaded (applies filename e) _ _
            (λ _.
              let p = (next (length w.started)).poll in
              ap (λ b. reload_once lib settings p (drop_guards p.ended b)) h
              ∙ sym (poll_source-append (first_polls next (length w.started)) p a))
            (λ _. h))

  watch_loop-reloads :
      (arrivals : Arrivals) (w : Watching)
      → IsReloaded w
      → IsReloaded (watch_loop lib settings filename next arrivals w)
  unfolding watch_loop
  watch_loop-reloads [] w h = h
  watch_loop-reloads ((t, e) ∷ arrivals) w h =
      watch_loop-reloads arrivals (on_event lib settings filename next t e w)
        (on_event-IsReloaded t e w h)

-- Every event of the watched file, at whatever time it comes and however many come together, is
-- followed by a call of `reload_once` that starts at that time or later; two of the calls start at
-- least 200 ms apart; and what the program serves and writes at the end is what exactly these
-- calls, one for each start, make of what it began with.
pub watch_loop-start :
    (lib : Libraries) (settings : StaticSettings) (filename : Option Bytes) (next : ℕ → FileReload)
    (arrivals : Arrivals) (a : App)
    → let w' = watch_loop lib settings filename next arrivals (start_watching a) in
      All
        (λ arrival. applies filename arrival.1 ≡ true → ReloadedSince arrival.0 w'.started)
        arrivals
      × Spaced w'.started
      × (w'.app ≡ poll_source lib settings (first_polls next (length w'.started)) a)
watch_loop-start lib settings filename next arrivals a =
    let d =
      watch_loop-IsDebounced lib settings filename next arrivals (start_watching a)
        (record { drained_seen = λ t h. cc; spaced = tt; before = tt }) in
    (
      d.followed,
      d.started_apart,
      watch_loop-reloads lib settings filename next a arrivals (start_watching a)
          (unfold poll_source in refl),
    )
