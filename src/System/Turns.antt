-- ===== src/System/Turns.antt =====
-- src/main.rs: the accept loops of the running program are a run of `accept_loop`.
use nyasniproxy.Base.{
  ℕ, ◌*◌, ◌<◌, Bool, true, false, ◌||◌, List, [], ◌∷◌, ◌++◌, Option, none, some, Bytes, ok, ◌≡◌,
  refl, ap, ◌∙◌, inl, inr, Bool-cases, ◌==◌, ◌>>=◌, bind-eq-ok,
}
use nyasniproxy.Config.{StaticSettings}
use nyasniproxy.Reload.{Libraries}
use nyasniproxy.Watchdog.{stalled_for, nanos_per_milli}
use nyasniproxy.Server.Accept.{
  Gate, open_gate, Turn, accepted, tick, finished, watchdog_poll, spawn_connection, accept_turn,
  accept_loop,
}
use nyasniproxy.Server.Accept.Alive.{Beats, accept_loop-alive}
use nyasniproxy.Startup.{Started}
use nyasniproxy.System.{
  Client, Task, advance_task, System, launch, accept_client, put_back, watch_heartbeat, Step,
  accepts, accept_fails, ticks, goes_on, reloads, watches, Reach, here, next,
}

-- What a task's end means for the accept loops.
abbrev pub ended_turn : Option Task → List Turn
ended_turn none = finished ∷ []
ended_turn (some t) = []

accept_loop-append :
    (limit : ℕ) (ts us : List Turn) (g : Gate) {g' : Gate}
    → accept_loop limit ts g ≡ ok g'
    → accept_loop limit (ts ++ us) g ≡ accept_loop limit us g'
unfolding accept_loop
accept_loop-append limit [] us g e = ap (λ r. r >>= accept_loop limit us) e
accept_loop-append limit (t ∷ ts) us g e =
    let (mid, first, rest) = bind-eq-ok (accept_turn limit t g) _ e in
    ap (λ r. r >>= (λ g'. accept_loop limit (ts ++ us) g')) first
    ∙ accept_loop-append limit ts us mid rest

module _ (lib : Libraries) (settings : StaticSettings) (base64 : Bytes → Bytes) (limit : ℕ) where
  -- The turns of the accept loops and the watchdog that a step is.
  abbrev pub step_turns : {s u : System} → Step lib settings base64 limit s u → List Turn
  step_turns (accepts now c s runs) = accepted now true ∷ []
  step_turns (accept_fails s runs) = []
  step_turns (ticks now s runs) = tick now ∷ []
  step_turns (goes_on before after t e s runs at) =
      ended_turn (advance_task base64 s.app.runtime.router e t)
  step_turns (reloads p s runs few) = []
  step_turns (watches now s runs) = watchdog_poll now ∷ []

  abbrev pub turns : {s u : System} → Reach lib settings base64 limit s u → List Turn
  turns here = []
  turns (next r st) = turns r ++ step_turns st

  put_back-turn :
      (before after : List Task) (o : Option Task) (s : System)
      → accept_loop limit (ended_turn o) s.gate ≡ ok (put_back before o after s).gate
  unfolding accept_loop accept_turn put_back
  put_back-turn before after (some t) s = refl
  put_back-turn before after none s = refl

  accept_client-turn :
      (now : ℕ) (c : Client) (s : System)
      → accept_loop limit (accepted now true ∷ []) s.gate ≡ ok (accept_client now c s).gate
  unfolding accept_loop accept_turn accept_client spawn_connection
  accept_client-turn now c s = elim (Bool-cases (s.gate.permits == 0)) [
    | inl full ↦ rw full refl
    | inr room ↦ rw room refl
  ]

  watch_heartbeat-turn :
      (now : ℕ) (s : System)
      → accept_loop limit (watchdog_poll now ∷ []) s.gate ≡ ok (watch_heartbeat limit now s).gate
  unfolding accept_loop accept_turn watch_heartbeat
  watch_heartbeat-turn now s = elim (Bool-cases (stalled_for s.gate.heartbeat now limit)) [
    | inl late ↦ rw late (ap (λ b. ok (record s.gate { fired = b })) (or_true s.gate.fired))
    | inr alive ↦ rw alive (ap (λ b. ok (record s.gate { fired = b })) (or_false s.gate.fired))
  ]
    where
      or_true : (b : Bool) → (b || true) ≡ true
      or_true true = refl
      or_true false = refl

      or_false : (b : Bool) → (b || false) ≡ b
      or_false true = refl
      or_false false = refl

  step_turns-accept_loop :
      {s u : System} (st : Step lib settings base64 limit s u)
      → accept_loop limit (step_turns st) s.gate ≡ ok u.gate
  unfolding accept_loop accept_turn
  step_turns-accept_loop (accepts now c s runs) = accept_client-turn now c s
  step_turns-accept_loop (accept_fails s runs) = refl
  step_turns-accept_loop (ticks now s runs) = refl
  step_turns-accept_loop (goes_on before after t e s runs at) = put_back-turn before after _ s
  step_turns-accept_loop (reloads p s runs few) = refl
  step_turns-accept_loop (watches now s runs) = watch_heartbeat-turn now s

  turns-accept_loop :
      {s u : System} (r : Reach lib settings base64 limit s u)
      → accept_loop limit (turns r) s.gate ≡ ok u.gate
  unfolding accept_loop
  turns-accept_loop here = refl
  turns-accept_loop {s} (next r st) =
      accept_loop-append limit (turns r) (step_turns st) s.gate (turns-accept_loop r)
      ∙ step_turns-accept_loop st

  -- Whatever the connections and the reloads do, the gate of the running program is the one that
  -- `accept_loop` comes to on the turns of the run, and the watchdog has not fired; if each of its
  -- polls comes within the stall timeout, less a millisecond, of the last accept or tick, or of the
  -- start, and the times of these are before the end of the `u64` of milliseconds.
  pub Reach-accept_loop :
      (now : ℕ) (s : Started) {u : System} (r : Reach lib settings base64 limit (launch now s) u)
      → now < 18446744073709551615 * nanos_per_milli
      → Beats limit now (turns r)
      → (accept_loop limit (turns r) (open_gate now) ≡ ok u.gate) × (u.gate.fired ≡ false)
  Reach-accept_loop now s r small b =
      let run = turns-accept_loop r in (run, accept_loop-alive limit (turns r) now small b run)
