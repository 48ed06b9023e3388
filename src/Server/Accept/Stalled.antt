-- ===== src/Server/Accept/Stalled.antt =====
-- src/main.rs: without a heartbeat of the accept loops the watchdog (src/watchdog.rs) fires.
use nyasniproxy.Base.{
  ok_same, ℕ, ◌+◌, Bool, true, false, ◌||◌, ltb, List, [], ◌∷◌, ok, ◌≡◌, refl, ap, ◌∙◌, ◌==◌,
  if-elim, subst,
}
use nyasniproxy.Watchdog.{beat, stalled_for, late-stalled}
use nyasniproxy.Server.Accept.{
  Gate, open_gate, Turn, accepted, tick, finished, watchdog_poll, spawn_connection, drop_permit,
  accept_turn, accept_loop,
}

-- A poll comes more than the limit after the last beat before it.
abbrev pub stalls : ℕ → ℕ → List Turn → Bool
stalls limit last [] = false
stalls limit last (accepted now b ∷ turns) = stalls limit now turns
stalls limit last (tick now ∷ turns) = stalls limit now turns
stalls limit last (finished ∷ turns) = stalls limit last turns
stalls limit last (watchdog_poll now ∷ turns) = ltb (last + limit) now || stalls limit last turns

-- The watchdog has fired, or is about to.
pub record Due (limit last : ℕ) (turns : List Turn) (g : Gate) : Type 0 where
  pub beat_at : g.heartbeat ≡ beat last
  pub due : (g.fired || stalls limit last turns) ≡ true

spawn_connection-Due :
    (limit last : ℕ) (turns : List Turn) (g : Gate)
    → Due limit last turns g
    → Due limit last turns (spawn_connection g)
unfolding spawn_connection
spawn_connection-Due limit last turns g d =
    if-elim (Due limit last turns) (g.permits == 0) _ _ (λ _. d)
      (λ _. record { beat_at = d.beat_at; due = d.due })

drop_permit-Due :
    (limit last : ℕ) (turns : List Turn) (g : Gate)
    → Due limit last turns g
    → Due limit last turns (drop_permit g)
unfolding drop_permit
drop_permit-Due limit last turns g d =
    if-elim (Due limit last turns) (g.active == 0) _ _ (λ _. d)
      (λ _. record { beat_at = d.beat_at; due = d.due })

fires_now :
    (f l s r : Bool) → (l ≡ true → s ≡ true) → (f || (l || r)) ≡ true → ((f || s) || r) ≡ true
fires_now true l s r h e = refl
fires_now false true s r h e = rw (h refl) refl
fires_now false false true r h e = refl
fires_now false false false r h e = e

watchdog_poll-Due :
    (limit last now : ℕ) (turns : List Turn) (g : Gate)
    → Due limit last (watchdog_poll now ∷ turns) g
    → Due limit last turns (record g { fired = g.fired || stalled_for g.heartbeat now limit })
watchdog_poll-Due limit last now turns g d = record {
  beat_at = d.beat_at;
  due =
      fires_now g.fired (ltb (last + limit) now) (stalled_for g.heartbeat now limit)
        (stalls limit last turns)
        (λ late. ap (λ h. stalled_for h now limit) d.beat_at ∙ late-stalled now last limit late)
        d.due;
}

or_none : (b : Bool) → (b || false) ≡ true → b ≡ true
or_none true e = refl
or_none false e = cc

accept_loop-Due :
    (limit last : ℕ) (turns : List Turn) (g : Gate) {g' : Gate}
    → Due limit last turns g
    → accept_loop limit turns g ≡ ok g'
    → g'.fired ≡ true
unfolding accept_loop accept_turn
accept_loop-Due limit last [] g d e =
    subst (λ (g : Gate). g.fired ≡ true) (ok_same e) (or_none g.fired d.due)
accept_loop-Due limit last (accepted now true ∷ turns) g d e =
    accept_loop-Due limit now turns _
      (spawn_connection-Due limit now turns (record g { heartbeat = beat now })
        (record { beat_at = refl; due = d.due }))
      e
accept_loop-Due limit last (accepted now false ∷ turns) g d e = cc
accept_loop-Due limit last (tick now ∷ turns) g d e =
    accept_loop-Due limit now turns _ (record { beat_at = refl; due = d.due }) e
accept_loop-Due limit last (finished ∷ turns) g d e =
    accept_loop-Due limit last turns _
      (drop_permit-Due limit last turns g (record { beat_at = d.beat_at; due = d.due })) e
accept_loop-Due limit last (watchdog_poll now ∷ turns) g d e =
    accept_loop-Due limit last turns _ (watchdog_poll-Due limit last now turns g d) e

-- If a poll of the watchdog comes more than the stall timeout after the last accept or tick before
-- it, or the start, the watchdog fires.
pub accept_loop-stalled :
    (limit : ℕ) (turns : List Turn) (now : ℕ) {g : Gate}
    → stalls limit now turns ≡ true
    → accept_loop limit turns (open_gate now) ≡ ok g
    → g.fired ≡ true
accept_loop-stalled limit turns now late e =
    accept_loop-Due limit now turns (open_gate now) (record { beat_at = refl; due = late }) e
