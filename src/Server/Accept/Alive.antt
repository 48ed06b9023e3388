-- ===== src/Server/Accept/Alive.antt =====
-- src/main.rs: the heartbeat of the accept loops keeps the watchdog (src/watchdog.rs) quiet.
use nyasniproxy.Base.{
  ok_same, ℕ, ◌+◌, ◌*◌, ◌≤◌, ◌<◌, true, false, ◌||◌, List, [], ◌∷◌, ok, ◌≡◌, refl, ap, ◌∙◌, ◌==◌,
  if-elim, subst,
}
use nyasniproxy.Watchdog.{beat, stalled_for, nanos_per_milli, fresh-alive}
use nyasniproxy.Server.Accept.{
  Gate, open_gate, Turn, accepted, tick, finished, watchdog_poll, spawn_connection, drop_permit,
  accept_turn, accept_loop,
}

-- Every poll of the watchdog finds a beat, of an accept or a tick, that is younger than the limit
-- less the millisecond that rounding may cost; `last` is the time of the last beat.
abbrev pub Beats : ℕ → ℕ → List Turn → Type 0
Beats limit last [] = Unit
Beats limit last (accepted now b ∷ turns) =
    (now < 18446744073709551615 * nanos_per_milli) × Beats limit now turns
Beats limit last (tick now ∷ turns) =
    (now < 18446744073709551615 * nanos_per_milli) × Beats limit now turns
Beats limit last (finished ∷ turns) = Beats limit last turns
Beats limit last (watchdog_poll now ∷ turns) =
    (now + nanos_per_milli ≤ last + limit + 1) × Beats limit last turns

pub record Alive (last : ℕ) (g : Gate) : Type 0 where
  pub beat_at : g.heartbeat ≡ beat last
  pub quiet : g.fired ≡ false

spawn_connection-Alive : (last : ℕ) (g : Gate) → Alive last g → Alive last (spawn_connection g)
unfolding spawn_connection
spawn_connection-Alive last g a =
    if-elim (Alive last) (g.permits == 0) _ _ (λ _. a)
      (λ _. record { beat_at = a.beat_at; quiet = a.quiet })

drop_permit-Alive : (last : ℕ) (g : Gate) → Alive last g → Alive last (drop_permit g)
unfolding drop_permit
drop_permit-Alive last g a =
    if-elim (Alive last) (g.active == 0) _ _ (λ _. a)
      (λ _. record { beat_at = a.beat_at; quiet = a.quiet })

watchdog_poll-Alive :
    (limit last now : ℕ) (g : Gate)
    → last < 18446744073709551615 * nanos_per_milli
    → now + nanos_per_milli ≤ last + limit + 1
    → Alive last g
    → Alive last (record g { fired = g.fired || stalled_for g.heartbeat now limit })
watchdog_poll-Alive limit last now g small young a = record {
  beat_at = a.beat_at;
  quiet =
      ap (λ b. b || stalled_for g.heartbeat now limit) a.quiet
      ∙ ap (λ h. stalled_for h now limit) a.beat_at
      ∙ fresh-alive now last limit small young;
}

accept_loop-Alive :
    (limit last : ℕ) (turns : List Turn) (g : Gate) {g' : Gate}
    → last < 18446744073709551615 * nanos_per_milli
    → Beats limit last turns
    → Alive last g
    → accept_loop limit turns g ≡ ok g'
    → g'.fired ≡ false
unfolding accept_loop accept_turn
accept_loop-Alive limit last [] g small b a e =
    subst (λ (g : Gate). g.fired ≡ false) (ok_same e) a.quiet
accept_loop-Alive limit last (accepted now true ∷ turns) g small b a e =
    accept_loop-Alive limit now turns _ b.0 b.1
      (spawn_connection-Alive now (record g { heartbeat = beat now })
        (record { beat_at = refl; quiet = a.quiet }))
      e
accept_loop-Alive limit last (accepted now false ∷ turns) g small b a e = cc
accept_loop-Alive limit last (tick now ∷ turns) g small b a e =
    accept_loop-Alive limit now turns _ b.0 b.1 (record { beat_at = refl; quiet = a.quiet }) e
accept_loop-Alive limit last (finished ∷ turns) g small b a e =
    accept_loop-Alive limit last turns _ small b (drop_permit-Alive last g a) e
accept_loop-Alive limit last (watchdog_poll now ∷ turns) g small b a e =
    accept_loop-Alive limit last turns _ small b.1
      (watchdog_poll-Alive limit last now g small b.0 a) e

-- The watchdog does not fire while the accept loops run: as long as every poll comes within the
-- stall timeout, less a millisecond, of the last accept or tick of a loop, or of the start.
pub accept_loop-alive :
    (limit : ℕ) (turns : List Turn) (now : ℕ) {g : Gate}
    → now < 18446744073709551615 * nanos_per_milli
    → Beats limit now turns
    → accept_loop limit turns (open_gate now) ≡ ok g
    → g.fired ≡ false
accept_loop-alive limit turns now small b e =
    accept_loop-Alive limit now turns (open_gate now) small b
      (record { beat_at = refl; quiet = refl }) e
