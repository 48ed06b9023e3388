-- ===== src/Watchdog.antt =====
-- src/watchdog.rs: the heartbeat of the accept loops, and the thread that watches it.
use nyasniproxy.Base.{
  ℕ, ◌+◌, ◌-◌, ◌*◌, ◌/◌, ◌≤◌, ◌<◌, Bool, true, false, List, [], ◌∷◌, ◌≡◌, refl, arith, min, ltb,
  All,
}

-- Times are nanoseconds since `origin`; `last_ms` is the last beat in milliseconds.
pub record Heartbeat : Type 0 where
  pub last_ms : ℕ

abbrev pub nanos_per_milli : ℕ
nanos_per_milli = 1000000

-- The constants, in nanoseconds.
abbrev pub accept_heartbeat_interval : ℕ
accept_heartbeat_interval = 1000 * nanos_per_milli

abbrev pub watchdog_stall_timeout : ℕ
watchdog_stall_timeout = 30 * 1000 * nanos_per_milli

abbrev pub watchdog_poll_interval : ℕ
watchdog_poll_interval = 1000 * nanos_per_milli

-- `beat` at a time; a `u64` holds the milliseconds.
unfoldable pub beat : ℕ → Heartbeat
beat elapsed = record { last_ms = min (elapsed / nanos_per_milli) 18446744073709551615 }

-- The subtraction on ℕ is `saturating_sub`.
unfoldable pub stalled_for : Heartbeat → ℕ → ℕ → Bool
stalled_for h elapsed limit = ltb limit (elapsed - h.last_ms * nanos_per_milli)

-- The loop of the thread: at each poll, the time and the heartbeat that it loads. It returns
-- whether it has called `on_stall`.
unfoldable pub spawn_watchdog : ℕ → List (ℕ × Heartbeat) → Bool
unfolding stalled_for
spawn_watchdog stall_timeout [] = false
spawn_watchdog stall_timeout ((elapsed, h) ∷ polls) = elim (stalled_for h elapsed stall_timeout) [
  | true ↦ true
  | false ↦ spawn_watchdog stall_timeout polls
]

-- A beat is fresh if it is not older than the limit, with a millisecond to spare for rounding.
abbrev pub IsFresh : ℕ → ℕ × Heartbeat → Type 0
IsFresh stall_timeout (elapsed, h) =
    (b : ℕ) × (h ≡ beat b)
    × (b < 18446744073709551615 * nanos_per_milli)
    × (elapsed + nanos_per_milli ≤ b + stall_timeout + 1)

pub fresh-alive :
    (elapsed b limit : ℕ)
    → b < 18446744073709551615 * nanos_per_milli
    → elapsed + nanos_per_milli ≤ b + limit + 1
    → stalled_for (beat b) elapsed limit ≡ false
unfolding stalled_for beat
fresh-alive elapsed b limit small fresh = ground arith

pub late-stalled :
    (elapsed b limit : ℕ)
    → ltb (b + limit) elapsed ≡ true
    → stalled_for (beat b) elapsed limit ≡ true
unfolding stalled_for beat
late-stalled elapsed b limit late = ground arith

-- The watchdog does not fire while every poll finds a beat that is younger than the limit less
-- one millisecond, for a beat before the end of the `u64`.
pub spawn_watchdog-IsFresh :
    (stall_timeout : ℕ) (polls : List (ℕ × Heartbeat))
    → All (IsFresh stall_timeout) polls
    → spawn_watchdog stall_timeout polls ≡ false
unfolding spawn_watchdog
spawn_watchdog-IsFresh limit [] fresh = refl
spawn_watchdog-IsFresh limit ((elapsed, h) ∷ polls) ((b, e, small, young), rest) =
    rw (e, fresh-alive elapsed b limit small young, spawn_watchdog)
      (spawn_watchdog-IsFresh limit polls rest)

-- The first poll that comes more than the limit after the last beat fires.
pub spawn_watchdog-stalled :
    (stall_timeout elapsed b : ℕ) (polls : List (ℕ × Heartbeat))
    → b + stall_timeout < elapsed
    → spawn_watchdog stall_timeout ((elapsed, beat b) ∷ polls) ≡ true
unfolding spawn_watchdog stalled_for beat
spawn_watchdog-stalled limit elapsed b polls late = ground arith

-- With the program's constants, a tick of the accept loops may come 27 seconds late and the watchdog
-- still does not fire, at a poll that comes within its interval after the tick was due again.
interval-alive :
    (tick late poll : ℕ)
    → tick < 18446744073709551615 * nanos_per_milli
    → late ≤ 27 * 1000 * nanos_per_milli
    → poll ≤ tick + accept_heartbeat_interval + late + watchdog_poll_interval
    → stalled_for (beat tick) poll watchdog_stall_timeout ≡ false
interval-alive tick late poll small in_time soon =
    fresh-alive poll tick watchdog_stall_timeout small (omega (arith, in_time, soon))
