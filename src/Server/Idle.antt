-- ===== src/Server/Idle.antt =====
-- src/main.rs: the idle timer of `copy_bidirectional_with_idle_timeout`.
pub mod Ends
pub mod Untimed
use nyasniproxy.Base.{
  ℕ, ◌+◌, ◌≤◌, Bool, true, false, not, ◌&&◌, List, [], ◌∷◌, ◌++◌, Result, Error, ok, err, ◌≡◌, refl,
  sym, ap, ◌∙◌, inl, inr, arith, ltb, ltb-false, le-ltb, ◌≢◌, if◌then◌else◌, Bool-cases,
  Result-cases, if-elim, subst,
}
use mathlib.Core.Path.{subst₂}
use nyasniproxy.Base.Stream.{Read, got, broken, Outcome, done, failed, waiting}
use nyasniproxy.Server.{
  Event, idle, inbound, upstream, Relay, from_inbound, from_upstream, select, relay,
}

-- Events with the times at which their branch of the `select!` has been left; `idle` is a wake-up
-- of the timer while the loop is at the `select!`, not while a branch awaits its write.
abbrev pub Timed : Type 0
Timed = List (ℕ × Event)

-- The event is a read of some bytes, on a side that is not done.
abbrev pub moves_bytes : Event → Bool → Bool → Bool
moves_bytes (inbound (got (c ∷ s)) written) a_done b_done = not a_done
moves_bytes (upstream (got (c ∷ s)) written) a_done b_done = not b_done
moves_bytes _ a_done b_done = false

-- `idle.as_mut().reset(Instant::now() + idle_timeout)` behind a write.
abbrev pub next_deadline : ℕ → ℕ → Event → Relay → ℕ → ℕ
next_deadline idle_timeout now e r deadline =
    if moves_bytes e r.a_done r.b_done then now + idle_timeout else deadline

-- The timer is ready from its deadline on; a wake-up before that has no effect.
abbrev pub is_early : Event → ℕ → ℕ → Bool
is_early idle now deadline = ltb now deadline
is_early _ now deadline = false

-- The loop with its timer.
unfoldable pub timed_relay : ℕ → ℕ → Relay → Timed → Outcome Relay
timed_relay idle_timeout deadline r [] = elim (r.a_done && r.b_done) [
  | true ↦ done r
  | false ↦ waiting
]
timed_relay idle_timeout deadline r ((now, e) ∷ later) = elim (r.a_done && r.b_done) [
  | true ↦ done r
  | false ↦ elim (is_early e now deadline) [
    | true ↦ timed_relay idle_timeout deadline r later
    | false ↦ elim (select r e) [
      | failed x ↦ failed x
      | waiting ↦ waiting
      | done r' ↦ timed_relay idle_timeout (next_deadline idle_timeout now e r deadline) r' later
    ]
  ]
]

-- The events of a run less the wake-ups that come early.
unfoldable pub fired : ℕ → ℕ → Relay → Timed → List Event
fired idle_timeout deadline r [] = []
fired idle_timeout deadline r ((now, e) ∷ later) = elim (is_early e now deadline) [
  | true ↦ fired idle_timeout deadline r later
  | false ↦ elim (select r e) [
    | failed x ↦ e ∷ []
    | waiting ↦ e ∷ []
    | done r' ↦ e ∷ fired idle_timeout (next_deadline idle_timeout now e r deadline) r' later
  ]
]

-- The sides that are done behind an event.
abbrev pub ends_a : Event → Bool → Bool
ends_a (inbound (got []) written) a = true
ends_a _ a = a

abbrev pub ends_b : Event → Bool → Bool
ends_b (upstream (got []) written) b = true
ends_b _ b = b

abbrev pub moved_at : ℕ → Event → Bool → Bool → ℕ → ℕ
moved_at now e a b last = if moves_bytes e a b then now else last

-- The time of the last event that has moved bytes.
abbrev pub last_move : ℕ → Bool → Bool → Timed → ℕ
last_move last a b [] = last
last_move last a b ((now, e) ∷ es) =
    last_move (moved_at now e a b last) (ends_a e a) (ends_b e b) es

-- The timer has ended the relay: nothing has moved for the whole of the idle timeout.
pub record IsIdle (idle_timeout last : ℕ) (a b : Bool) (es : Timed) : Type 0 where
  pub before : Timed
  pub at : ℕ
  pub after : Timed
  pub parts : es ≡ before ++ ((at, idle) ∷ after)
  pub elapsed : last_move last a b before + idle_timeout ≤ at
