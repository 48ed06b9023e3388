-- ===== src/Server/Idle/Ends.antt =====
-- src/main.rs: when the idle timer ends a relay.
use nyasniproxy.Base.{
  ℕ, ◌+◌, Bool, true, false, ◌&&◌, [], ◌∷◌, Error, ◌≡◌, refl, sym, ap, inl, inr, ltb-false,
  Bool-cases, if-elim, subst,
}
use mathlib.Core.Path.{subst₂}
use nyasniproxy.Base.Stream.{Read, got, broken, Outcome, done, failed, waiting}
use nyasniproxy.Server.{Event, idle, inbound, upstream, Relay, from_inbound, from_upstream, select}
use nyasniproxy.Server.Idle.{
  Timed, moves_bytes, next_deadline, is_early, timed_relay, ends_a, ends_b, moved_at, IsIdle,
}

early-idle : (e : Event) (now deadline : ℕ) → is_early e now deadline ≡ true → e ≡ idle
early-idle idle now deadline h = refl
early-idle (inbound r w) now deadline h = cc
early-idle (upstream r w) now deadline h = cc

next_deadline-moved_at :
    (idle_timeout now last : ℕ) (e : Event) (r : Relay)
    → next_deadline idle_timeout now e r (last + idle_timeout)
      ≡ moved_at now e r.a_done r.b_done last + idle_timeout
next_deadline-moved_at idle_timeout now last e r =
    elim (Bool-cases (moves_bytes e r.a_done r.b_done)) [ inl t ↦ rw t refl | inr f ↦ rw f refl ]

-- What a round leaves: only the timer ends the relay as idle.
abbrev Rounds : Relay → Event → Outcome Relay → Type 0
Rounds r e (done r') = (r'.a_done ≡ ends_a e r.a_done) × (r'.b_done ≡ ends_b e r.b_done)
Rounds r e (failed x) = x ≡ Error.relay_idle → e ≡ idle
Rounds r e waiting = Unit

from_inbound-Rounds :
    (r : Relay) (x : Read) (w : Outcome (Unit {0})) → Rounds r (inbound x w) (from_inbound r x w)
unfolding from_inbound
from_inbound-Rounds r broken w = λ h. cc
from_inbound-Rounds r (got []) waiting = tt
from_inbound-Rounds r (got []) (done u) = (refl, refl)
from_inbound-Rounds r (got []) (failed x) = λ h. cc
from_inbound-Rounds r (got (c ∷ s)) waiting = tt
from_inbound-Rounds r (got (c ∷ s)) (done u) = (refl, refl)
from_inbound-Rounds r (got (c ∷ s)) (failed x) = λ h. cc

from_upstream-Rounds :
    (r : Relay) (x : Read) (w : Outcome (Unit {0})) → Rounds r (upstream x w) (from_upstream r x w)
unfolding from_upstream
from_upstream-Rounds r broken w = λ h. cc
from_upstream-Rounds r (got []) waiting = tt
from_upstream-Rounds r (got []) (done u) = (refl, refl)
from_upstream-Rounds r (got []) (failed x) = λ h. cc
from_upstream-Rounds r (got (c ∷ s)) waiting = tt
from_upstream-Rounds r (got (c ∷ s)) (done u) = (refl, refl)
from_upstream-Rounds r (got (c ∷ s)) (failed x) = λ h. cc

still_a : (x : Read) (w : Outcome (Unit {0})) (a : Bool) → a ≡ true → a ≡ ends_a (inbound x w) a
still_a broken w a h = refl
still_a (got []) w a h = h
still_a (got (c ∷ s)) w a h = refl

still_b : (x : Read) (w : Outcome (Unit {0})) (b : Bool) → b ≡ true → b ≡ ends_b (upstream x w) b
still_b broken w b h = refl
still_b (got []) w b h = h
still_b (got (c ∷ s)) w b h = refl

select-Rounds : (r : Relay) (e : Event) → Rounds r e (select r e)
unfolding select
select-Rounds r idle = λ h. refl
select-Rounds r (inbound x w) =
    if-elim (Rounds r (inbound x w)) r.a_done _ _ (λ a. (still_a x w r.a_done a, refl))
      (λ _. from_inbound-Rounds r x w)
select-Rounds r (upstream x w) =
    if-elim (Rounds r (upstream x w)) r.b_done _ _ (λ b. (refl, still_b x w r.b_done b))
      (λ _. from_upstream-Rounds r x w)

behind :
    (idle_timeout last now : ℕ) (e : Event) (a b : Bool) (later : Timed)
    → IsIdle idle_timeout (moved_at now e a b last) (ends_a e a) (ends_b e b) later
    → IsIdle idle_timeout last a b ((now, e) ∷ later)
behind idle_timeout last now e a b later h = record {
  before = (now, e) ∷ h.before;
  at = h.at;
  after = h.after;
  parts = ap (◌∷◌ (now, e)) h.parts;
  elapsed = h.elapsed;
}

same_error : {x y : Error} → ◌≡◌ {A = Outcome Relay} (failed x) (failed y) → x ≡ y
same_error e = cc

-- A relay that ends with the error of its idle timer has moved no byte in either direction for at
-- least the idle timeout before that: since the last write of some bytes, read on a side that was
-- not done, or since its start.
pub timed_relay-IsIdle :
    (idle_timeout last : ℕ) (es : Timed) (r : Relay)
    → timed_relay idle_timeout (last + idle_timeout) r es ≡ failed Error.relay_idle
    → IsIdle idle_timeout last r.a_done r.b_done es
unfolding timed_relay
timed_relay-IsIdle idle_timeout last [] r h = elim (Bool-cases (r.a_done && r.b_done)) [
  | inl t ↦ cc (rw (t, timed_relay) at h)
  | inr f ↦ cc (rw (f, timed_relay) at h)
]
timed_relay-IsIdle idle_timeout last ((now, e) ∷ later) r h =
    elim (Bool-cases (r.a_done && r.b_done)) [
      | inl t ↦ cc (rw (t, timed_relay) at h)
      | inr open_end ↦ elim (Bool-cases (is_early e now (last + idle_timeout))) [
        | inl early ↦ skip (early-idle e now _ early) (
            timed_relay-IsIdle idle_timeout last later r
              (rw (early, timed_relay) at (rw (open_end, timed_relay) at h)))
        | inr ready ↦
            round ready (λ last' r'. timed_relay-IsIdle idle_timeout last' later r') (select r e)
              refl (rw (ready, timed_relay) at (rw (open_end, timed_relay) at h))
      ]
    ]
  where
    skip :
        e ≡ idle
        → IsIdle idle_timeout last r.a_done r.b_done later
        → IsIdle idle_timeout last r.a_done r.b_done ((now, e) ∷ later)
    skip same i =
        subst (λ e. IsIdle idle_timeout last r.a_done r.b_done ((now, e) ∷ later)) (sym same)
          (behind idle_timeout last now idle r.a_done r.b_done later i)

    fires :
        is_early e now (last + idle_timeout) ≡ false
        → e ≡ idle
        → IsIdle idle_timeout last r.a_done r.b_done ((now, e) ∷ later)
    fires ready same = record {
      before = [];
      at = now;
      after = later;
      parts = ap (λ e. (now, e) ∷ later) same;
      elapsed =
          ltb-false _ _ (subst (λ e. is_early e now (last + idle_timeout) ≡ false) same ready);
    }

    round :
        is_early e now (last + idle_timeout) ≡ false
        → ((last' : ℕ) (r' : Relay)
            → timed_relay idle_timeout (last' + idle_timeout) r' later ≡ failed Error.relay_idle
            → IsIdle idle_timeout last' r'.a_done r'.b_done later)
        → (m : Outcome Relay) → select r e ≡ m
        → (elim (select r e) as (λ _. Outcome Relay) [
          | failed x ↦ failed x
          | waiting ↦ waiting
          | done r' ↦
              timed_relay idle_timeout
                (next_deadline idle_timeout now e r (last + idle_timeout))
                r'
                later
        ])
          ≡ failed Error.relay_idle
        → IsIdle idle_timeout last r.a_done r.b_done ((now, e) ∷ later)
    round ready rest waiting s q = cc (rw s at q)
    round ready rest (failed x) s q =
        let timer : Rounds r e (failed x) = subst (Rounds r e) s (select-Rounds r e) in
        fires ready (timer (same_error (rw s at q)))
    round ready rest (done r') s q =
        let flags : Rounds r e (done r') = subst (Rounds r e) s (select-Rounds r e) in
        behind idle_timeout last now e r.a_done r.b_done later (
          subst₂ (λ a b. IsIdle idle_timeout (moved_at now e r.a_done r.b_done last) a b later)
            flags.0 flags.1
            (rest (moved_at now e r.a_done r.b_done last) r' (
              subst (λ d. timed_relay idle_timeout d r' later ≡ failed Error.relay_idle)
                (next_deadline-moved_at idle_timeout now last e r) (rw s at q))))
