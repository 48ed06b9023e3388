-- ===== src/Server/Idle/Untimed.antt =====
-- src/main.rs: the loop with its timer is the loop of the relay.
use nyasniproxy.Base.{
  ℕ, true, false, ◌&&◌, List, [], ◌∷◌, Error, ◌≡◌, refl, sym, ◌∙◌, inl, inr, Bool-cases,
}
use nyasniproxy.Base.Stream.{Outcome-cases, done, failed, waiting}
use nyasniproxy.Server.{Event, Relay, select, relay}
use nyasniproxy.Server.Idle.{Timed, next_deadline, is_early, timed_relay, fired}

relay-over : (r : Relay) (es : List Event) → (r.a_done && r.b_done) ≡ true → relay r es ≡ done r
unfolding relay
relay-over r [] h = rw (h, relay) refl
relay-over r (e ∷ es) h = rw (h, relay) refl

relay-fails :
    (r : Relay) (e : Event) (es : List Event) {x : Error}
    → (r.a_done && r.b_done) ≡ false
    → select r e ≡ failed x
    → relay r (e ∷ es) ≡ failed x
unfolding relay
relay-fails r e es h k = rw (h, relay) (rw (k, relay) refl)

relay-goes :
    (r : Relay) (e : Event) (es : List Event) {r' : Relay}
    → (r.a_done && r.b_done) ≡ false
    → select r e ≡ done r'
    → relay r (e ∷ es) ≡ relay r' es
unfolding relay
relay-goes r e es h k = rw (h, relay) (rw (k, relay) refl)

relay-waits :
    (r : Relay) (e : Event) (es : List Event)
    → (r.a_done && r.b_done) ≡ false
    → select r e ≡ waiting
    → relay r (e ∷ es) ≡ waiting
unfolding relay
relay-waits r e es h k = rw (h, relay) (rw (k, relay) refl)

-- Without its clock the loop is `relay`, on the events less the wake-ups that come early.
timed_relay-relay :
    (idle_timeout deadline : ℕ) (es : Timed) (r : Relay)
    → timed_relay idle_timeout deadline r es ≡ relay r (fired idle_timeout deadline r es)
unfolding timed_relay relay fired
timed_relay-relay idle_timeout deadline [] r = refl
timed_relay-relay idle_timeout deadline ((now, e) ∷ later) r =
    elim (Bool-cases (r.a_done && r.b_done)) [
      | inl t ↦ rw (t, timed_relay) (sym (relay-over r _ t))
      | inr open_end ↦ elim (Bool-cases (is_early e now deadline)) [
        | inl early ↦
            rw (open_end, early, timed_relay, fired)
              (timed_relay-relay idle_timeout deadline later r)
        | inr ready ↦ elim (Outcome-cases (select r e)) [
          | inr (inr waits) ↦
              rw (open_end, timed_relay)
                (rw (ready, timed_relay, fired)
                  (rw (waits, timed_relay, fired) (sym (relay-waits r e [] open_end waits))))
          | inr (inl (x, fails)) ↦
              rw (open_end, timed_relay)
                (rw (ready, timed_relay, fired)
                  (rw (fails, timed_relay, fired) (sym (relay-fails r e [] open_end fails))))
          | inl (r', goes) ↦
              rw (open_end, timed_relay)
                (rw (ready, timed_relay, fired)
                  (rw (goes, timed_relay, fired)
                    (timed_relay-relay idle_timeout (next_deadline idle_timeout now e r deadline)
                        later r'
                      ∙ sym (relay-goes r e _ open_end goes))))
        ]
      ]
    ]
