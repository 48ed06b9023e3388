-- ===== src/Server/Accept/Limit.antt =====
-- src/main.rs: the limit of connections in the accept loops.
use nyasniproxy.Base.{
  ok_same, ℕ, ◌+◌, ◌-◌, ◌≤◌, ◌<◌, true, false, List, [], ◌∷◌, ok, ◌≡◌, refl, arith, ◌==◌,
  bind-eq-ok, if-elim, subst,
}
use nyasniproxy.Watchdog.{beat}
use nyasniproxy.Server.Accept.{
  max_connections, Gate, open_gate, Turn, accepted, tick, finished, watchdog_poll, spawn_connection,
  drop_permit, accept_turn, accept_loop,
}

-- Every permit is free or held by a connection.
abbrev pub Balanced : Gate → Type 0
Balanced g = g.permits + g.active ≡ max_connections

pub spawn_connection-Balanced : (g : Gate) → Balanced g → Balanced (spawn_connection g)
unfolding spawn_connection
spawn_connection-Balanced g h =
    if-elim Balanced (g.permits == 0) _ _ (λ _. h) (λ some_left. ground arith)

pub drop_permit-Balanced : (g : Gate) → Balanced g → Balanced (drop_permit g)
unfolding drop_permit
drop_permit-Balanced g h =
    if-elim Balanced (g.active == 0) _ _ (λ _. h) (λ some_active. ground arith)

accept_turn-Balanced :
    (limit : ℕ) (t : Turn) (g : Gate) {g' : Gate}
    → Balanced g
    → accept_turn limit t g ≡ ok g'
    → Balanced g'
unfolding accept_turn
accept_turn-Balanced limit (accepted now true) g h e =
    subst Balanced (ok_same e) (spawn_connection-Balanced (record g { heartbeat = beat now }) h)
accept_turn-Balanced limit (accepted now false) g h e = cc
accept_turn-Balanced limit (tick now) g h e = subst Balanced (ok_same e) h
accept_turn-Balanced limit finished g h e = subst Balanced (ok_same e) (drop_permit-Balanced g h)
accept_turn-Balanced limit (watchdog_poll now) g h e = subst Balanced (ok_same e) h

accept_loop-Balanced :
    (limit : ℕ) (turns : List Turn) (g : Gate) {g' : Gate}
    → Balanced g
    → accept_loop limit turns g ≡ ok g'
    → Balanced g'
unfolding accept_loop
accept_loop-Balanced limit [] g h e = subst Balanced (ok_same e) h
accept_loop-Balanced limit (t ∷ turns) g h e =
    let (mid, here, rest) = bind-eq-ok (accept_turn limit t g) _ e in
    accept_loop-Balanced limit turns mid (accept_turn-Balanced limit t g h here) rest

-- What a connection meets that `accept` returns at this gate.
pub record IsLimited (limit : ℕ) (g : Gate) : Type 0 where
  pub at_most : g.active ≤ max_connections
  pub balanced : Balanced g
  pub taken :
      (now : ℕ)
      → g.active < max_connections
      → accept_turn limit (accepted now true) g
        ≡ ok (record g { permits = g.permits - 1; active = g.active + 1; heartbeat = beat now })
  pub turned_away :
      (now : ℕ)
      → g.active ≡ max_connections
      → accept_turn limit (accepted now true) g ≡ ok (record g { heartbeat = beat now })

-- After any turns of the accept loops and the connections, at most 1024 connections are active, and
-- the permits that they do not hold are free; a further connection that `accept` returns is taken,
-- with a permit, while there are fewer, and is turned away when there are 1024; either beats the
-- heart and has no other effect.
pub accept_loop-IsLimited :
    (limit : ℕ) (turns : List Turn) (now : ℕ) {g : Gate}
    → accept_loop limit turns (open_gate now) ≡ ok g
    → IsLimited limit g
unfolding accept_turn spawn_connection
accept_loop-IsLimited limit turns now {g} e =
    let h : Balanced g = accept_loop-Balanced limit turns (open_gate now) refl e in
    record {
      at_most = omega (arith, h);
      balanced = h;
      taken = λ now few.
          let some_left : (g.permits == 0) ≡ false = ground (arith, h) in rw some_left refl;
      turned_away = λ now full.
          let none_left : (g.permits == 0) ≡ true = ground (arith, h) in rw none_left refl;
    }
