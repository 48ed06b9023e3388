-- ===== src/Server/Accept.antt =====
-- src/main.rs: the accept loops, with their limit of connections and their heartbeat, beside the
-- watchdog's thread (src/watchdog.rs).
pub mod Limit
pub mod Alive
pub mod Stalled
use nyasniproxy.Base.{
  ℕ, ◌+◌, ◌-◌, ◌*◌, ◌≤◌, ◌<◌, Bool, true, false, ◌||◌, List, [], ◌∷◌, Result, Error, ok, err, ◌>>=◌,
  ◌≡◌, refl, ap, ◌∙◌, arith, ◌==◌, if◌then◌else◌, bind-eq-ok, if-elim, subst,
}
use nyasniproxy.Watchdog.{Heartbeat, beat, stalled_for, nanos_per_milli, fresh-alive}

abbrev pub max_connections : ℕ
max_connections = 1024

-- What the loops and the thread share: the permits of the semaphore, the connections that hold
-- one, the heartbeat, and whether the watchdog has fired.
pub record Gate : Type 0 where
  pub permits : ℕ
  pub active : ℕ
  pub heartbeat : Heartbeat
  pub fired : Bool

abbrev pub open_gate : ℕ → Gate
open_gate now = record {
  permits = max_connections;
  active = 0;
  heartbeat = beat now;
  fired = false;
}

-- What happens next, at a time: `accept` returns with a connection or an error, the interval of a
-- loop ticks, a connection ends, the watchdog polls.
pub data Turn : Type 0 where
  accepted : ℕ → Bool → Turn
  tick : ℕ → Turn
  finished : Turn
  watchdog_poll : ℕ → Turn

-- `try_acquire_owned`: the permit moves into the task of the connection.
unfoldable pub spawn_connection : Gate → Gate
spawn_connection g =
    if g.permits == 0 then g else record g { permits = g.permits - 1; active = g.active + 1 }

-- The drop of a permit at the end of a task.
unfoldable pub drop_permit : Gate → Gate
drop_permit g =
    if g.active == 0 then g else record g { permits = g.permits + 1; active = g.active - 1 }

unfoldable pub accept_turn : ℕ → Turn → Gate → Result Gate
unfolding spawn_connection drop_permit
accept_turn stall_timeout (accepted now true) g =
    ok (spawn_connection (record g { heartbeat = beat now }))
accept_turn stall_timeout (accepted now false) g = err Error.accept_failed
accept_turn stall_timeout (tick now) g = ok (record g { heartbeat = beat now })
accept_turn stall_timeout finished g = ok (drop_permit g)
accept_turn stall_timeout (watchdog_poll now) g =
    ok (record g { fired = g.fired || stalled_for g.heartbeat now stall_timeout })

unfoldable pub accept_loop : ℕ → List Turn → Gate → Result Gate
unfolding accept_turn
accept_loop stall_timeout [] g = ok g
accept_loop stall_timeout (t ∷ turns) g = do
  g' ← accept_turn stall_timeout t g
  accept_loop stall_timeout turns g'
