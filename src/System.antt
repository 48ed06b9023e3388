-- ===== src/System.antt =====
-- src/main.rs: the running program, its accept loops, connections, reloads and watchdog, interleaved.
pub mod Tasks
pub mod Sound
pub mod Turns
use nyasniproxy.Base.{
  ℕ, ◌+◌, ◌≤◌, Bool, true, false, not, ◌&&◌, List, [], ◌∷◌, ◌++◌, Option, none, some, Bytes, Result,
  Error, ok, err, ◌>>=◌, ◌≡◌, ◌==◌, if◌then◌else◌,
}
use nyasniproxy.Base.Stream.{Read, Outcome, done, failed, waiting}
use nyasniproxy.Target.{Target}
use nyasniproxy.Proxy.Tunnel.{write_all}
use nyasniproxy.Proxy.Connect.{Attempt}
use nyasniproxy.Config.{StaticSettings}
use nyasniproxy.Router.{Hop, Router, lookup, connect_with_fallback}
use nyasniproxy.Watchdog.{beat, stalled_for}
use nyasniproxy.Reload.{Libraries, App, Poll, drop_guards, reload_once}
use nyasniproxy.Server.{
  InboundProtocol, read_target, Opened, after_write, Event, Relay, start, select,
}
use nyasniproxy.Server.Accept.{Gate, open_gate, spawn_connection, drop_permit}
use nyasniproxy.Startup.{Started}

-- A client: the listener that it comes through, what it sends, and what the attempts to reach its
-- target meet.
pub record Client : Type 0 where
  pub protocol : InboundProtocol
  pub reads : List Read
  pub attempts : ℕ → Attempt

-- Where the task of a connection is: it reads the target, it has looked up its proxies, it
-- relays, or it awaits a write of the relay that never ends.
pub data Task : Type 0 where
  reading : Client → Task
  routed : Client → Target → Bytes → List Read → List Hop → Task
  relaying blocked : Client → Opened → Relay → Task

-- `runtime.borrow()`, at the time when the target has been read.
look_up : Router → Client → Result (Target × Bytes × List Read) → Option Task
look_up router c (err e) = none
look_up router c (ok (target, initial, rest)) =
    some (routed c target initial rest (lookup router target.host))

pub start_relay : Client → Result Opened → Option Task
start_relay c (err e) = none
start_relay c (ok o) = some (relaying c o start)

next_round : Client → Opened → Relay → Outcome Relay → Option Task
next_round c o r (failed e) = none
next_round c o r (done r') = some (relaying c o r')
next_round c o r waiting = some (blocked c o r)

-- The next part of `handle_connection`, `none` at its end; the event is for a task that relays.
unfoldable pub advance_task : (Bytes → Bytes) → Router → Event → Task → Option Task
unfolding look_up start_relay next_round
advance_task base64 router e (reading c) = look_up router c (read_target c.protocol c.reads)
advance_task base64 router e (routed c target initial rest hops) = start_relay c (do
  upstream ← connect_with_fallback base64 c.attempts hops target
  after_write target initial rest (write_all initial upstream))
advance_task base64 router e (relaying c o r) =
    if r.a_done && r.b_done then none else next_round c o r (select r e)
advance_task base64 router e (blocked c o r) = some (blocked c o r)

-- The program: what the reload loop holds, what the accept loops and the watchdog share, and the
-- tasks of the connections.
pub record System : Type 0 where
  pub app : App
  pub gate : Gate
  pub tasks : List Task
  pub running : Bool

-- The program at the start of its loops.
abbrev pub launch : ℕ → Started → System
launch now s = record { app = s.app; gate = open_gate now; tasks = []; running = true }

-- `accept` returns a connection, which is turned away if no permit is left.
unfoldable pub accept_client : ℕ → Client → System → System
accept_client now c s =
    if s.gate.permits == 0
    then record s { gate = record s.gate { heartbeat = beat now } }
    else record s {
      gate = spawn_connection (record s.gate { heartbeat = beat now });
      tasks = reading c ∷ s.tasks;
    }

-- A task is in the middle of the list; at its end it drops its permit.
unfoldable pub put_back : List Task → Option Task → List Task → System → System
put_back before (some t) after s = record s { tasks = before ++ (t ∷ after) }
put_back before none after s = record s { gate = drop_permit s.gate; tasks = before ++ after }

-- A poll of the watchdog, which ends the process if the heartbeat is too old.
unfoldable pub watch_heartbeat : ℕ → ℕ → System → System
watch_heartbeat stall_timeout now s =
    if stalled_for s.gate.heartbeat now stall_timeout
    then record s { gate = record s.gate { fired = true }; running = false }
    else s

-- What may happen next, while the process runs.
pub data Step (lib : Libraries) (settings : StaticSettings) (base64 : Bytes → Bytes)
    (stall_timeout : ℕ) : System → System → Type 0 where
  accepts :
      (now : ℕ) (c : Client) (s : System)
      → s.running ≡ true
      → Step lib settings base64 stall_timeout s (accept_client now c s)
  -- `result?` ends the loops, and with them the process
  accept_fails :
      (s : System)
      → s.running ≡ true
      → Step lib settings base64 stall_timeout s (record s { running = false })
  ticks :
      (now : ℕ) (s : System)
      → s.running ≡ true
      → Step lib settings base64 stall_timeout s
          (record s { gate = record s.gate { heartbeat = beat now } })
  goes_on :
      (before after : List Task) (t : Task) (e : Event) (s : System)
      → s.running ≡ true
      → s.tasks ≡ before ++ (t ∷ after)
      → Step lib settings base64 stall_timeout s
          (put_back before (advance_task base64 s.app.runtime.router e t) after s)
  reloads :
      (p : Poll) (s : System)
      → s.running ≡ true
      → p.ended ≤ s.app.slots.current
      → Step lib settings base64 stall_timeout s
          (record s { app = reload_once lib settings p (drop_guards p.ended s.app) })
  watches :
      (now : ℕ) (s : System)
      → s.running ≡ true
      → Step lib settings base64 stall_timeout s (watch_heartbeat stall_timeout now s)

pub data Reach (lib : Libraries) (settings : StaticSettings) (base64 : Bytes → Bytes)
    (stall_timeout : ℕ) (s : System) : System → Type 0 where
  here : Reach lib settings base64 stall_timeout s s
  next :
      {t u : System}
      → Reach lib settings base64 stall_timeout s t
      → Step lib settings base64 stall_timeout t u
      → Reach lib settings base64 stall_timeout s u
