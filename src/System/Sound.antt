-- ===== src/System/Sound.antt =====
-- src/main.rs: what holds of the running program, in every state that it reaches.
use nyasniproxy.Base.{
  ℕ, ◌+◌, true, false, List, [], ◌∷◌, ◌++◌, Option, none, some, Bytes, ok, ◌≡◌, refl, sym, ap, ◌∙◌,
  arith, length, length-append, All, All-append, subst, is_empty, if-elim, ◌==◌,
}
use nyasniproxy.Hosts.{Disk}
use nyasniproxy.Config.{StaticSettings}
use nyasniproxy.Watchdog.{beat, stalled_for}
use nyasniproxy.Reload.{Libraries}
use nyasniproxy.Reload.Bounded.{IsWithin, reload_once-IsWithin, fetch_with_hard_timeout-IsWithin}
use nyasniproxy.Reload.Serves.{Serves, reload_once-Serves, Serves-lookup}
use nyasniproxy.Server.Accept.{max_connections, spawn_connection, drop_permit}
use nyasniproxy.Server.Accept.Limit.{spawn_connection-Balanced, drop_permit-Balanced}
use nyasniproxy.Router.{lookup}
use nyasniproxy.Startup.{Cli, Boot, Started, new_slots, startup}
use nyasniproxy.Startup.Outcome.{Starts, startup-Starts}
use nyasniproxy.System.{
  Client, Task, System, launch, accept_client, put_back, watch_heartbeat, Step, accepts,
  accept_fails, ticks, goes_on, reloads, watches, Reach, here, next,
}
use nyasniproxy.System.Tasks.{IsServed, WhileOpen, advance_task-WhileOpen}

-- What holds of the running program.
pub record IsSound (lib : Libraries) (base64 : Bytes → Bytes) (s : System) : Type 0 where
  pub serves : Serves lib s.app
  pub within : IsWithin s.app.slots
  pub balanced : s.gate.permits + s.gate.active ≡ max_connections
  pub active_tasks : s.gate.active ≡ length s.tasks
  pub tasks_served : All (IsServed lib base64) s.tasks
  pub quiet : s.running ≡ true → s.gate.fired ≡ false

All-at :
    (P : Task → Type 0) (before : List Task) (t : Task) (after : List Task)
    → All P (before ++ (t ∷ after))
    → All P before × P t × All P after
All-at P [] t after h = (tt, h.0, h.1)
All-at P (b ∷ before) t after h =
    let (front, own, back) = All-at P before t after h.1 in ((h.0, front), own, back)

length-around :
    (before : List Task) (t : Task) (after : List Task) {n : ℕ}
    → n ≡ length (before ++ (t ∷ after))
    → n ≡ length (before ++ after) + 1
length-around before t after e =
    omega (arith, e, length-append before (t ∷ after), length-append before after)

module _ (lib : Libraries) (base64 : Bytes → Bytes) where
  accept_client-IsSound :
      (now : ℕ) (c : Client) (s : System)
      → IsSound lib base64 s
      → IsSound lib base64 (accept_client now c s)
  unfolding accept_client spawn_connection
  accept_client-IsSound now c s h =
      if-elim (IsSound lib base64) (s.gate.permits == 0) _ _
        (λ full. record {
          serves = h.serves;
          within = h.within;
          balanced = h.balanced;
          active_tasks = h.active_tasks;
          tasks_served = h.tasks_served;
          quiet = h.quiet;
        })
        (λ room. record {
          serves = h.serves;
          within = h.within;
          balanced = spawn_connection-Balanced (record s.gate { heartbeat = beat now }) h.balanced;
          active_tasks = rw room (omega (arith, h.active_tasks));
          tasks_served = (tt, h.tasks_served);
          quiet = λ runs. rw room (h.quiet runs);
        })

  at_tasks :
      (s : System) {tasks : List Task}
      → IsSound lib base64 s
      → s.tasks ≡ tasks
      → All (IsServed lib base64) tasks
  at_tasks s h e = subst (All (IsServed lib base64)) e h.tasks_served

  put_back-IsSound :
      (before after : List Task) (t : Task) (o : Option Task) (s : System)
      → IsSound lib base64 s
      → s.tasks ≡ before ++ (t ∷ after)
      → WhileOpen lib base64 o
      → IsSound lib base64 (put_back before o after s)
  unfolding put_back drop_permit
  put_back-IsSound before after t (some u) s h e v =
      let (front, gone, back) = All-at (IsServed lib base64) before t after (at_tasks s h e) in
      record {
        serves = h.serves;
        within = h.within;
        balanced = h.balanced;
        active_tasks = omega (
          arith,
          h.active_tasks,
          ap length e,
          length-append before (t ∷ after),
          length-append before (u ∷ after),
        );
        tasks_served = All-append (IsServed lib base64) before (u ∷ after) front (v, back);
        quiet = h.quiet;
      }
  put_back-IsSound before after t none s h e v =
      let (front, gone, back) = All-at (IsServed lib base64) before t after (at_tasks s h e) in
      let count = length-around before t after (h.active_tasks ∙ ap length e) in
      let busy : (s.gate.active == 0) ≡ false = ground (arith, count) in
      record {
        serves = h.serves;
        within = h.within;
        balanced = drop_permit-Balanced s.gate h.balanced;
        active_tasks = rw busy (omega (arith, count));
        tasks_served = All-append (IsServed lib base64) before after front back;
        quiet = λ runs. rw busy (h.quiet runs);
      }

  watch_heartbeat-IsSound :
      (stall_timeout now : ℕ) (s : System)
      → IsSound lib base64 s
      → IsSound lib base64 (watch_heartbeat stall_timeout now s)
  unfolding watch_heartbeat
  watch_heartbeat-IsSound stall_timeout now s h =
      if-elim (IsSound lib base64) (stalled_for s.gate.heartbeat now stall_timeout) _ _
        (λ late. record {
          serves = h.serves;
          within = h.within;
          balanced = h.balanced;
          active_tasks = h.active_tasks;
          tasks_served = h.tasks_served;
          quiet = λ runs. cc;
        })
        (λ _. h)

  launch-IsSound :
      (now : ℕ) (s : Started)
      → Serves lib s.app
      → IsWithin s.app.slots
      → IsSound lib base64 (launch now s)
  launch-IsSound now s v w = record {
    serves = v;
    within = w;
    balanced = refl;
    active_tasks = refl;
    tasks_served = tt;
    quiet = λ runs. refl;
  }

module _ (lib : Libraries) (settings : StaticSettings) (base64 : Bytes → Bytes) (limit : ℕ) where
  Step-IsSound :
      {s u : System}
      → Step lib settings base64 limit s u
      → IsSound lib base64 s
      → IsSound lib base64 u
  Step-IsSound (accepts now c s runs) h = accept_client-IsSound lib base64 now c s h
  Step-IsSound (accept_fails s runs) h = record {
    serves = h.serves;
    within = h.within;
    balanced = h.balanced;
    active_tasks = h.active_tasks;
    tasks_served = h.tasks_served;
    quiet = λ e. cc;
  }
  Step-IsSound (ticks now s runs) h = record {
    serves = h.serves;
    within = h.within;
    balanced = h.balanced;
    active_tasks = h.active_tasks;
    tasks_served = h.tasks_served;
    quiet = h.quiet;
  }
  Step-IsSound (goes_on before after t e s runs at) h =
      let (front, own, back) =
        All-at (IsServed lib base64) before t after (at_tasks lib base64 s h at) in
      put_back-IsSound lib base64 before after t _ s h at
        (advance_task-WhileOpen lib base64 s.app e t h.serves own)
  Step-IsSound (reloads p s runs few) h = record {
    serves = reload_once-Serves lib settings p s.app h.serves;
    within = reload_once-IsWithin lib settings p s.app h.within;
    balanced = h.balanced;
    active_tasks = h.active_tasks;
    tasks_served = h.tasks_served;
    quiet = h.quiet;
  }
  Step-IsSound (watches now s runs) h = watch_heartbeat-IsSound lib base64 limit now s h

  Reach-IsSound :
      {s u : System}
      → IsSound lib base64 s
      → Reach lib settings base64 limit s u
      → IsSound lib base64 u
  Reach-IsSound h here = h
  Reach-IsSound h (next r st) = Step-IsSound st (Reach-IsSound h r)

-- In every state that a program that has started reaches, however its accepts, ticks, connections,
-- reloads and polls of the watchdog interleave: the runtime that it serves is built from a
-- configuration that was accepted, and has a proxy to try for every host; at most two fetches are in
-- flight; every permit is free or held by the task of a connection, so that there are at most 1024
-- tasks; every task that has looked up its proxies has those that an accepted configuration names
-- for the host that the client asks for; every task that relays has a tunnel that the first of them
-- that accepts has granted, and that has been sent the bytes read for the target, and its two counts
-- are the lengths of what it has relayed; and the watchdog has not fired while the process runs.
pub startup-IsSound :
    (b : Boot) (cli : Cli) (base64 : Bytes → Bytes) (limit now : ℕ) {s : Started} {d : Disk}
    {u : System}
    → startup b cli ≡ (ok s, d)
    → Reach b.lib s.settings base64 limit (launch now s) u
    → IsSound b.lib base64 u
      × ((host : Bytes) → is_empty (lookup u.app.runtime.router host) ≡ false)
startup-IsSound b cli base64 limit now {s} {d} {u} e r =
    let v : Starts b cli (ok s, d) = subst (Starts b cli) e (startup-Starts b cli) in
    let sound : IsSound b.lib base64 u =
      Reach-IsSound b.lib s.settings base64 limit
        (launch-IsSound b.lib base64 now s v.0.serves (
          subst IsWithin (sym v.0.slots_are)
            (fetch_with_hard_timeout-IsWithin new_slots b.spawned b.reply (refl, omega arith))))
        r in
    (sound, λ host. Serves-lookup b.lib u.app host sound.serves)
