-- ===== src/System/Tasks.antt =====
-- src/main.rs: what the parts of `handle_connection` come to, while the configuration is reloaded.
use nyasniproxy.Base.{
  ◌&&◌, List, [], ◌∷◌, ◌++◌, Option, none, some, Bytes, Result, ok, err, ◌≡◌, refl, sym, append-nil,
  arith, length, subst, bind-eq-ok, if-elim,
}
use nyasniproxy.Base.Stream.{Read, Outcome, done, failed, waiting, received}
use nyasniproxy.Target.{Target}
use nyasniproxy.Proxy.Tunnel.{ProxyStream, write_all}
use nyasniproxy.Proxy.Connect.{connect}
use nyasniproxy.Proxy.Connect.Tunnels.{connect-TunnelOf}
use nyasniproxy.Router.{Hop, Router, connect_with_fallback}
use nyasniproxy.Router.Fallback.{IsFirst, TriesInOrder, connect_with_fallback-TriesInOrder}
use nyasniproxy.Reload.{Libraries, App}
use nyasniproxy.Reload.Serves.{Serves}
use nyasniproxy.Server.{read_target, Opened, after_write, Event, Relay, select}
use nyasniproxy.Server.Delivery.{Delivers, Passes, select-Passes}
use nyasniproxy.Server.Open.{Asks, read_target-Asks, after_write-ok}
use nyasniproxy.Session.{IsRouted, IsConveyed, Serves-IsRouted}
use nyasniproxy.System.{
  Client, Task, reading, routed, relaying, blocked, look_up, start_relay, next_round, advance_task,
}

-- What the client has asked for, and the proxies that an accepted configuration names for it.
pub record IsLookedUp (lib : Libraries) (c : Client) (target : Target) (initial : Bytes)
    (rest : List Read) (hops : List Hop) : Type 0 where
  pub asked : Asks c.protocol (received c.reads) target
  pub conserved : initial ++ received rest ≡ received c.reads
  pub named : IsRouted lib target.host hops

-- The two counts of a relay are the lengths of what has been sent.
pub record IsCounted (r : Relay) : Type 0 where
  pub counted_b : r.a_to_b ≡ length r.sent_b
  pub counted_a : r.b_to_a ≡ length r.sent_a

passes_nothing : (r : Relay) → Delivers r [] r
passes_nothing r = record {
  to_b = sym (append-nil r.sent_b);
  to_a = sym (append-nil r.sent_a);
  counted_b = refl;
  counted_a = refl;
}

select-IsCounted :
    (r : Relay) (e : Event) {r1 : Relay} → IsCounted r → select r e ≡ done r1 → IsCounted r1
select-IsCounted r e {r1} k selected =
    let d : Delivers r (e ∷ []) r1 =
      (subst (Passes r e [] r1) selected (select-Passes r e [] r1)) (passes_nothing r1) in
    record {
      counted_b = omega (arith, d.counted_b, k.counted_b);
      counted_a = omega (arith, d.counted_a, k.counted_a);
    }

module _ (lib : Libraries) (base64 : Bytes → Bytes) where
  -- What holds of a task, in each of its parts.
  abbrev pub IsServed : Task → Type 0
  IsServed (reading c) = Unit
  IsServed (routed c target initial rest hops) = IsLookedUp lib c target initial rest hops
  IsServed (blocked c o r) = IsConveyed lib base64 c.protocol c.attempts c.reads o × IsCounted r
  IsServed (relaying c o r) = IsConveyed lib base64 c.protocol c.attempts c.reads o × IsCounted r

  abbrev pub WhileOpen : Option Task → Type 0
  WhileOpen none = Unit
  WhileOpen (some t) = IsServed t

  -- A tunnel that opens for proxies that were looked up before.
  IsLookedUp-IsConveyed :
      (c : Client) (target : Target) (initial : Bytes) (rest : List Read) (hops : List Hop)
      (s : ProxyStream) {o : Opened}
      → IsLookedUp lib c target initial rest hops
      → connect_with_fallback base64 c.attempts hops target ≡ ok s
      → after_write target initial rest (write_all initial s) ≡ ok o
      → IsConveyed lib base64 c.protocol c.attempts c.reads o
  IsLookedUp-IsConveyed c target initial rest hops s l connected written =
      let f : IsFirst base64 c.attempts target 0 hops s =
        subst (TriesInOrder base64 c.attempts target 0 hops) connected
          (connect_with_fallback-TriesInOrder base64 c.attempts hops target) in
      let (same, out, left) = after_write-ok target initial rest s written in
      subst (IsConveyed lib base64 c.protocol c.attempts c.reads) same (record {
        asked = l.asked;
        hops = hops;
        routed = l.named;
        before = f.before;
        hop = f.hop;
        after = f.after;
        parts = f.parts;
        refused = f.refused;
        tunnel = s;
        granted = connect-TunnelOf base64 (Hop.proxy f.hop) target (c.attempts (length f.before)) (
            subst (λ n. connect base64 (Hop.proxy f.hop) target (c.attempts n) ≡ ok s) (omega arith)
              f.accepted);
        forwarded = out;
        conserved = l.conserved;
        unread = left;
      })

  look_up-WhileOpen :
      (a : App) (c : Client) (m : Result (Target × Bytes × List Read))
      → Serves lib a
      → read_target c.protocol c.reads ≡ m
      → WhileOpen (look_up a.runtime.router c m)
  unfolding look_up
  look_up-WhileOpen a c (err e) s read = tt
  look_up-WhileOpen a c (ok (target, initial, rest)) s read =
      let (asks, all_bytes) = read_target-Asks c.protocol c.reads read in
      record { asked = asks; conserved = all_bytes; named = Serves-IsRouted lib a target.host s }

  start_relay-WhileOpen :
      (c : Client) (m : Result Opened)
      → ((o : Opened) → m ≡ ok o → IsConveyed lib base64 c.protocol c.attempts c.reads o)
      → WhileOpen (start_relay c m)
  unfolding start_relay
  start_relay-WhileOpen c (err e) conveys = tt
  start_relay-WhileOpen c (ok o) conveys =
      (conveys o refl, record { counted_b = refl; counted_a = refl })

  next_round-WhileOpen :
      (c : Client) (o : Opened) (r : Relay) (m : Outcome Relay)
      → IsConveyed lib base64 c.protocol c.attempts c.reads o × IsCounted r
      → ((r' : Relay) → m ≡ done r' → IsCounted r')
      → WhileOpen (next_round c o r m)
  unfolding next_round
  next_round-WhileOpen c o r (failed e) v counts = tt
  next_round-WhileOpen c o r (done r') v counts = (v.0, counts r' refl)
  next_round-WhileOpen c o r waiting v counts = v

  pub advance_task-WhileOpen :
      (a : App) (e : Event) (t : Task)
      → Serves lib a
      → IsServed t
      → WhileOpen (advance_task base64 a.runtime.router e t)
  unfolding advance_task
  advance_task-WhileOpen a e (reading c) s v = look_up-WhileOpen a c _ s refl
  advance_task-WhileOpen a e (routed c target initial rest hops) s v =
      start_relay-WhileOpen c _ (λ o opened.
        let (upstream, connected, written) =
          bind-eq-ok (connect_with_fallback base64 c.attempts hops target) _ opened in
        IsLookedUp-IsConveyed c target initial rest hops upstream v connected written)
  advance_task-WhileOpen a e (blocked c o r) s v = v
  advance_task-WhileOpen a e (relaying c o r) s v =
      if-elim WhileOpen (r.a_done && r.b_done) _ _ (λ _. tt)
        (λ _.
          next_round-WhileOpen c o r (select r e) v
            (λ r1 selected. select-IsCounted r e v.1 selected))

-- The next part of a task that has not ended.
abbrev pub go_on : (Bytes → Bytes) → Router → Event → Option Task → Option Task
go_on base64 router e none = none
go_on base64 router e (some t) = advance_task base64 router e t
