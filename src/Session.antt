-- ===== src/Session.antt =====
-- src/main.rs: one connection through the whole program, from the start and through any reloads.
pub mod Relayed
use nyasniproxy.Base.{ℕ, List, [], ◌∷◌, ◌++◌, some, Bytes, ok, ◌≡◌, length, subst, arith}
use nyasniproxy.Base.Stream.{Read, received}
use nyasniproxy.Proxy.{ProxyConfig}
use nyasniproxy.Proxy.Tunnel.{ProxyStream, inner, output}
use nyasniproxy.Proxy.Prefixed.{pending}
use nyasniproxy.Proxy.Connect.{Attempt, connect}
use nyasniproxy.Proxy.Connect.Tunnels.{TunnelOf, connect-TunnelOf}
use nyasniproxy.Config.{FileConfig}
use nyasniproxy.Config.Parse.{parse_yaml}
use nyasniproxy.Hosts.{Disk}
use nyasniproxy.Router.{Hop, lookup, load_proxies, resolve}
use nyasniproxy.Router.Routes.{route, from_yaml-route}
use nyasniproxy.Router.Fallback.{Refused}
use nyasniproxy.Reload.{Libraries, App}
use nyasniproxy.Reload.Loop.{Future, run_reload_loop}
use nyasniproxy.Reload.Serves.{Serves, run_reload_loop-Serves}
use nyasniproxy.Server.{InboundProtocol, Opened, handle_connection}
use nyasniproxy.Server.Open.{Asks, Opens, handle_connection-Opens}
use nyasniproxy.Startup.{Cli, Boot, Started, startup}
use nyasniproxy.Startup.Outcome.{Starts, startup-Starts}

-- The configuration that counts for a connection, and the proxies that it names for a host.
pub record IsRouted (lib : Libraries) (host : Bytes) (hops : List Hop) : Type 0 where
  pub config : FileConfig
  pub source_text : Bytes
  pub accepted : parse_yaml lib.read_document source_text ≡ ok config
  pub names : List Bytes
  pub rule : route config host ≡ some names
  pub proxies : List (Bytes × ProxyConfig)
  pub loaded : load_proxies lib.parse_url config.proxies [] ≡ ok proxies
  pub resolved : resolve proxies names ≡ ok hops

-- What a client's connection has come to.
pub record IsConveyed (lib : Libraries) (base64 : Bytes → Bytes) (protocol : InboundProtocol)
    (attempts : ℕ → Attempt) (reads : List Read) (o : Opened) : Type 0 where
  pub asked : Asks protocol (received reads) o.target
  pub hops : List Hop
  pub routed : IsRouted lib o.target.host hops
  -- the proxies in front of the one that has accepted
  pub before : List Hop
  pub hop : Hop
  pub after : List Hop
  pub parts : hops ≡ before ++ (hop ∷ after)
  pub refused : Refused base64 attempts o.target 0 before
  pub tunnel : ProxyStream
  pub granted : TunnelOf hop.proxy.kind base64 hop.proxy o.target (attempts (length before)) tunnel
  pub forwarded : output o.upstream ≡ output tunnel ++ o.initial
  pub conserved : o.initial ++ received o.rest ≡ received reads
  pub unread : pending (inner o.upstream) ≡ pending (inner tunnel)

pub Serves-IsRouted :
    (lib : Libraries) (a : App) (host : Bytes)
    → Serves lib a
    → IsRouted lib host (lookup a.runtime.router host)
Serves-IsRouted lib a host s =
    let (proxies, names, loaded, rule, resolved) =
      from_yaml-route lib.parse_url lib.finish s.config host s.served in
    record {
      config = s.config;
      source_text = s.source_text;
      accepted = s.accepted;
      names = names;
      rule = rule;
      proxies = proxies;
      loaded = loaded;
      resolved = resolved;
    }

Opens-IsConveyed :
    (lib : Libraries) (a : App) (base64 : Bytes → Bytes) (protocol : InboundProtocol)
    (attempts : ℕ → Attempt) (reads : List Read) (o : Opened)
    → Serves lib a
    → Opens base64 protocol a.runtime.router attempts reads o
    → IsConveyed lib base64 protocol attempts reads o
Opens-IsConveyed lib a base64 protocol attempts reads o s v = record {
  asked = v.asked;
  hops = lookup a.runtime.router o.target.host;
  routed = Serves-IsRouted lib a o.target.host s;
  before = v.routed.before;
  hop = v.routed.hop;
  after = v.routed.after;
  parts = v.routed.parts;
  refused = v.routed.refused;
  tunnel = v.tunnel;
  granted =
      connect-TunnelOf base64 v.routed.hop.proxy o.target (attempts (length v.routed.before)) (
        subst (λ n. connect base64 v.routed.hop.proxy o.target (attempts n) ≡ ok v.tunnel)
          (omega arith) v.routed.accepted);
  forwarded = v.forwarded;
  conserved = v.conserved;
  unread = v.unread;
}

-- In a program that has started, after any run of its reload loop, a connection that is opened goes
-- to the target that the client's own bytes ask for, through the first proxy that accepts of those
-- that the rules of an accepted configuration name for its host, in their order, after all in
-- front of it have refused; that proxy has granted the tunnel, and the tunnel has been sent the
-- bytes that the client has sent so far, which with those left to relay are all of them.
pub startup-IsConveyed :
    (b : Boot) (cli : Cli) (f : Future) (base64 : Bytes → Bytes) (protocol : InboundProtocol)
    (attempts : ℕ → Attempt) (reads : List Read) {s : Started} {d : Disk} {o : Opened}
    → startup b cli ≡ (ok s, d)
    → handle_connection base64 protocol
        (run_reload_loop b.lib s.settings f s.source s.app).runtime.router
        attempts
        reads
      ≡ ok o
    → IsConveyed b.lib base64 protocol attempts reads o
startup-IsConveyed b cli f base64 protocol attempts reads {s} {d} {o} e h =
    let v : Starts b cli (ok s, d) = subst (Starts b cli) e (startup-Starts b cli) in
    let a = run_reload_loop b.lib s.settings f s.source s.app in
    Opens-IsConveyed b.lib a base64 protocol attempts reads o
      (run_reload_loop-Serves b.lib s.settings f s.source s.app v.0.serves)
      (handle_connection-Opens base64 protocol a.runtime.router attempts reads h)
