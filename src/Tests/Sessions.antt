-- ===== src/Tests/Sessions.antt =====
-- src/watchdog.rs, src/main.rs and `connect_with_fallback` on concrete runs.
use nyasniproxy.Base.{
  ℕ, zero, suc, true, false, List, [], ◌∷◌, none, Bytes, codes, ◌≡◌, refl, arith,
}
use nyasniproxy.Base.Stream.{Read, got, done, waiting}
use nyasniproxy.Target.{Target}
use nyasniproxy.Proxy.{ProxyKind}
use nyasniproxy.Proxy.Wire.{Wire, takes}
use nyasniproxy.Proxy.Connect.{Attempt}
use nyasniproxy.Router.{Hop, Router, connect_with_fallback}
use nyasniproxy.Router.Fallback.{TriesInOrder, connect_with_fallback-TriesInOrder}
use nyasniproxy.Watchdog.{beat, spawn_watchdog, spawn_watchdog-IsFresh, spawn_watchdog-stalled}
use nyasniproxy.Server.Accept.{Gate, Turn, accepted, tick, finished, watchdog_poll, accept_loop}
use nyasniproxy.Server.Accept.Limit.{IsLimited, accept_loop-IsLimited}
use nyasniproxy.Server.Accept.Alive.{accept_loop-alive}
use nyasniproxy.Server.Accept.Stalled.{accept_loop-stalled}

abbrev hop : Bytes → Hop
hop name = record {
  name = name;
  proxy = record {
    kind = ProxyKind.http;
    host = name;
    port = 80;
    username = none;
    password = none;
    tls_connector = false;
  };
}

abbrev router : Router
router = record { rules = []; default = hop (codes "p") ∷ hop (codes "q") ∷ [] }

abbrev pub wire : List Read → Wire
wire reads = record {
  reads = reads;
  rooms = takes 1000 ∷ takes 20 ∷ takes 1000 ∷ takes 9 ∷ [];
  on_flush = done tt;
  on_shutdown = done tt;
  output = [];
  shut = false;
}

abbrev pub same_text : Bytes → Bytes
same_text s = s

-- The first attempt does not connect.
abbrev attempts : ℕ → Attempt
attempts zero = record {
  tcp = waiting;
  valid_server_name = true;
  tls = waiting;
  wire = wire [];
  conn = record { input = []; closed = true; writable = true; output = [] };
}
attempts (suc n) = record {
  tcp = done tt;
  valid_server_name = true;
  tls = waiting;
  wire = wire (got (codes "HTTP/1.1 200 OK\r\n\r\nhi") ∷ []);
  conn = record { input = []; closed = true; writable = true; output = [] };
}

abbrev pub target : Target
target = record { host = codes "a.b"; port = 80 }

connect_with_fallback-TriesInOrder_example :
    TriesInOrder same_text attempts target 0 router.default
      (connect_with_fallback same_text attempts router.default target)
connect_with_fallback-TriesInOrder_example =
    connect_with_fallback-TriesInOrder same_text attempts router.default target

abbrev pub request : Bytes
request = codes "GET / HTTP/1.1\r\nHost: a.b\r\n\r\n"

-- Two connections, one of which ends, between two ticks and two polls of the watchdog.
abbrev turns : List Turn
turns =
    accepted 5000000 true
    ∷ accepted 6000000 true
    ∷ watchdog_poll 90000000
    ∷ tick 95000000
    ∷ finished
    ∷ watchdog_poll 190000000
    ∷ []

abbrev last_gate : Gate
last_gate = record { permits = 1023; active = 1; heartbeat = beat 95000000; fired = false }

accept_loop-IsLimited_example : IsLimited 150000000 last_gate
unfolding accept_loop nyasniproxy.Watchdog.stalled_for beat
accept_loop-IsLimited_example = accept_loop-IsLimited 150000000 turns 0 refl

-- No tick comes for 400 ms.
abbrev late_turns : List Turn
late_turns = accepted 5000000 true ∷ watchdog_poll 90000000 ∷ watchdog_poll 400000000 ∷ []

abbrev stalled_gate : Gate
stalled_gate = record { permits = 1023; active = 1; heartbeat = beat 5000000; fired = true }

accept_loop-stalled_example : stalled_gate.fired ≡ true
unfolding accept_loop nyasniproxy.Watchdog.stalled_for beat
accept_loop-stalled_example = accept_loop-stalled 150000000 late_turns 0 refl refl

accept_loop-alive_example : last_gate.fired ≡ false
unfolding accept_loop nyasniproxy.Watchdog.stalled_for beat
accept_loop-alive_example =
    accept_loop-alive 150000000 turns 0 (omega arith)
      (omega arith, (omega arith, (omega arith, (omega arith, (omega arith, tt))))) refl
