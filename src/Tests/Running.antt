-- ===== src/Tests/Running.antt =====
-- src/main.rs: the running program on concrete values.
use nyasniproxy.Base.{
  ℕ, is_empty, Option, none, some, arith, true, false, List, [], ◌∷◌, ◌++◌, Bytes, codes, ok, ◌≡◌,
  refl, ap, ◌∙◌, bytes_eq,
}
use nyasniproxy.Base.Stream.{got}
use nyasniproxy.Watchdog.{watchdog_stall_timeout}
use nyasniproxy.Router.{lookup}
use nyasniproxy.Server.{http, idle}
use nyasniproxy.Server.Accept.{open_gate, accept_loop, watchdog_poll}
use nyasniproxy.Server.Accept.Alive.{Beats}
use nyasniproxy.System.{
  Client, Task, reading, routed, advance_task, System, launch, accept_client, put_back,
  watch_heartbeat, accepts, goes_on, watches, Reach, here, next,
}
use nyasniproxy.System.Sound.{IsSound, startup-IsSound}
use nyasniproxy.System.Turns.{ended_turn, turns, Reach-accept_loop}
use nyasniproxy.Base.{take, drop}
use nyasniproxy.Base.Stream.{Read, received}
use nyasniproxy.Proxy.HttpConnect.{connect_request}
use nyasniproxy.Proxy.Prefixed.{new}
use nyasniproxy.Proxy.Tunnel.{ProxyStream, plain, write_all}
use nyasniproxy.Proxy.Wire.{takes}
use nyasniproxy.Router.Fallback.{IsFirst}
use nyasniproxy.Server.{handle_connection, after_write}
use nyasniproxy.Base.{Error, ◌≢◌}
use nyasniproxy.Base.Stream.{failed, done}
use nyasniproxy.Server.{Event, start}
use nyasniproxy.Server.Idle.{Timed, timed_relay, IsIdle}
use nyasniproxy.Server.Idle.Ends.{timed_relay-IsIdle}
use nyasniproxy.Server.Reached.{SendsRequest, handle_connection-reaches}
use nyasniproxy.Router.{Router}
use nyasniproxy.Tests.Sessions.{wire}
use nyasniproxy.Tests.Settings.{jp, runtime}
use nyasniproxy.Tests.Loops.{boot, arguments, started, starts, libraries}
use nyasniproxy.Tests.Sessions.{same_text, target, request}
use nyasniproxy.Tests.Whole.{attempts, reads}

-- A client is accepted, its target is read, its tunnel is opened; then the watchdog polls.
abbrev client : Client
client = record { protocol = http; reads = reads; attempts = attempts }

abbrev launched : System
launched = launch 0 started

abbrev accepted_one : System
accepted_one = accept_client 5 client launched

abbrev looked_up : System
looked_up =
    put_back [] (advance_task same_text accepted_one.app.runtime.router idle (reading client)) []
      accepted_one

abbrev routed_one : Task
routed_one =
    routed client target request (got (codes "x") ∷ got [] ∷ [])
      (lookup runtime.router (codes "a.b"))

abbrev tunnelled : System
tunnelled =
    put_back [] (advance_task same_text looked_up.app.runtime.router idle routed_one) [] looked_up

abbrev watched_one : System
watched_one = watch_heartbeat watchdog_stall_timeout 7 tunnelled

one_task : accepted_one.tasks ≡ reading client ∷ []
unfolding accept_client
one_task = refl

accepted_runs : accepted_one.running ≡ true
unfolding accept_client
accepted_runs = refl

put_back-running : (o : Option Task) (s : System) → (put_back [] o [] s).running ≡ s.running
unfolding put_back
put_back-running none s = refl
put_back-running (some t) s = refl

put_back-tasks : (t : Task) (s : System) → (put_back [] (some t) [] s).tasks ≡ t ∷ []
unfolding put_back
put_back-tasks t s = refl

looks_up :
    advance_task same_text accepted_one.app.runtime.router idle (reading client) ≡ some routed_one
unfolding advance_task nyasniproxy.Server.read_target nyasniproxy.Http.read_http_target
    nyasniproxy.Http.read_until_header_end nyasniproxy.Http.header_end bytes_eq
    nyasniproxy.Http.parse_http_host nyasniproxy.Base.Utf8.is_utf8 nyasniproxy.Base.Text.split_crlf
    nyasniproxy.Base.Text.split_once nyasniproxy.Base.eq_ignore_ascii_case
    nyasniproxy.Base.Utf8.trim nyasniproxy.Target.parse_host_port nyasniproxy.Base.Text.rsplit_once
    accept_client
looks_up = refl

looked_runs : looked_up.running ≡ true
looked_runs = put_back-running _ accepted_one ∙ accepted_runs

looked_task : looked_up.tasks ≡ routed_one ∷ []
looked_task =
    ap (λ o. (put_back [] o [] accepted_one).tasks) looks_up
    ∙ put_back-tasks routed_one accepted_one

abbrev run : Reach libraries started.settings same_text watchdog_stall_timeout launched watched_one
run =
    next
      (next
        (next (next here (accepts 5 client launched refl))
          (goes_on [] [] (reading client) idle accepted_one accepted_runs one_task))
        (goes_on [] [] routed_one idle looked_up looked_runs looked_task))
      (watches 7 tunnelled (put_back-running _ looked_up ∙ looked_runs))

startup-IsSound_example :
    IsSound libraries same_text watched_one
    × ((host : Bytes) → is_empty (lookup watched_one.app.runtime.router host) ≡ false)
startup-IsSound_example =
    startup-IsSound boot arguments same_text watchdog_stall_timeout 0 starts run

quiet_turns :
    (o p : Option Task)
    → Beats watchdog_stall_timeout 5 ((ended_turn o ++ ended_turn p) ++ (watchdog_poll 7 ∷ []))
quiet_turns none none = (omega arith, tt)
quiet_turns none (some t) = (omega arith, tt)
quiet_turns (some t) none = (omega arith, tt)
quiet_turns (some t) (some u) = (omega arith, tt)

Reach-accept_loop_example :
    (accept_loop watchdog_stall_timeout
        (turns libraries started.settings same_text watchdog_stall_timeout run)
        (open_gate 0)
      ≡ ok watched_one.gate)
    × (watched_one.gate.fired ≡ false)
Reach-accept_loop_example =
    Reach-accept_loop libraries started.settings same_text watchdog_stall_timeout 0 started run
      (omega arith) (omega arith, quiet_turns _ _)

-- The request in two reads, and the tunnel that the proxy grants for it.
abbrev asking : List Read
asking = got (take 5 request) ∷ got (drop 5 request) ∷ []

abbrev opened_tunnel : ProxyStream
opened_tunnel = plain (
    new
      (record (wire (got (codes "yo") ∷ got [] ∷ [])) {
        rooms = takes 20 ∷ takes 1000 ∷ takes 9 ∷ [];
        output = connect_request same_text jp target;
      })
      (codes "hi"))

sends_request : SendsRequest http (received asking) target
unfolding nyasniproxy.Http.header_end bytes_eq nyasniproxy.Http.parse_http_host
    nyasniproxy.Base.Utf8.is_utf8 nyasniproxy.Base.Text.split_crlf nyasniproxy.Base.Text.split_once
    nyasniproxy.Base.eq_ignore_ascii_case nyasniproxy.Base.Utf8.trim
    nyasniproxy.Target.parse_host_port nyasniproxy.Base.Text.rsplit_once
sends_request = ((25, refl), omega arith, refl)

jp-IsFirst : IsFirst same_text attempts target 0 (lookup runtime.router (codes "a.b")) opened_tunnel
unfolding lookup nyasniproxy.Router.get bytes_eq nyasniproxy.Router.trim_end_dots
    nyasniproxy.Base.lower_byte nyasniproxy.Proxy.Connect.connect
    nyasniproxy.Proxy.HttpConnect.http_connect nyasniproxy.Target.format_target
    nyasniproxy.Base.Decimal.to_decimal nyasniproxy.Proxy.basic_auth_header
    nyasniproxy.Http.header_end nyasniproxy.Base.Utf8.is_utf8 nyasniproxy.Base.Utf8.split_whitespace
jp-IsFirst = record {
  before = [];
  hop = record { name = codes "jp"; proxy = jp };
  after = [];
  parts = refl;
  refused = tt;
  accepted = refl;
}

handle_connection-reaches_example :
    (initial : Bytes) × (rest : List Read) × (initial ++ received rest ≡ received asking)
    × (handle_connection same_text http runtime.router attempts asking
        ≡ after_write target initial rest (write_all initial opened_tunnel))
handle_connection-reaches_example =
    handle_connection-reaches same_text http runtime.router attempts asking target opened_tunnel
      (tt, (tt, tt)) sends_request jp-IsFirst

-- The proxy sends at 3; the timer is woken too early at 12, and again at 13.
abbrev quiet_events : Timed
quiet_events =
    (3, Event.upstream (got (codes "hi")) (done tt)) ∷ (12, idle) ∷ (13, idle) ∷ (14, idle) ∷ []

goes_idle : timed_relay 10 10 start quiet_events ≡ failed Error.relay_idle
unfolding timed_relay nyasniproxy.Server.select
goes_idle = refl

timed_relay-IsIdle_example : IsIdle 10 0 false false quiet_events
timed_relay-IsIdle_example = timed_relay-IsIdle 10 0 quiet_events start goes_idle

-- The rules are dropped between the two parts.
abbrev later_router : Router
later_router = record { rules = []; default = [] }
