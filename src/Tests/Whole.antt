-- ===== src/Tests/Whole.antt =====
-- src/main.rs from the start to one connection, on concrete values.
use nyasniproxy.Base.{
  ℕ, true, false, List, [], ◌∷◌, ◌++◌, Bytes, codes, ok, ◌≡◌, refl, ap, ◌∙◌, bytes_eq,
}
use nyasniproxy.Base.Stream.{Read, got, done, waiting}
use nyasniproxy.Proxy.Prefixed.{new}
use nyasniproxy.Proxy.Wire.{takes}
use nyasniproxy.Proxy.HttpConnect.{connect_request}
use nyasniproxy.Proxy.Tunnel.{plain, Use, read, write, shutdown, apply_all}
use nyasniproxy.Proxy.Connect.{Attempt, connect}
use nyasniproxy.Router.{Runtime, get, lookup, connect_with_fallback}
use nyasniproxy.Reload.Loop.{run_reload_loop}
use nyasniproxy.Server.{http, Opened, handle_connection, Event, inbound, upstream, Relay, relay}
use nyasniproxy.Session.{IsConveyed, startup-IsConveyed}
use nyasniproxy.Session.Relayed.{IsRelayed, relay-IsRelayed}
use nyasniproxy.Tests.Settings.{jp, runtime}
use nyasniproxy.Tests.Loops.{boot, arguments, future, started, starts, libraries}
use nyasniproxy.Tests.Sessions.{wire, same_text, target, request}

abbrev pub attempts : ℕ → Attempt
attempts n = record {
  tcp = done tt;
  valid_server_name = true;
  tls = waiting;
  wire = wire (got (codes "HTTP/1.1 200 OK\r\n\r\nhi") ∷ got (codes "yo") ∷ got [] ∷ []);
  conn = record { input = []; closed = true; writable = true; output = [] };
}

abbrev pub reads : List Read
reads = got request ∷ got (codes "x") ∷ got [] ∷ []

abbrev pub opened : Opened
opened = record {
  target = target;
  initial = request;
  rest = got (codes "x") ∷ got [] ∷ [];
  upstream = plain (
      new
        (record (wire (got (codes "yo") ∷ got [] ∷ [])) {
          rooms = takes 9 ∷ [];
          output = connect_request same_text jp target ++ request;
        })
        (codes "hi"));
}

opens : handle_connection same_text http runtime.router attempts reads ≡ ok opened
unfolding handle_connection nyasniproxy.Http.read_http_target nyasniproxy.Http.read_until_header_end
    nyasniproxy.Http.header_end bytes_eq nyasniproxy.Http.parse_http_host
    nyasniproxy.Base.Utf8.is_utf8 nyasniproxy.Base.Text.split_crlf nyasniproxy.Base.Text.split_once
    nyasniproxy.Base.eq_ignore_ascii_case nyasniproxy.Base.Utf8.trim
    nyasniproxy.Target.parse_host_port nyasniproxy.Base.Text.rsplit_once connect_with_fallback
    lookup get connect nyasniproxy.Proxy.HttpConnect.http_connect connect_request
    nyasniproxy.Base.Utf8.split_whitespace new nyasniproxy.Proxy.Tunnel.write_all
    nyasniproxy.Proxy.Prefixed.write_all nyasniproxy.Proxy.Wire.write_all
    nyasniproxy.Target.format_target nyasniproxy.Base.Decimal.to_decimal
    nyasniproxy.Proxy.basic_auth_header nyasniproxy.Router.trim_end_dots
opens = refl

reloaded :
    (run_reload_loop libraries started.settings future started.source started.app).runtime ≡ runtime
unfolding run_reload_loop nyasniproxy.Config.parse_source nyasniproxy.Base.Text.strip_prefix
    nyasniproxy.Reload.fetch_with_hard_timeout nyasniproxy.Config.Parse.parse_yaml
    nyasniproxy.Config.Parse.visit_hosts nyasniproxy.Config.Parse.visit_proxy_ref
    nyasniproxy.Base.eq_ignore_ascii_case nyasniproxy.Config.merge_settings
    nyasniproxy.Router.from_yaml nyasniproxy.Proxy.parse nyasniproxy.Proxy.kind_of_scheme
    nyasniproxy.Router.add_rule nyasniproxy.Target.is_valid_hostname nyasniproxy.Base.Text.split
    nyasniproxy.Target.is_valid_dns_label nyasniproxy.Base.is_ascii_alphanumeric
    nyasniproxy.Base.bytes_eq nyasniproxy.Reload.apply_hosts nyasniproxy.Reload.prepare_source
    nyasniproxy.Config.canonicalize_source nyasniproxy.Router.get nyasniproxy.Router.insert
    nyasniproxy.Router.insert_by nyasniproxy.Router.resolve nyasniproxy.Router.routing_fingerprint
    nyasniproxy.Router.sort_by_key nyasniproxy.Reload.Loop.event_applies
reloaded = refl

startup-IsConveyed_example : IsConveyed libraries same_text http attempts reads opened
startup-IsConveyed_example =
    startup-IsConveyed boot arguments future same_text http attempts reads starts (
      ap (λ rt. handle_connection same_text http (Runtime.router rt) attempts reads) reloaded
      ∙ opens)

conveyed : IsConveyed libraries same_text http attempts reads opened
conveyed = startup-IsConveyed boot arguments future same_text http attempts reads starts (
    ap (λ rt. handle_connection same_text http (Runtime.router rt) attempts reads) reloaded ∙ opens)

abbrev events : List Event
events =
    upstream (got (codes "hi")) (done tt)
    ∷ inbound (got (codes "x")) (done tt)
    ∷ inbound (got []) (done tt)
    ∷ upstream (got (codes "yo")) (done tt)
    ∷ upstream (got []) (done tt)
    ∷ []

abbrev uses : List Use
uses = read 10 ∷ write (codes "x") ∷ shutdown ∷ read 10 ∷ read 10 ∷ []

abbrev ended : Relay
ended = record {
  a_to_b = 1;
  b_to_a = 4;
  a_done = true;
  b_done = true;
  sent_b = codes "x";
  sent_a = codes "hiyo";
}

relay-IsRelayed_example :
    IsRelayed reads [] conveyed.tunnel (apply_all uses opened.upstream).after opened ended
unfolding apply_all nyasniproxy.Proxy.Tunnel.poll_read nyasniproxy.Proxy.Prefixed.poll_read new
    nyasniproxy.Proxy.Tunnel.poll_shutdown nyasniproxy.Proxy.Tunnel.poll_write
    nyasniproxy.Proxy.Prefixed.poll_shutdown nyasniproxy.Proxy.Prefixed.poll_write
    nyasniproxy.Proxy.Wire.write_some relay
relay-IsRelayed_example =
    relay-IsRelayed libraries same_text http attempts reads [] opened conveyed events uses refl refl
      refl refl
