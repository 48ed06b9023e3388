-- ===== src/Server.antt =====
-- src/main.rs: one inbound connection, from its first bytes to the end of the relay.
pub mod Accept
pub mod Delivery
pub mod Open
pub mod Reached
pub mod Idle
use nyasniproxy.Base.{
  ℕ, ◌+◌, Bool, true, false, ◌&&◌, List, [], ◌∷◌, ◌++◌, Bytes, Result, Error, ok, err, ◌>>=◌, ◌>>◌,
  if◌then◌else◌, length, leb,
}
use nyasniproxy.Base.Stream.{Read, got, broken, Outcome, done, failed, waiting, timeout}
use nyasniproxy.Target.{Target}
use nyasniproxy.Http.{read_http_target}
use nyasniproxy.Tls.{read_https_target}
use nyasniproxy.Router.{Router, lookup, connect_with_fallback}
use nyasniproxy.Proxy.Tunnel.{ProxyStream, write_all}
use nyasniproxy.Proxy.Connect.{Attempt}

pub data InboundProtocol : Type 0 where
  http https : InboundProtocol

-- The target and the bytes read for it, up to the deadline; with the reads that are left.
unfoldable pub read_target : InboundProtocol → List Read → Result (Target × Bytes × List Read)
read_target http reads = timeout Error.header_timed_out (read_http_target reads)
read_target https reads = timeout Error.client_hello_timed_out (read_https_target reads)

-- What an opened connection is relayed with: the target, the bytes already sent on, the client's
-- reads that are left, and the upstream.
pub record Opened : Type 0 where
  pub target : Target
  pub initial : Bytes
  pub rest : List Read
  pub upstream : ProxyStream

pub after_write : Target → Bytes → List Read → Outcome (Unit {0}) × ProxyStream → Result Opened
after_write target initial rest (r, upstream) = do
  timeout Error.initial_write_timed_out r
  ok (record { target = target; initial = initial; rest = rest; upstream = upstream })

-- `handle_connection` up to the relay.
unfoldable pub handle_connection :
    (Bytes → Bytes) → InboundProtocol → Router → (ℕ → Attempt) → List Read → Result Opened
unfolding read_target after_write
handle_connection base64 protocol router attempts reads = do
  (target, initial, rest) ← read_target protocol reads
  upstream ← connect_with_fallback base64 attempts (lookup router target.host) target
  after_write target initial rest (write_all initial upstream)

-- A round of the relay: the idle timer, or a read of one side with the outcome of the write, or of
-- the shutdown, that its branch then awaits. An outcome `waiting` is one that never comes: the
-- branch is not left, so that neither side is read again and the timer is not polled.
pub data Event : Type 0 where
  idle : Event
  inbound upstream : Read → Outcome (Unit {0}) → Event

pub record Relay : Type 0 where
  pub a_to_b : ℕ
  pub b_to_a : ℕ
  pub a_done : Bool
  pub b_done : Bool
  -- the bytes written to either side
  pub sent_b : Bytes
  pub sent_a : Bytes

abbrev pub start : Relay
start = record { a_to_b = 0; b_to_a = 0; a_done = false; b_done = false; sent_b = []; sent_a = [] }

from_inbound : Relay → Read → Outcome (Unit {0}) → Outcome Relay
from_inbound r broken written = failed Error.read_inbound_failed
from_inbound r (got []) (done u) = done (record r { a_done = true })
from_inbound r (got []) (failed x) = failed Error.shutdown_upstream_failed
from_inbound r (got []) waiting = waiting
from_inbound r (got (c ∷ s)) (done u) =
    done (record r { a_to_b = r.a_to_b + length (c ∷ s); sent_b = r.sent_b ++ (c ∷ s) })
from_inbound r (got (c ∷ s)) (failed x) = failed Error.write_upstream_failed
from_inbound r (got (c ∷ s)) waiting = waiting

from_upstream : Relay → Read → Outcome (Unit {0}) → Outcome Relay
from_upstream r broken written = failed Error.read_upstream_failed
from_upstream r (got []) (done u) = done (record r { b_done = true })
from_upstream r (got []) (failed x) = failed Error.shutdown_inbound_failed
from_upstream r (got []) waiting = waiting
from_upstream r (got (c ∷ s)) (done u) =
    done (record r { b_to_a = r.b_to_a + length (c ∷ s); sent_a = r.sent_a ++ (c ∷ s) })
from_upstream r (got (c ∷ s)) (failed x) = failed Error.write_inbound_failed
from_upstream r (got (c ∷ s)) waiting = waiting

-- One round of the `select!`; the branch of a side that is done is switched off.
unfoldable pub select : Relay → Event → Outcome Relay
unfolding from_inbound from_upstream
select r idle = failed Error.relay_idle
select r (inbound read written) = if r.a_done then done r else from_inbound r read written
select r (upstream read written) = if r.b_done then done r else from_upstream r read written

-- The loop of `copy_bidirectional_with_idle_timeout`, with what both sides have got.
unfoldable pub relay : Relay → List Event → Outcome Relay
unfolding select
relay r [] = elim (r.a_done && r.b_done) [ true ↦ done r | false ↦ waiting ]
relay r (e ∷ later) = elim (r.a_done && r.b_done) [
  | true ↦ done r
  | false ↦ elim (select r e) [ done r' ↦ relay r' later | failed x ↦ failed x | waiting ↦ waiting ]
]
