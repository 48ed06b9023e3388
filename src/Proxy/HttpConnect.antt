-- ===== src/Proxy/HttpConnect.antt =====
-- src/proxy.rs: `http_connect` and `read_connect_response`.
pub mod Response
pub mod Accepted
use nyasniproxy.Base.{
  ℕ, ◌+◌, Bool, true, false, List, [], ◌∷◌, ◌++◌, Option, none, some, Bytes, codes, Error, ◌≡◌,
  refl, sym, ap, ◌∙◌, inl, inr, arith, ltb, ◌==◌, ap₂, if◌then◌else◌, length, take, drop, bytes_eq,
  bytes_eq_iff, Bool-cases, Option-cases, append_assoc, take-length_append, drop-length_append,
  length-append,
}
use mathlib.Core.Path.{subst₂}
use nyasniproxy.Base.Utf8.{is_utf8, split_whitespace}
use nyasniproxy.Base.Stream.{
  Read, got, broken, Outcome, done, failed, waiting, received, bind-eq-done,
}
use nyasniproxy.Base.Stream
use nyasniproxy.Target.{Target, format_target}
use nyasniproxy.Http.{header_end, max_http_header, blank_line}
use nyasniproxy.Http.HeaderEnd.{header_end-Split}
use nyasniproxy.Proxy.{ProxyConfig, basic_auth_header}
use nyasniproxy.Proxy.Wire.{Wire, write_all}

-- The bytes that `http_connect` writes.
abbrev auth_line : Option Bytes → Bytes
auth_line none = []
auth_line (some auth) = codes "Proxy-Authorization: Basic " ++ (auth ++ codes "\r\n")

unfoldable pub connect_request : (Bytes → Bytes) → ProxyConfig → Target → Bytes
connect_request base64 cfg t =
    let addr = format_target t in
    codes "CONNECT "
    ++ (addr
        ++ (codes " HTTP/1.1\r\nHost: "
            ++ (addr
                ++ (codes "\r\nProxy-Connection: Keep-Alive\r\n"
                    ++ (auth_line (basic_auth_header base64 cfg) ++ codes "\r\n")))))

pub record ConnectResponse : Type 0 where
  pub header : Bytes
  pub leftover : Bytes

-- The loop of `read_connect_response`, with the bytes read so far; it returns what is left on
-- the stream too.
unfoldable pub read_response : Bytes → List Read → Outcome (ConnectResponse × List Read)
read_response buf [] = waiting
read_response buf (broken ∷ reads) = failed Error.read_failed
read_response buf (got [] ∷ reads) = failed Error.proxy_closed
read_response buf (got (c ∷ s) ∷ reads) = elim (header_end (buf ++ (c ∷ s))) [
  | some end ↦ done (
    record { header = take end (buf ++ (c ∷ s)); leftover = drop (end + 4) (buf ++ (c ∷ s)) },
    reads,
  )
  | none ↦ elim (ltb max_http_header (length (buf ++ (c ∷ s)))) [
    | true ↦ failed Error.response_too_large
    | false ↦ read_response (buf ++ (c ∷ s)) reads
  ]
]

-- `str::lines().next()`: the text up to the first line feed, without a carriage return in front
-- of it.
drop_cr : Bytes → Bytes
drop_cr [] = []
drop_cr (c ∷ []) = if c == b'\r' then [] else c ∷ []
drop_cr (c ∷ d ∷ s) = c ∷ drop_cr (d ∷ s)

-- The first piece, and whether a line feed ends it.
cut_line : Bytes → Bytes × Bool
cut_line [] = ([], false)
cut_line (c ∷ s) = let (l, ended) = cut_line s in if c == b'\n' then ([], true) else (c ∷ l, ended)

pub first_line : Bytes → Option Bytes
unfolding drop_cr cut_line
first_line [] = none
first_line (c ∷ s) = let (l, ended) = cut_line (c ∷ s) in some (if ended then drop_cr l else l)

pub second : List Bytes → Option Bytes
second [] = none
second (a ∷ []) = none
second (a ∷ b ∷ ws) = some b

is_200 : Option Bytes → Bool
is_200 none = false
is_200 (some w) = bytes_eq w (codes "200")

check_status : Option Bytes → Outcome (Unit {0})
unfolding is_200 second
check_status none = failed Error.empty_connect_response
check_status (some status) =
    if is_200 (second (split_whitespace status)) then done tt else failed Error.connect_refused

unfoldable pub check_head : Bytes → Outcome (Unit {0})
unfolding check_status first_line
check_head head =
    if is_utf8 head then check_status (first_line head) else failed Error.response_not_utf8

after_head : ConnectResponse → Wire → Outcome (Unit {0}) → Outcome Bytes × Wire
after_head r w (done u) = (done r.leftover, w)
after_head r w (failed e) = (failed e, w)
after_head r w waiting = (waiting, w)

answered : Wire → Outcome (ConnectResponse × List Read) → Outcome Bytes × Wire
unfolding check_head after_head
answered w (failed e) = (failed e, w)
answered w waiting = (waiting, w)
answered w (done (r, rest)) = after_head r (record w { reads = rest }) (check_head r.header)

requested : Outcome (Unit {0}) × Wire → Outcome Bytes × Wire
unfolding read_response answered
requested (done u, w) = answered w (read_response [] w.reads)
requested (failed e, w) = (failed e, w)
requested (waiting, w) = (waiting, w)

-- `http_connect` on the stream: it writes the request and reads the response, and returns the
-- bytes read behind the header. `base64` is the encoder of the `base64` crate.
unfoldable pub http_connect : (Bytes → Bytes) → ProxyConfig → Target → Wire → Outcome Bytes × Wire
unfolding requested connect_request write_all
http_connect base64 cfg t w = requested (write_all (connect_request base64 cfg t) w)
