-- ===== src/Http.antt =====
-- src/http.rs: the end of a header, the reading of one, and its `Host` field.
pub mod HeaderEnd
pub mod ReadHeader
pub mod HostField
use nyasniproxy.Base.{
  ℕ, ◌*◌, ◌+◌, Bool, true, false, not, List, [], ◌∷◌, ◌++◌, Option, none, some, Bytes, codes,
  Result, Error, ok, err, ◌>>=◌, ◌>>◌, bail_if, or_fail, ltb, leb, if◌then◌else◌, length, take,
  drop, bytes_eq, eq_ignore_ascii_case,
}
use nyasniproxy.Base.Text.{next_index, split_once, split_crlf}
use nyasniproxy.Base.Utf8.{is_utf8, trim}
use nyasniproxy.Base.Stream.{Read, got, broken, Outcome, done, failed, waiting}
use nyasniproxy.Base.Stream
use nyasniproxy.Target.{Target, parse_host_port}

abbrev pub max_http_header : ℕ
max_http_header = 64 * 1024

abbrev pub blank_line : Bytes
blank_line = b'\r' ∷ b'\n' ∷ b'\r' ∷ b'\n' ∷ []

-- `slice::windows`.
windows : ℕ → Bytes → List Bytes
windows n [] = []
windows n (c ∷ s) = if leb n (length (c ∷ s)) then take n (c ∷ s) ∷ windows n s else []

-- `Iterator::position`.
position : (Bytes → Bool) → List Bytes → Option ℕ
position p [] = none
position p (w ∷ ws) = if p w then some 0 else next_index (position p ws)

unfoldable pub header_end : Bytes → Option ℕ
unfolding windows position
header_end buf = position (λ w. bytes_eq w blank_line) (windows 4 buf)

-- The loop of `read_until_header_end`, with the bytes read so far; it returns the buffer and the
-- reads that are left on the stream.
unfoldable pub read_header : Bytes → List Read → Outcome (Bytes × List Read)
read_header buf [] = waiting
read_header buf (broken ∷ reads) = failed Error.read_failed
read_header buf (got [] ∷ reads) = failed Error.closed_before_header
read_header buf (got (c ∷ s) ∷ reads) = elim (header_end (buf ++ (c ∷ s))) [
  | some end ↦ done (buf ++ (c ∷ s), reads)
  | none ↦ elim (ltb max_http_header (length (buf ++ (c ∷ s)))) [
    | true ↦ failed Error.header_too_large
    | false ↦ read_header (buf ++ (c ∷ s)) reads
  ]
]

unfoldable pub read_until_header_end : List Read → Outcome (Bytes × List Read)
unfolding read_header
read_until_header_end reads = read_header [] reads

-- The first line whose name is `host`.
host_field : List Bytes → Result Target
host_field [] = err Error.host_header_not_found
host_field (line ∷ lines) = elim (split_once line b':') [
  | none ↦ host_field lines
  | some (name, value) ↦ elim (eq_ignore_ascii_case (trim name) (codes "host")) [
    | true ↦ parse_host_port (trim value) 80
    | false ↦ host_field lines
  ]
]

-- The text before the blank line, once it is known to be UTF-8.
header_text : Bytes → Result Target
unfolding host_field
header_text text = do
  bail_if (not (is_utf8 text)) Error.header_not_utf8
  host_field (drop 1 (split_crlf text))

unfoldable pub parse_http_host : Bytes → Result Target
unfolding header_text
parse_http_host header = do
  end ← or_fail (header_end header) Error.incomplete_header
  header_text (take end header)

unfoldable pub read_http_target : List Read → Outcome (Target × Bytes × List Read)
read_http_target reads = Stream.◌>>=◌ (read_until_header_end reads) λ (header, rest).
    Stream.◌>>=◌ (Stream.lift (parse_http_host header)) λ target. done (target, header, rest)
