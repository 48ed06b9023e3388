-- ===== src/Tls.antt =====
-- src/tls.rs: the server name in a TLS ClientHello, and the reading of one from a stream.
pub mod Extensions
pub mod Streaming
pub mod Hello
pub mod ReadHello
pub mod Arrives
pub mod Synthetic
use nyasniproxy.Base.{
  ℕ, zero, suc, ◌*◌, ◌+◌, Bool, true, false, not, ◌||◌, List, [], ◌∷◌, ◌++◌, Option, none, some,
  Bytes, Error, ltb, ◌==◌, if◌then◌else◌, length, take, drop, is_empty, u16_be,
}
use nyasniproxy.Base.Utf8.{is_utf8}
use nyasniproxy.Base.Stream.{Read, got, broken, Outcome, done, failed, waiting}
use nyasniproxy.Target.{Target}

abbrev pub max_client_hello : ℕ
max_client_hello = 64 * 1024

-- The reasons of `ClientHelloStatus::Invalid`, one for each text.
pub data Reason : Type 0 where
  not_a_handshake not_a_client_hello truncated_client_hello missing_session_id : Reason
  truncated_session_id missing_cipher_suites truncated_cipher_suites : Reason
  missing_compression truncated_compression missing_extensions truncated_extensions : Reason
  truncated_extension_header truncated_extension sni_not_found : Reason
  truncated_sni_extension truncated_sni_list truncated_sni_name truncated_sni_host : Reason
  invalid_sni_hostname dns_name_not_found : Reason

pub data ClientHelloStatus : Type 0 where
  need_more : ClientHelloStatus
  found : Bytes → ClientHelloStatus
  invalid : Reason → ClientHelloStatus

pub host_name : Bytes → ClientHelloStatus
host_name host =
    if is_utf8 host
    then (if is_empty host then invalid Reason.invalid_sni_hostname else found host)
    else invalid Reason.invalid_sni_hostname

-- The loop over the server names; every round takes three bytes at least, so the length of the
-- list is fuel enough.
walk_names : ℕ → Bytes → ClientHelloStatus
unfolding host_name
walk_names fuel [] = invalid Reason.dns_name_not_found
walk_names zero (t ∷ names) = need_more
walk_names (suc fuel) (t ∷ hi ∷ lo ∷ rest) =
    let next = walk_names fuel (drop (u16_be hi lo) rest) in
    if ltb (length rest) (u16_be hi lo)
    then invalid Reason.truncated_sni_host
    else if t == 0
    then host_name (take (u16_be hi lo) rest)
    else next
walk_names (suc fuel) (t ∷ names) = invalid Reason.truncated_sni_name

unfoldable pub parse_names : Bytes → ClientHelloStatus
unfolding walk_names
parse_names names = walk_names (length names) names

unfoldable pub parse_sni_extension : Bytes → ClientHelloStatus
parse_sni_extension (hi ∷ lo ∷ rest) =
    if ltb (length rest) (u16_be hi lo)
    then invalid Reason.truncated_sni_list
    else parse_names (take (u16_be hi lo) rest)
parse_sni_extension s = invalid Reason.truncated_sni_extension

-- The loop over the extensions; every round takes four bytes at least.
walk_extensions : ℕ → Bytes → ClientHelloStatus
walk_extensions fuel [] = invalid Reason.sni_not_found
walk_extensions zero (t ∷ extensions) = need_more
walk_extensions (suc fuel) (t1 ∷ t0 ∷ hi ∷ lo ∷ rest) =
    let next = walk_extensions fuel (drop (u16_be hi lo) rest) in
    if ltb (length rest) (u16_be hi lo)
    then invalid Reason.truncated_extension
    else if u16_be t1 t0 == 0
    then parse_sni_extension (take (u16_be hi lo) rest)
    else next
walk_extensions (suc fuel) (t ∷ extensions) = invalid Reason.truncated_extension_header

unfoldable pub parse_extensions : Bytes → ClientHelloStatus
unfolding walk_extensions
parse_extensions extensions = walk_extensions (length extensions) extensions

-- `parse_client_hello_body` from the length of the extensions on.
extensions_block : Bytes → ClientHelloStatus
extensions_block (hi ∷ lo ∷ rest) =
    if ltb (length rest) (u16_be hi lo)
    then invalid Reason.truncated_extensions
    else parse_extensions (take (u16_be hi lo) rest)
extensions_block s = invalid Reason.missing_extensions

-- From the length of the compression methods on.
compression_block : Bytes → ClientHelloStatus
compression_block [] = invalid Reason.missing_compression
compression_block (n ∷ rest) =
    if ltb (length rest) n
    then invalid Reason.truncated_compression
    else extensions_block (drop n rest)

-- From the length of the cipher suites on.
cipher_block : Bytes → ClientHelloStatus
cipher_block (hi ∷ lo ∷ rest) =
    if ltb (length rest) (u16_be hi lo)
    then invalid Reason.truncated_cipher_suites
    else compression_block (drop (u16_be hi lo) rest)
cipher_block s = invalid Reason.missing_cipher_suites

-- From the length of the session id on.
session_block : Bytes → ClientHelloStatus
session_block [] = invalid Reason.missing_session_id
session_block (n ∷ rest) =
    if ltb (length rest) n then invalid Reason.truncated_session_id else cipher_block (drop n rest)

unfoldable pub parse_client_hello_body : Bytes → ClientHelloStatus
unfolding session_block cipher_block compression_block extensions_block
parse_client_hello_body body =
    if ltb (length body) 34
    then invalid Reason.truncated_client_hello
    else session_block (drop 34 body)

-- `(record[1] << 16) | (record[2] << 8) | record[3]`.
abbrev pub u24_be : ℕ → ℕ → ℕ → ℕ
u24_be a b c = a * 65536 + b * 256 + c

-- The handshake message in a complete record.
parse_record : Bytes → ClientHelloStatus
parse_record (t ∷ a ∷ b ∷ c ∷ rest) =
    if t == 1
    then (if ltb (length rest) (u24_be a b c)
        then need_more
        else parse_client_hello_body (take (u24_be a b c) rest))
    else invalid Reason.not_a_client_hello
parse_record record_bytes = invalid Reason.not_a_client_hello

unfoldable pub parse_tls_sni : Bytes → ClientHelloStatus
unfolding parse_record
parse_tls_sni (t ∷ v1 ∷ v0 ∷ hi ∷ lo ∷ rest) =
    if t == 22
    then (if ltb (length rest) (u16_be hi lo)
        then need_more
        else parse_record (take (u16_be hi lo) rest))
    else invalid Reason.not_a_handshake
parse_tls_sni buf = need_more

-- The loop of `read_https_target`, with the bytes read so far.
unfoldable pub read_hello : Bytes → List Read → Outcome (Target × Bytes × List Read)
read_hello buf [] = waiting
read_hello buf (broken ∷ reads) = failed Error.read_failed
read_hello buf (got [] ∷ reads) = failed Error.closed_before_client_hello
read_hello buf (got (c ∷ s) ∷ reads) = elim (ltb max_client_hello (length (buf ++ (c ∷ s)))) [
  | true ↦ failed Error.client_hello_too_large
  | false ↦ elim (parse_tls_sni (buf ++ (c ∷ s))) [
    | need_more ↦ read_hello (buf ++ (c ∷ s)) reads
    | found host ↦ done (record { host = host; port = 443 }, buf ++ (c ∷ s), reads)
    | invalid reason ↦ failed Error.invalid_client_hello
  ]
]

unfoldable pub read_https_target : List Read → Outcome (Target × Bytes × List Read)
unfolding read_hello
read_https_target reads = read_hello [] reads
