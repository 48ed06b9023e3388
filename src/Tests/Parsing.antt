-- ===== src/Tests/Parsing.antt =====
-- src/target.rs, src/http.rs and src/tls.rs on concrete bytes.
use nyasniproxy.Base.{
  take, drop, ℕ, ◌+◌, ◌≤◌, ◌<◌, Bool, true, false, List, [], ◌∷◌, ◌++◌, Option, none, some, Bytes,
  codes, Result, Error, ok, err, ◌≡◌, ◌≢◌, ◌↔◌, refl, arith, length, All,
}
use nyasniproxy.Base.Text.{find, contains}
use nyasniproxy.Base.Utf8.{is_utf8, trim}
use nyasniproxy.Base.Decimal.{to_decimal, parse_u16}
use nyasniproxy.Base.Stream.{Read, got, received}
use nyasniproxy.Target.{Target, parse_host_port, format_target, is_valid_hostname}
use nyasniproxy.Target.HostPort.{parse_host_port-format_target, parse_host_port-empty-host}
use nyasniproxy.Target.Hostname.{IsDotted, is_valid_hostname_iff}
use nyasniproxy.Http.{
  blank_line, header_end, parse_http_host, read_until_header_end, read_http_target, max_http_header,
}
use nyasniproxy.Http.ReadHeader.{IsHeader, read_until_header_end-IsHeader, read_http_target_lem}
use nyasniproxy.Http.HostField.{join_crlf, parse_http_host-first}
use nyasniproxy.Tls.{
  Reason, ClientHelloStatus, need_more, found, invalid, parse_client_hello_body, parse_tls_sni,
  read_https_target,
}
use nyasniproxy.Tls.Extensions.{IsVerdict, parse_client_hello_body-IsVerdict}
use nyasniproxy.Tls.Synthetic.{
  synthetic_client_hello, synthetic_client_hello_without_sni, parse_tls_sni-synthetic_client_hello,
}
use nyasniproxy.Tls.Arrives.{Returns, read_https_target-encode}
use nyasniproxy.Tls.Streaming.{parse_tls_sni-append, parse_tls_sni-IsFragment}
use nyasniproxy.Tls.Hello.{IsWellFormed, Hello, encode, parse_tls_sni-encode}
use nyasniproxy.Tls.ReadHello.{IsHello, read_https_target-IsHello}

-- The targets of an IPv6 address and of a name.
abbrev local : Target
local = record { host = codes "::1"; port = 8443 }

plain_target :
    parse_host_port (codes "example.com:8080") 80
    ≡ ok (record { host = codes "example.com"; port = 8080 })
unfolding parse_host_port nyasniproxy.Base.Text.rsplit_once parse_u16
plain_target = refl

parse_host_port-format_target_example : parse_host_port (format_target local) 80 ≡ ok local
parse_host_port-format_target_example =
    parse_host_port-format_target local 80
      (record { port_fits = omega arith; no_open = refl; no_close = λ e. refl })

empty_host_accepted :
    (parse_host_port (b':' ∷ to_decimal 80) 443 ≡ ok (record { host = []; port = 80 }))
    × (parse_host_port (b'[' ∷ b']' ∷ []) 443 ≡ ok (record { host = []; port = 443 }))
empty_host_accepted = parse_host_port-empty-host 80 443 (omega arith)

is_valid_hostname_iff_example :
    (is_valid_hostname (codes "a-b.c") ≡ true)
    ↔ ((length (codes "a-b.c") ≤ 253) × IsDotted (codes "a-b.c"))
is_valid_hostname_iff_example = is_valid_hostname_iff (codes "a-b.c")

-- A request in two reads.
abbrev first_read : Bytes
first_read = codes "GET / HTTP/1.1\r\nHost: a.b"

abbrev second_read : Bytes
second_read = codes ":81\r\n\r\nbody"

abbrev requests : List Read
requests = got first_read ∷ got second_read ∷ got (codes "x") ∷ []

abbrev request : Bytes
request = first_read ++ second_read

read_until_header_end-IsHeader_example :
    IsHeader (received requests) request (got (codes "x") ∷ [])
    × (length request ≤ max_http_header + 1024)
unfolding read_until_header_end header_end nyasniproxy.Base.bytes_eq
read_until_header_end-IsHeader_example =
    read_until_header_end-IsHeader requests (omega arith, (omega arith, (omega arith, tt))) refl

read_http_target_lem_example :
    (parse_http_host (received requests) ≡ ok (record { host = codes "a.b"; port = 81 }))
    × (request ++ received (got (codes "x") ∷ []) ≡ received requests)
unfolding read_http_target read_until_header_end header_end parse_http_host parse_host_port
    parse_u16 trim is_utf8 nyasniproxy.Base.bytes_eq nyasniproxy.Base.Text.split_crlf
    nyasniproxy.Base.Text.split_once nyasniproxy.Base.eq_ignore_ascii_case
    nyasniproxy.Base.Text.rsplit_once
read_http_target_lem_example = read_http_target_lem requests refl

parse_http_host-first_example :
    parse_http_host (
      join_crlf
        (codes "GET / HTTP/1.1" ∷ codes "Accept: *" ∷ codes "hOst: a.b" ∷ codes "Host: c" ∷ [])
      ++ (blank_line ++ codes "Host: d"))
    ≡ parse_host_port (trim (codes " a.b")) 80
unfolding is_utf8 trim nyasniproxy.Base.Text.split_once nyasniproxy.Base.eq_ignore_ascii_case
parse_http_host-first_example =
    parse_http_host-first (codes "GET / HTTP/1.1") (codes "Accept: *" ∷ []) (codes "Host: c" ∷ [])
      (codes "hOst") (codes " a.b") (codes "Host: d")
      ((refl, refl), ((refl, refl), ((refl, refl), ((refl, refl), tt)))) refl (refl, tt) refl refl

-- A ClientHello with an extension in front of the server name and one behind it.
abbrev hello : Hello
hello = record {
  fixed = codes "vvrrrrrrrrrrrrrrrrrrrrrrrrrrrrrrrr";
  session_id = 7 ∷ 8 ∷ [];
  cipher_suites = 19 ∷ 1 ∷ [];
  compression = 0 ∷ [];
  before = record { kind = 43; content = 2 ∷ 3 ∷ 4 ∷ [] } ∷ [];
  after = 0 ∷ 23 ∷ 0 ∷ 0 ∷ [];
  names_before = [];
  host = codes "a.bc";
  names_after = [];
  trailing = [];
}

hello-IsWellFormed : IsWellFormed hello
unfolding is_utf8
hello-IsWellFormed = record {
  fixed_length = refl;
  other_extensions = (λ e. omega (arith, e), tt);
  other_names = tt;
  host_given = refl;
  host_text = refl;
}

parse_tls_sni-encode_example : parse_tls_sni (encode hello ++ codes "more") ≡ found (codes "a.bc")
parse_tls_sni-encode_example = parse_tls_sni-encode hello (codes "more") hello-IsWellFormed

-- The same in three reads.
abbrev hello_reads : List Read
hello_reads = got (take 3 (encode hello)) ∷ got (drop 3 (encode hello)) ∷ got (codes "more") ∷ []

read_https_target-encode_example : Returns (codes "a.bc") (read_https_target hello_reads)
read_https_target-encode_example =
    read_https_target-encode hello_reads hello (codes "more") hello-IsWellFormed
      (tt, (tt, (tt, tt))) refl (omega arith)

parse_client_hello_body-IsVerdict_example : IsVerdict (parse_client_hello_body (codes "short"))
parse_client_hello_body-IsVerdict_example = parse_client_hello_body-IsVerdict (codes "short")

-- The first of two records that carry one ClientHello.
abbrev fragment : Bytes
fragment = 22 ∷ 3 ∷ 1 ∷ 0 ∷ 6 ∷ 1 ∷ 0 ∷ 0 ∷ 40 ∷ 3 ∷ 3 ∷ []

parse_tls_sni-IsFragment_example :
    parse_tls_sni (fragment ++ (22 ∷ 3 ∷ 1 ∷ 0 ∷ 38 ∷ [])) ≡ need_more
parse_tls_sni-IsFragment_example =
    parse_tls_sni-IsFragment 22 3 1 0 6 1 0 0 40 (3 ∷ 3 ∷ []) (22 ∷ 3 ∷ 1 ∷ 0 ∷ 38 ∷ [])
      (record { handshake = refl; hello = refl; within_record = refl; beyond_record = omega arith })

read_https_target-IsHello_example :
    IsHello
      (received (got (encode hello) ∷ got (codes "x") ∷ []))
      (record { host = codes "a.bc"; port = 443 })
      (encode hello)
      (got (codes "x") ∷ [])
    × (parse_tls_sni (received (got (encode hello) ∷ got (codes "x") ∷ [])) ≡ found (codes "a.bc"))
unfolding read_https_target parse_tls_sni parse_client_hello_body is_utf8
    nyasniproxy.Tls.parse_extensions nyasniproxy.Tls.parse_sni_extension nyasniproxy.Tls.parse_names
read_https_target-IsHello_example =
    read_https_target-IsHello (got (encode hello) ∷ got (codes "x") ∷ []) refl

synthetic_found :
    parse_tls_sni (synthetic_client_hello (codes "example.com") ++ []) ≡ found (codes "example.com")
unfolding is_utf8
synthetic_found =
    parse_tls_sni-synthetic_client_hello (codes "example.com") [] refl refl (omega arith)

synthetic_without_sni :
    parse_tls_sni synthetic_client_hello_without_sni ≡ invalid Reason.sni_not_found
unfolding parse_tls_sni synthetic_client_hello_without_sni
    nyasniproxy.Tls.Synthetic.wrap_client_hello parse_client_hello_body
    nyasniproxy.Tls.parse_extensions
synthetic_without_sni = refl

hello_found : parse_tls_sni (encode hello ++ codes "m") ≡ found (codes "a.bc")
hello_found = parse_tls_sni-encode hello (codes "m") hello-IsWellFormed

parse_tls_sni-append_example :
    parse_tls_sni ((encode hello ++ codes "m") ++ codes "ore")
    ≡ parse_tls_sni (encode hello ++ codes "m")
parse_tls_sni-append_example =
    parse_tls_sni-append (encode hello ++ codes "m") (codes "ore")
      (λ waits. cc (hello_found, waits))
