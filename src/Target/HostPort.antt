-- ===== src/Target/HostPort.antt =====
-- src/target.rs: `parse_host_port` and `format_target`.
use nyasniproxy.Base.{
  ℕ, ◌<◌, true, false, not, ◌&&◌, [], ◌∷◌, ◌++◌, Bytes, ◌≡◌, refl, ◌∙◌, inl, inr, arith, Result, ok,
  err, ◌==◌, is_empty, All, Bool-cases, Option-cases,
}
use nyasniproxy.Base.Text.{
  contains, starts_with_byte, split_once, rsplit_once, split_once-append, rsplit_once-append,
}
use nyasniproxy.Base.Decimal.{
  parse_u16, to_decimal, IsDigit, to_decimal-IsDigit, to_decimal-ne-nil, parse_u16-to_decimal,
  parse_u16-lt,
}
use nyasniproxy.Target.{
  Target, parse_port, with_port, bracket_suffix, parse_bracketed, parse_plain, parse_host_port,
  format_target,
}

IsDigit-no-colon : (s : Bytes) → All IsDigit s → contains s b':' ≡ false
IsDigit-no-colon [] h = refl
IsDigit-no-colon (c ∷ s) h =
    let plain : (c == b':') ≡ false = ground (arith, h.0) in rw plain (IsDigit-no-colon s h.1)

with_port-to_decimal :
    (host : Bytes) (port : ℕ)
    → port < 65536
    → with_port host (to_decimal port) ≡ ok (record { host = host; port = port })
unfolding with_port parse_port
with_port-to_decimal host port h = rw (parse_u16-to_decimal port h)

parse_plain-append :
    (host : Bytes) (port default_port : ℕ)
    → port < 65536
    → contains host b':' ≡ false
    → parse_plain (host ++ (b':' ∷ to_decimal port)) default_port
      ≡ ok (record { host = host; port = port })
unfolding parse_plain
parse_plain-append host port default_port h plain =
    rw
      (
        rsplit_once-append host (to_decimal port) b':'
            (IsDigit-no-colon (to_decimal port) (to_decimal-IsDigit port)),
        parse_plain,
      )
      (rw (plain, written) (with_port-to_decimal host port h))
  where
    written : is_empty (to_decimal port) ≡ false
    written = ground (arith, to_decimal-ne-nil port)

parse_bracketed-append :
    (host : Bytes) (port default_port : ℕ)
    → port < 65536
    → contains host b']' ≡ false
    → parse_bracketed (host ++ (b']' ∷ b':' ∷ to_decimal port)) default_port
      ≡ ok (record { host = host; port = port })
unfolding parse_bracketed bracket_suffix
parse_bracketed-append host port default_port h plain =
    rw (split_once-append host (b':' ∷ to_decimal port) b']' plain, parse_bracketed)
      (with_port-to_decimal host port h)

parse_host_port-plain :
    (host : Bytes) (rest : Bytes) (default_port : ℕ)
    → starts_with_byte host b'[' ≡ false
    → parse_host_port (host ++ (b':' ∷ rest)) default_port
      ≡ parse_plain (host ++ (b':' ∷ rest)) default_port
unfolding parse_host_port
parse_host_port-plain [] rest default_port h = refl
parse_host_port-plain (c ∷ host) rest default_port h = rw h

-- A target that can be written: the port is a `u16`, the host does not begin with a bracket,
-- and a host with a colon (an IPv6 address) has no closing bracket.
pub record IsWritable (t : Target) : Type 0 where
  pub port_fits : t.port < 65536
  pub no_open : starts_with_byte t.host b'[' ≡ false
  pub no_close : contains t.host b':' ≡ true → contains t.host b']' ≡ false

-- What `format_target` writes for a target, `parse_host_port` reads back, whatever the default
-- port, if the port is below 2^16, the host does not begin with `[`, and a host that holds a
-- colon holds no `]`.
pub parse_host_port-format_target :
    (t : Target) (default_port : ℕ)
    → IsWritable t
    → parse_host_port (format_target t) default_port ≡ ok t
unfolding format_target
parse_host_port-format_target t default_port w = elim (Bool-cases (contains t.host b':')) [
  | inl colon ↦
      rw (colon, w.no_open)
        (unfold parse_host_port in
          parse_bracketed-append t.host t.port default_port w.port_fits (w.no_close colon))
  | inr plain ↦ rw plain (
      parse_host_port-plain t.host _ default_port w.no_open
      ∙ parse_plain-append t.host t.port default_port w.port_fits plain)
]

-- Every port that `parse_host_port` returns is a `u16`, if the default port is.
abbrev pub PortFits : Result Target → Type 0
PortFits (ok t) = t.port < 65536
PortFits (err e) = Unit

with_port-PortFits : (host port : Bytes) → PortFits (with_port host port)
unfolding with_port parse_port
with_port-PortFits host port = elim (Option-cases (parse_u16 port)) [
  | inl refused ↦ rw refused tt
  | inr (n, parsed) ↦ rw parsed (parse_u16-lt port parsed)
]

parse_bracketed-PortFits :
    (s : Bytes) (default_port : ℕ)
    → default_port < 65536
    → PortFits (parse_bracketed s default_port)
unfolding parse_bracketed
parse_bracketed-PortFits s default_port h = elim (Option-cases (split_once s b']')) [
  | inl open_only ↦ rw (open_only, parse_bracketed) tt
  | inr ((host, rest), cut) ↦ rw (cut, parse_bracketed) (suffix host rest)
]
  where
    suffix : (host rest : Bytes) → PortFits (bracket_suffix host rest default_port)
    suffix host [] = unfold bracket_suffix in h
    suffix host (c ∷ rest) =
        unfold bracket_suffix in
        elim (Bool-cases (c == b':')) [
          | inl colon ↦ rw colon (with_port-PortFits host rest)
          | inr other ↦ rw other tt
        ]

parse_plain-PortFits :
    (s : Bytes) (default_port : ℕ) → default_port < 65536 → PortFits (parse_plain s default_port)
unfolding parse_plain
parse_plain-PortFits s default_port h = elim (Option-cases (rsplit_once s b':')) [
  | inl no_colon ↦ rw (no_colon, parse_plain) h
  | inr ((host, port), cut) ↦ elim (Bool-cases (not (contains host b':') && not (is_empty port))) [
    | inl both ↦ rw (cut, parse_plain) (rw both (with_port-PortFits host port))
    | inr neither ↦ rw (cut, parse_plain) (rw neither h)
  ]
]

-- Whatever text it is given, `parse_host_port` returns a port below 2^16 or an error, if the
-- default port is below 2^16.
pub parse_host_port-PortFits :
    (value : Bytes) (default_port : ℕ)
    → default_port < 65536
    → PortFits (parse_host_port value default_port)
unfolding parse_host_port
parse_host_port-PortFits [] default_port h = tt
parse_host_port-PortFits (c ∷ s) default_port h = elim (Bool-cases (c == b'[')) [
  | inl bracket ↦ rw bracket (parse_bracketed-PortFits s default_port h)
  | inr other ↦ rw other (parse_plain-PortFits (c ∷ s) default_port h)
]

-- A text of a colon and a port is accepted with an empty host, and so is `[]`: only the empty
-- text is refused as an empty host.
pub parse_host_port-empty-host :
    (port default_port : ℕ)
    → port < 65536
    → (parse_host_port (b':' ∷ to_decimal port) default_port
        ≡ ok (record { host = []; port = port }))
      × (parse_host_port (b'[' ∷ b']' ∷ []) default_port
          ≡ ok (record { host = []; port = default_port }))
unfolding parse_host_port
parse_host_port-empty-host port default_port h = (
  parse_plain-append [] port default_port h refl,
  unfold parse_bracketed bracket_suffix split_once in refl,
)
