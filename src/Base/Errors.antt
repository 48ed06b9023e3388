-- ===== src/Base/Errors.antt =====
-- Fallible code: `anyhow::Result`, with one constructor of `Error` for each message of the source.
-- A `context` replaces the message by its own, so an error carries the outermost message alone.
use Prim.Native.Nat.{ℕ}
use mathlib.Core.Path.{◌≡◌, refl}
use mathlib.Core.Logic.{◌⊎◌, inl, inr}
use mathlib.Core.Bool.{Bool, true, false}
use mathlib.Core.List.{List}
use mathlib.Core.Option.{Option, none, some}

pub data Error : Type 0 where
  -- target.rs
  empty_host invalid_bracketed_host invalid_port invalid_bracketed_suffix : Error
  -- http.rs
  read_failed closed_before_header header_too_large incomplete_header : Error
  header_not_utf8 host_header_not_found : Error
  -- tls.rs
  closed_before_client_hello client_hello_too_large invalid_client_hello : Error
  -- hosts.rs
  read_hosts_failed no_file_name write_temp_failed copy_permissions_failed : Error
  write_hosts_failed : Error
  -- config.rs
  parse_yaml_failed proxies_empty proxy_name_empty default_required : Error
  hosts_true_invalid hosts_path_empty proxy_list_empty not_loopback refresh_zero : Error
  parse_config_url_failed read_config_failed config_too_large config_not_utf8 : Error
  fetch_url_failed fetch_url_status url_too_large url_body_failed canonicalize_failed : Error
  -- router.rs
  unknown_proxy : List ℕ → Error
  invalid_rule_hostname : List ℕ → Error
  default_empty no_proxy_candidates : Error
  -- proxy.rs
  parse_proxy_url_failed unsupported_scheme missing_host missing_port : Error
  connect_timed_out connect_failed handshake_timed_out connector_missing : Error
  invalid_server_name tls_handshake_failed write_failed : Error
  response_not_utf8 empty_connect_response connect_refused : Error
  proxy_closed response_too_large : Error
  socks_credentials_too_long socks_auth_failed socks_methods_rejected : Error
  socks_invalid_selection socks_auth_unsupported socks_host_too_long : Error
  socks_invalid_version socks_invalid_address_type : Error
  socks_connect_code : ℕ → Error
  -- main.rs
  header_timed_out client_hello_timed_out initial_write_timed_out relay_idle : Error
  read_inbound_failed read_upstream_failed write_inbound_failed write_upstream_failed : Error
  shutdown_inbound_failed shutdown_upstream_failed accept_failed : Error
  bind_failed config_fetch_failed : Error
  -- reload.rs
  build_runtime_failed build_client_failed : Error

pub data Result {ℓ} (A : Type ℓ) : Type ℓ where
  ok : A → Result A
  err : Error → Result A

-- `?` on a result, and behind a test.
infixl 5 ◌>>=◌
abbrev pub ◌>>=◌ {ℓ κ} : {A : Type ℓ} {B : Type κ} → Result A → (A → Result B) → Result B
err e >>= next = err e
ok a >>= next = next a

infixl 5 ◌>>◌
abbrev pub ◌>>◌ {κ} : {B : Type κ} → Result (Unit {0}) → Result B → Result B
test >> rest = test >>= λ _. rest

-- `if test { bail!(e) }`.
abbrev pub bail_if : Bool → Error → Result (Unit {0})
bail_if true e = err e
bail_if false e = ok tt

-- `ok_or_else`.
abbrev pub or_fail {ℓ} : {A : Type ℓ} → Option A → Error → Result A
or_fail none e = err e
or_fail (some a) e = ok a

pub Result-cases {ℓ} :
    {A : Type ℓ} (m : Result A) → ((a : A) × (m ≡ ok a)) ⊎ ((e : Error) × (m ≡ err e))
Result-cases (ok a) = inl (a, refl)
Result-cases (err e) = inr (e, refl)

-- Inversion of a successful bind.
pub bind-eq-ok {ℓ κ} :
    {A : Type ℓ} {B : Type κ} (first : Result A) (next : A → Result B) {returned : B}
    → (first >>= next) ≡ ok returned
    → (value : A) × (first ≡ ok value) × (next value ≡ ok returned)
bind-eq-ok (err e) next h = cc
bind-eq-ok (ok a) next h = (a, refl, h)

pub ok_same {ℓ} : {A : Type ℓ} {a b : A} → ok a ≡ ok b → a ≡ b
ok_same e = cc

pub some_same {ℓ} : {A : Type ℓ} {a b : A} → some a ≡ some b → a ≡ b
some_same e = cc

-- A guard that lets through.
pub passed : (b : Bool) (e : Error) → bail_if b e ≡ ok tt → b ≡ false
passed true e h = cc
passed false e h = refl
