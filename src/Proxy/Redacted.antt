-- ===== src/Proxy/Redacted.antt =====
-- src/proxy.rs: `Debug` of `ProxyConfig` shows no credentials.
use nyasniproxy.Base.{ℕ, List, [], ◌∷◌, Option, none, some, Bytes, codes, ◌≡◌, refl}
use mathlib.Core.Option
use nyasniproxy.Proxy.{ProxyKind, ProxyConfig}

-- The value of a field of `debug_struct`.
data DebugValue : Type 0 where
  of_kind : ProxyKind → DebugValue
  of_text : Bytes → DebugValue
  of_number : ℕ → DebugValue
  of_option : Option Bytes → DebugValue

abbrev redacted : Bytes → Bytes
redacted secret = codes "<redacted>"

-- `fmt`: the fields, in the order in which they are written.
debug_fields : ProxyConfig → List (Bytes × DebugValue)
debug_fields c =
    (codes "kind", of_kind c.kind)
    ∷ (codes "host", of_text c.host)
    ∷ (codes "port", of_number c.port)
    ∷ (codes "username", of_option (Option.map redacted c.username))
    ∷ (codes "password", of_option (Option.map redacted c.password))
    ∷ []

option_redacted :
    (secret : Bytes → Bytes) (o : Option Bytes)
    → Option.map redacted (Option.map secret o) ≡ Option.map redacted o
option_redacted secret none = refl
option_redacted secret (some s) = refl

-- Whatever the user name and the password are, `Debug` writes the same.
debug_fields-redacted :
    (c : ProxyConfig) (user pass : Bytes → Bytes)
    → debug_fields
        (record c { username = Option.map user c.username; password = Option.map pass c.password })
      ≡ debug_fields c
unfolding debug_fields
debug_fields-redacted c user pass =
    rw (option_redacted user c.username, option_redacted pass c.password) refl
