-- ===== src/Base/Text.antt =====
-- The operations of `str` that search and cut, on bytes.
pub mod Find
use nyasniproxy.Base.Tests.{◌==◌, if◌then◌else◌, Bool-cases}
use nyasniproxy.Base.Lists.{any, is_empty}
use nyasniproxy.Base.Ascii.{Bytes, codes, bytes_eq}
use Prim.Native.Nat.{ℕ, zero, suc, ◌+◌, ◌<◌}
use mathlib.Core.Path.{◌≡◌, refl, ap}
use mathlib.Core.Bool.{Bool, true, false, not, ◌&&◌, ◌||◌}
use mathlib.Core.Option.{Option, none, some}
use mathlib.Core.List.{List, [], ◌∷◌, ◌++◌}
use native.Mathlib.Omega.{arith}

-- `str::contains` and `str::starts_with` with a one-byte pattern.
abbrev pub contains : Bytes → ℕ → Bool
contains s d = any (λ c. c == d) s

abbrev pub starts_with_byte : Bytes → ℕ → Bool
starts_with_byte [] d = false
starts_with_byte (c ∷ s) d = c == d

abbrev pub ends_with_byte : Bytes → ℕ → Bool
ends_with_byte [] d = false
ends_with_byte (c ∷ []) d = c == d
ends_with_byte (c ∷ b ∷ s) d = ends_with_byte (b ∷ s) d

-- `str::strip_prefix`.
unfoldable pub strip_prefix : Bytes → Bytes → Option Bytes
strip_prefix s [] = some s
strip_prefix [] (p ∷ ps) = none
strip_prefix (c ∷ s) (p ∷ ps) = if c == p then strip_prefix s ps else none

abbrev pub is_some {ℓ} : {A : Type ℓ} → Option A → Bool
is_some none = false
is_some (some a) = true

abbrev pub starts_with : Bytes → Bytes → Bool
starts_with s p = is_some (strip_prefix s p)

abbrev pub next_index : Option ℕ → Option ℕ
next_index none = none
next_index (some k) = some (suc k)

-- `str::find`: the offset of the first occurrence.
unfoldable pub find : Bytes → Bytes → Option ℕ
unfolding strip_prefix
find [] pat = if starts_with [] pat then some 0 else none
find (c ∷ s) pat = if starts_with (c ∷ s) pat then some 0 else next_index (find s pat)

abbrev pub push_left : ℕ → Option (Bytes × Bytes) → Option (Bytes × Bytes)
push_left c none = none
push_left c (some (a, b)) = some (c ∷ a, b)

-- `str::split_once` and `str::rsplit_once` at a byte.
unfoldable pub split_once : Bytes → ℕ → Option (Bytes × Bytes)
split_once [] d = none
split_once (c ∷ s) d = if c == d then some ([], s) else push_left c (split_once s d)

unfoldable pub rsplit_once : Bytes → ℕ → Option (Bytes × Bytes)
rsplit_once [] d = none
rsplit_once (c ∷ s) d = elim (rsplit_once s d) [
  | some (a, b) ↦ some (c ∷ a, b)
  | none ↦ if c == d then some ([], s) else none
]

abbrev pub push_head : ℕ → List Bytes → List Bytes
push_head c [] = (c ∷ []) ∷ []
push_head c (p ∷ ps) = (c ∷ p) ∷ ps

-- `str::split` at a byte, and at CR LF.
unfoldable pub split : Bytes → ℕ → List Bytes
split [] d = [] ∷ []
split (c ∷ s) d = if c == d then [] ∷ split s d else push_head c (split s d)

unfoldable pub split_crlf : Bytes → List Bytes
split_crlf [] = [] ∷ []
split_crlf (c ∷ []) = (c ∷ []) ∷ []
split_crlf (c ∷ d ∷ s) = elim (c == b'\r' && d == b'\n') [
  | true ↦ [] ∷ split_crlf s
  | false ↦ push_head c (split_crlf (d ∷ s))
]

pub split_once-none : (s : Bytes) (d : ℕ) → contains s d ≡ false → split_once s d ≡ none
unfolding split_once
split_once-none [] d h = refl
split_once-none (c ∷ s) d h = ground (arith, split_once-none s d)

-- The first cut is at the delimiter that no byte of `a` is.
pub split_once-append :
    (a b : Bytes) (d : ℕ) → contains a d ≡ false → split_once (a ++ d ∷ b) d ≡ some (a, b)
unfolding split_once
split_once-append [] b d h = ground arith
split_once-append (c ∷ a) b d h = ground (arith, split_once-append a b d)

pub rsplit_once-none : (s : Bytes) (d : ℕ) → contains s d ≡ false → rsplit_once s d ≡ none
unfolding rsplit_once
rsplit_once-none [] d h = refl
rsplit_once-none (c ∷ s) d h = ground (arith, rsplit_once-none s d)

-- The last cut is at the delimiter that no byte of `b` is.
pub rsplit_once-append :
    (a b : Bytes) (d : ℕ) → contains b d ≡ false → rsplit_once (a ++ d ∷ b) d ≡ some (a, b)
unfolding rsplit_once
rsplit_once-append [] b d h = ground (arith, rsplit_once-none b d h)
rsplit_once-append (c ∷ a) b d h = ground (arith, rsplit_once-append a b d h)

pub contains-append : (a b : Bytes) (d : ℕ) → contains (a ++ b) d ≡ (contains a d || contains b d)
contains-append [] b d = refl
contains-append (c ∷ a) b d = ground (arith, contains-append a b d)

pub ends_with_byte-append :
    (s h : Bytes) (d : ℕ) → is_empty h ≡ false → ends_with_byte (s ++ h) d ≡ ends_with_byte h d
ends_with_byte-append [] h d e = refl
ends_with_byte-append (c ∷ []) [] d e = cc
ends_with_byte-append (c ∷ []) (b ∷ h) d e = refl
ends_with_byte-append (c ∷ b ∷ s) h d e = ends_with_byte-append (b ∷ s) h d e
