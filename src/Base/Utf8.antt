-- ===== src/Base/Utf8.antt =====
-- `str::from_utf8` as a test, and `str::trim`: Unicode white space, on UTF-8 bytes.
use nyasniproxy.Base.Tests.{ltb, ◌==◌, if◌then◌else◌}
use nyasniproxy.Base.Lists.{All}
use nyasniproxy.Base.Ascii.{Bytes, within}
use Prim.Native.Nat.{ℕ, zero, suc, ◌<◌}
use mathlib.Core.Path.{◌≡◌, refl, ap, ◌∙◌}
use mathlib.Core.Bool.{Bool, true, false, ◌&&◌, ◌||◌}
use mathlib.Core.Option.{Option, none, some}
use mathlib.Core.List.{List, [], ◌∷◌, ◌++◌, reverse}
use native.Mathlib.Omega.{arith}

-- The continuation bytes still due, and the range of the next one (RFC 3629, section 4).
pub record Due : Type 0 where
  pub count : ℕ
  pub low : ℕ
  pub high : ℕ

abbrev due : ℕ → ℕ → ℕ → Option Due
due n lo hi = some (record { count = n; low = lo; high = hi })

lead : ℕ → Option Due
lead c =
    if ltb c 0x80
    then due 0 0x80 0xbf
    else if within 0xc2 0xdf c
    then due 1 0x80 0xbf
    else if c == 0xe0
    then due 2 0xa0 0xbf
    else if c == 0xed
    then due 2 0x80 0x9f
    else if within 0xe1 0xef c
    then due 2 0x80 0xbf
    else if c == 0xf0
    then due 3 0x90 0xbf
    else if within 0xf1 0xf3 c
    then due 3 0x80 0xbf
    else if c == 0xf4
    then due 3 0x80 0x8f
    else none

next_due : ℕ → ℕ → ℕ → ℕ → Option Due
unfolding lead
next_due zero lo hi c = lead c
next_due (suc n) lo hi c = if within lo hi c then due n 0x80 0xbf else none

run_utf8 : Option Due → Bytes → Bool
unfolding next_due
run_utf8 none s = false
run_utf8 (some d) [] = d.count == 0
run_utf8 (some d) (c ∷ s) = run_utf8 (next_due d.count d.low d.high c) s

unfoldable pub is_utf8 : Bytes → Bool
unfolding run_utf8
is_utf8 s = run_utf8 (due 0 0x80 0xbf) s

lead-ascii : (c : ℕ) → c < 128 → lead c ≡ due 0 0x80 0xbf
unfolding lead
lead-ascii c h = ground arith

run_utf8-ascii : (s : Bytes) → All (λ c. c < 128) s → run_utf8 (due 0 0x80 0xbf) s ≡ true
unfolding run_utf8
run_utf8-ascii [] h = refl
run_utf8-ascii (c ∷ s) h = ap (λ d. run_utf8 d s) (lead-ascii c h.0) ∙ run_utf8-ascii s h.1

pub is_utf8-ascii : (s : Bytes) → All (λ c. c < 128) s → is_utf8 s ≡ true
unfolding is_utf8
is_utf8-ascii = run_utf8-ascii

-- The bytes that a white-space character at the front takes; 0 if there is none.
white1 : ℕ → Bool
white1 a = within 9 13 a || a == 32

white2 : ℕ → ℕ → Bool
white2 a b = a == 0xc2 && (b == 0x85 || b == 0xa0)

white3 : ℕ → ℕ → ℕ → Bool
white3 a b c =
    a == 0xe1 && b == 0x9a && c == 0x80
    || a == 0xe2 && b == 0x80 && (within 0x80 0x8a c || c == 0xa8 || c == 0xa9 || c == 0xaf)
    || a == 0xe2 && b == 0x81 && c == 0x9f
    || a == 0xe3 && b == 0x80 && c == 0x80

white_front : Bytes → ℕ
unfolding white1 white2 white3
white_front [] = 0
white_front (a ∷ []) = if white1 a then 1 else 0
white_front (a ∷ b ∷ []) = if white1 a then 1 else if white2 a b then 2 else 0
white_front (a ∷ b ∷ c ∷ s) =
    if white1 a then 1 else if white2 a b then 2 else if white3 a b c then 3 else 0

-- The same for the last character of a text that is given reversed.
white_back : Bytes → ℕ
unfolding white1 white2 white3
white_back [] = 0
white_back (a ∷ []) = if white1 a then 1 else 0
white_back (a ∷ b ∷ []) = if white1 a then 1 else if white2 b a then 2 else 0
white_back (a ∷ b ∷ c ∷ s) =
    if white1 a then 1 else if white2 b a then 2 else if white3 c b a then 3 else 0

-- Drops white space, `k` bytes of the present character still to go.
drop_white : (Bytes → ℕ) → ℕ → Bytes → Bytes
drop_white width k [] = []
drop_white width (suc k) (c ∷ s) = drop_white width k s
drop_white width zero (c ∷ s) = elim (width (c ∷ s)) [ zero ↦ c ∷ s | suc k ↦ drop_white width k s ]

unfoldable pub trim_start : Bytes → Bytes
unfolding drop_white white_front
trim_start s = drop_white white_front 0 s

unfoldable pub trim_end : Bytes → Bytes
unfolding drop_white white_back
trim_end s = reverse (drop_white white_back 0 (reverse s))

unfoldable pub trim : Bytes → Bytes
unfolding trim_start trim_end
trim s = trim_end (trim_start s)

-- `str::split_whitespace`: the words, `cur` being the one that is read.
flush : Bytes → List Bytes
flush [] = []
flush (c ∷ cur) = (c ∷ cur) ∷ []

words_from : ℕ → Bytes → Bytes → List Bytes
words_from k cur [] = flush cur
words_from (suc k) cur (c ∷ s) = words_from k cur s
words_from zero cur (c ∷ s) = elim (white_front (c ∷ s)) [
  | zero ↦ words_from zero (cur ++ c ∷ []) s
  | suc k ↦ flush cur ++ words_from k [] s
]

unfoldable pub split_whitespace : Bytes → List Bytes
unfolding words_from flush white_front
split_whitespace s = words_from 0 [] s
