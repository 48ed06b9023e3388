-- ===== src/Base/Decimal.antt =====
-- Decimal numbers: `Display` of an unsigned number and `str::parse::<u16>`.
use nyasniproxy.Base.Tests.{ltb, ◌==◌, if◌then◌else◌, Bool-cases, ltb-lt, ltb-false}
use nyasniproxy.Base.Lists.{All, All-append}
use nyasniproxy.Base.Ascii.{Bytes, within}
use Prim.Native.Nat.{ℕ, zero, suc, ◌+◌, ◌-◌, ◌*◌, ◌/◌, ◌%◌, ◌<◌}
use mathlib.Core.Path.{◌≡◌, refl, ap, ◌∙◌}
use mathlib.Core.Logic.{inl, inr, ◌≢◌}
use mathlib.Core.Bool.{true, false}
use mathlib.Core.Option.{Option, none, some}
use mathlib.Core.List.{[], ◌∷◌, ◌++◌}
use native.Mathlib.Omega.{arith}

-- The digits of `n`, the most significant first. The fuel is above the number.
digits : ℕ → ℕ → Bytes
digits zero n = []
digits (suc fuel) n =
    let high = digits fuel (n / 10) in
    if ltb n 10 then (b'0' + n) ∷ [] else high ++ (b'0' + n % 10) ∷ []

unfoldable pub to_decimal : ℕ → Bytes
unfolding digits
to_decimal n = digits (suc n) n

-- One digit, with the checked multiplication and addition of `u16`.
push_digit : ℕ → ℕ → Option ℕ
push_digit acc c =
    if within b'0' b'9' c
    then (if ltb 65535 (acc * 10 + (c - b'0')) then none else some (acc * 10 + (c - b'0')))
    else none

read_digits : Option ℕ → Bytes → Option ℕ
unfolding push_digit
read_digits none s = none
read_digits (some acc) [] = some acc
read_digits (some acc) (c ∷ s) = read_digits (push_digit acc c) s

-- A leading `+` is accepted; an empty text, and a sign alone, are refused.
unfoldable pub parse_u16 : Bytes → Option ℕ
unfolding read_digits
parse_u16 [] = none
parse_u16 (c ∷ []) = read_digits (some 0) (c ∷ [])
parse_u16 (c ∷ d ∷ s) =
    if c == b'+' then read_digits (some 0) (d ∷ s) else read_digits (some 0) (c ∷ d ∷ s)

bind_digit : Option ℕ → ℕ → Option ℕ
bind_digit none c = none
bind_digit (some acc) c = push_digit acc c

read_digits-nil : (acc : Option ℕ) → read_digits acc [] ≡ acc
unfolding read_digits
read_digits-nil none = refl
read_digits-nil (some acc) = refl

read_digits-append :
    (acc : Option ℕ) (s : Bytes) (c : ℕ)
    → read_digits acc (s ++ c ∷ []) ≡ bind_digit (read_digits acc s) c
unfolding read_digits bind_digit
read_digits-append none [] c = refl
read_digits-append none (d ∷ s) c = refl
read_digits-append (some acc) [] c = read_digits-nil (push_digit acc c)
read_digits-append (some acc) (d ∷ s) c = read_digits-append (push_digit acc d) s c

push_last : (n : ℕ) → n < 65536 → bind_digit (some (n / 10)) (b'0' + n % 10) ≡ some n
unfolding bind_digit push_digit
push_last n h = ground arith

push_first : (n : ℕ) → n < 10 → read_digits (some 0) ((b'0' + n) ∷ []) ≡ some n
unfolding read_digits push_digit
push_first n h = ground arith

read_digits-digits :
    (fuel n : ℕ) → n < fuel → n < 65536 → read_digits (some 0) (digits fuel n) ≡ some n
unfolding digits
read_digits-digits zero n h k = absurd (omega arith)
read_digits-digits (suc fuel) n h k = elim (Bool-cases (ltb n 10)) [
  | inl small ↦ rw small (push_first n (ltb-lt n 10 small))
  | inr big ↦
      let below = ltb-false n 10 big in
      rw big (
        read_digits-append (some 0) (digits fuel (n / 10)) (b'0' + n % 10)
        ∙ ap (λ o. bind_digit o (b'0' + n % 10))
            (read_digits-digits fuel (n / 10) (omega arith) (omega arith))
        ∙ push_last n k)
]

abbrev pub IsDigit : ℕ → Type 0
IsDigit c = within b'0' b'9' c ≡ true

IsDigit-add : (n : ℕ) → n < 10 → IsDigit (b'0' + n)
IsDigit-add n h = ground arith

digits-IsDigit : (fuel n : ℕ) → All IsDigit (digits fuel n)
unfolding digits
digits-IsDigit zero n = tt
digits-IsDigit (suc fuel) n = elim (Bool-cases (ltb n 10)) [
  | inl small ↦ rw small (IsDigit-add n (ltb-lt n 10 small), tt)
  | inr big ↦ rw big (
      All-append IsDigit (digits fuel (n / 10)) _ (digits-IsDigit fuel (n / 10))
        (IsDigit-add (n % 10) (omega arith), tt))
]

pub to_decimal-IsDigit : (n : ℕ) → All IsDigit (to_decimal n)
unfolding to_decimal
to_decimal-IsDigit n = digits-IsDigit (suc n) n

append-single-ne-nil : (s : Bytes) (c : ℕ) → s ++ c ∷ [] ≢ []
append-single-ne-nil [] c e = cc
append-single-ne-nil (d ∷ s) c e = cc

pub to_decimal-ne-nil : (n : ℕ) → to_decimal n ≢ []
unfolding to_decimal
to_decimal-ne-nil n e = elim (Bool-cases (ltb n 10)) [
  | inl small ↦ cc (rw small at e)
  | inr big ↦ append-single-ne-nil _ _ (rw big at e)
]

-- On digits alone there is no sign to skip.
parse_u16-read_digits : (s : Bytes) → All IsDigit s → s ≢ [] → parse_u16 s ≡ read_digits (some 0) s
unfolding parse_u16
parse_u16-read_digits [] h e = absurd (e refl)
parse_u16-read_digits (c ∷ []) h e = refl
parse_u16-read_digits (c ∷ d ∷ s) h e =
    let plain : (c == b'+') ≡ false = ground (arith, h.0) in rw plain

pub parse_u16-to_decimal : (n : ℕ) → n < 65536 → parse_u16 (to_decimal n) ≡ some n
parse_u16-to_decimal n h =
    parse_u16-read_digits (to_decimal n) (to_decimal-IsDigit n) (to_decimal-ne-nil n)
    ∙ unfold to_decimal in read_digits-digits (suc n) n (omega arith) h

abbrev Below : Option ℕ → Type 0
Below none = Unit
Below (some n) = n < 65536

push_digit-Below : (acc c : ℕ) → Below (push_digit acc c)
unfolding push_digit
push_digit-Below acc c = ground arith

read_digits-Below : (s : Bytes) (acc : Option ℕ) → Below acc → Below (read_digits acc s)
unfolding read_digits
read_digits-Below s none h = tt
read_digits-Below [] (some acc) h = h
read_digits-Below (c ∷ s) (some acc) h =
    read_digits-Below s (push_digit acc c) (push_digit-Below acc c)

parse_u16-Below : (s : Bytes) → Below (parse_u16 s)
unfolding parse_u16
parse_u16-Below [] = tt
parse_u16-Below (c ∷ []) = read_digits-Below (c ∷ []) (some 0) (omega arith)
parse_u16-Below (c ∷ d ∷ s) = ground (
  arith,
  read_digits-Below (d ∷ s) (some 0) (omega arith),
  read_digits-Below (c ∷ d ∷ s) (some 0) (omega arith),
)

-- What is parsed fits sixteen bits.
pub parse_u16-lt : (s : Bytes) {n : ℕ} → parse_u16 s ≡ some n → n < 65536
parse_u16-lt s e = rw e at (parse_u16-Below s)
