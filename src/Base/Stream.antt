-- ===== src/Base/Stream.antt =====
-- What arrives on a connection, and code that waits for it.
use nyasniproxy.Base.Lists.{length}
use nyasniproxy.Base.Ascii.{Bytes}
use nyasniproxy.Base.Errors.{Error, Result, ok, err}
use Prim.Native.Nat.{ℕ, ◌≤◌}
use mathlib.Core.List.{List, [], ◌∷◌, ◌++◌}
use mathlib.Core.Path.{◌≡◌, refl}
use mathlib.Core.Logic.{◌⊎◌, inl, inr}

-- One completed `read`: its bytes, none of them at the end of the stream, or an I/O error.
pub data Read : Type 0 where
  got : Bytes → Read
  broken : Read

-- A future: its value, its error, or still pending on a stream that delivers no more.
pub data Outcome {ℓ} (A : Type ℓ) : Type ℓ where
  done : A → Outcome A
  failed : Error → Outcome A
  waiting : Outcome A

infixl 5 ◌>>=◌ ◌>>◌
abbrev pub ◌>>=◌ {ℓ κ} : {A : Type ℓ} {B : Type κ} → Outcome A → (A → Outcome B) → Outcome B
done a >>= f = f a
failed e >>= f = failed e
waiting >>= f = waiting

abbrev pub ◌>>◌ {ℓ} : {B : Type ℓ} → Outcome (Unit {0}) → Outcome B → Outcome B
m >> k = m >>= λ _. k

-- A fallible step of an `async` body.
abbrev pub lift {ℓ} : {A : Type ℓ} → Result A → Outcome A
lift (ok a) = done a
lift (err e) = failed e

-- `timeout(limit, future).await.context(message)??`: the list of reads is all that arrives
-- before the deadline, so a pending future has timed out.
abbrev pub timeout {ℓ} : {A : Type ℓ} → Error → Outcome A → Result A
timeout e (done a) = ok a
timeout e (failed e') = err e'
timeout e waiting = err e

-- All the bytes that arrive.
abbrev pub received : List Read → Bytes
received [] = []
received (got s ∷ reads) = s ++ received reads
received (broken ∷ reads) = received reads

-- A read that returns at least one byte.
abbrev pub HasBytes : Read → Type 0
HasBytes (got []) = ⊥
HasBytes (got (c ∷ s)) = Unit
HasBytes broken = ⊥

-- No read returns more bytes than its buffer holds.
abbrev pub FitsBuffer : ℕ → Read → Type 0
FitsBuffer n (got s) = length s ≤ n
FitsBuffer n broken = Unit

pub Outcome-cases {ℓ} :
    {A : Type ℓ} (o : Outcome A)
    → ((a : A) × (o ≡ done a)) ⊎ (((e : Error) × (o ≡ failed e)) ⊎ (o ≡ waiting))
Outcome-cases (done a) = inl (a, refl)
Outcome-cases (failed e) = inr (inl (e, refl))
Outcome-cases waiting = inr (inr refl)

pub bind-eq-done {ℓ κ} :
    {A : Type ℓ} {B : Type κ} (m : Outcome A) (f : A → Outcome B) {b : B}
    → (m >>= f) ≡ done b
    → (a : A) × (m ≡ done a) × (f a ≡ done b)
bind-eq-done (done a) f h = (a, refl, h)
bind-eq-done (failed e) f h = cc
bind-eq-done waiting f h = cc
