-- ===== src/Proxy/Conn.antt =====
-- src/proxy.rs: a byte stream to the proxy, for `read_exact` and `write_all`.
use nyasniproxy.Base.{
  ℕ, Bool, true, false, [], ◌++◌, Bytes, Error, leb, if◌then◌else◌, length, take, drop, ◌≡◌, refl,
  sym, ap, ◌∙◌, arith, append-nil, append_assoc, take-append-drop,
}
use nyasniproxy.Base.Stream.{Outcome, done, failed, waiting}

-- The bytes that the proxy sends before the deadline, whether it closes the stream behind them,
-- whether writes succeed, and the bytes written so far.
pub record Conn : Type 0 where
  pub input : Bytes
  pub closed : Bool
  pub writable : Bool
  pub output : Bytes

abbrev pub M : Type 0 → Type 0
M A = Conn → Outcome A × Conn

abbrev pub and_then : {A B : Type 0} → (A → M B) → Outcome A × Conn → Outcome B × Conn
and_then f (done a, c) = f a c
and_then f (failed e, c) = (failed e, c)
and_then f (waiting, c) = (waiting, c)

infixl 5 ◌>>=◌ ◌>>◌
abbrev pub ◌>>=◌ : {A B : Type 0} → M A → (A → M B) → M B
◌>>=◌ m f c = and_then f (m c)

abbrev pub ◌>>◌ : {B : Type 0} → M (Unit {0}) → M B → M B
m >> k = m >>= λ _. k

abbrev pub pure : {A : Type 0} → A → M A
pure a c = (done a, c)

abbrev pub fail : {A : Type 0} → Error → M A
fail e c = (failed e, c)

unfoldable pub write_all : Bytes → M (Unit {0})
write_all s c =
    if c.writable
    then (done tt, record c { output = c.output ++ s })
    else (failed Error.write_failed, c)

-- `read_exact` into a buffer of `n` bytes.
unfoldable pub read_exact : ℕ → M Bytes
read_exact n c =
    if leb n (length c.input)
    then (done (take n c.input), record c { input = drop n c.input })
    else if c.closed
    then (failed Error.read_failed, c)
    else (waiting, c)

-- A step takes bytes from the front of the input and puts bytes behind the output, no others.
pub record Keeps {A : Type 0} (m : M A) : Type 0 where
  pub used : Conn → Bytes
  pub wrote : Conn → Bytes
  pub input_kept : (c : Conn) → c.input ≡ used c ++ (m c).1.input
  pub output_kept : (c : Conn) → (m c).1.output ≡ c.output ++ wrote c

pub Keeps-pure : {A : Type 0} (a : A) → Keeps (pure a)
Keeps-pure a = record {
  used = λ c. [];
  wrote = λ c. [];
  input_kept = λ c. refl;
  output_kept = λ c. sym (append-nil c.output);
}

pub Keeps-fail : {A : Type 0} (e : Error) → Keeps (fail {A = A} e)
Keeps-fail e = record {
  used = λ c. [];
  wrote = λ c. [];
  input_kept = λ c. refl;
  output_kept = λ c. sym (append-nil c.output);
}

pub Keeps-write_all : (s : Bytes) → Keeps (write_all s)
unfolding write_all
Keeps-write_all s = record {
  used = λ c. [];
  wrote = λ c. if c.writable then s else [];
  input_kept = λ c. ground arith;
  output_kept = λ c. ground (arith, append-nil c.output);
}

pub Keeps-read_exact : (n : ℕ) → Keeps (read_exact n)
unfolding read_exact
Keeps-read_exact n = record {
  used = λ c. if leb n (length c.input) then take n c.input else [];
  wrote = λ c. [];
  input_kept = λ c. ground (arith, take-append-drop n c.input);
  output_kept = λ c. ground (arith, append-nil c.output);
}

-- The pieces that the second step takes and writes, if it is run.
abbrev rest_used : {A B : Type 0} {f : A → M B} → ((a : A) → Keeps (f a)) → Outcome A × Conn → Bytes
rest_used k (done a, c) = (k a).used c
rest_used k (failed e, c) = []
rest_used k (waiting, c) = []

abbrev rest_wrote :
    {A B : Type 0} {f : A → M B} → ((a : A) → Keeps (f a)) → Outcome A × Conn → Bytes
rest_wrote k (done a, c) = (k a).wrote c
rest_wrote k (failed e, c) = []
rest_wrote k (waiting, c) = []

rest_input :
    {A B : Type 0} {f : A → M B} (k : (a : A) → Keeps (f a)) (r : Outcome A × Conn)
    → r.1.input ≡ rest_used k r ++ (and_then f r).1.input
rest_input k (done a, c) = (k a).input_kept c
rest_input k (failed e, c) = refl
rest_input k (waiting, c) = refl

rest_output :
    {A B : Type 0} {f : A → M B} (k : (a : A) → Keeps (f a)) (r : Outcome A × Conn)
    → (and_then f r).1.output ≡ r.1.output ++ rest_wrote k r
rest_output k (done a, c) = (k a).output_kept c
rest_output k (failed e, c) = sym (append-nil c.output)
rest_output k (waiting, c) = sym (append-nil c.output)

pub Keeps-bind :
    {A B : Type 0} {m : M A} {f : A → M B} → Keeps m → ((a : A) → Keeps (f a)) → Keeps (m >>= f)
Keeps-bind {m = m} h k = record {
  used = λ c. h.used c ++ rest_used k (m c);
  wrote = λ c. h.wrote c ++ rest_wrote k (m c);
  input_kept = λ c.
      h.input_kept c
      ∙ ap (◌++◌ (h.used c)) (rest_input k (m c))
      ∙ sym (append_assoc (h.used c) (rest_used k (m c)) _);
  output_kept = λ c.
      rest_output k (m c)
      ∙ ap (λ s. s ++ rest_wrote k (m c)) (h.output_kept c)
      ∙ append_assoc c.output (h.wrote c) (rest_wrote k (m c));
}

pub Keeps-if : {A : Type 0} (b : Bool) {m n : M A} → Keeps m → Keeps n → Keeps (if b then m else n)
Keeps-if true h k = h
Keeps-if false h k = k

pub ruleset keeps =
    (Keeps-pure, Keeps-fail, Keeps-write_all, Keeps-read_exact, Keeps-bind, Keeps-if)
