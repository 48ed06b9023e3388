-- ===== src/Proxy/Socks/Exchanged.antt =====
-- src/proxy.rs: the bytes that a successful step of the SOCKS5 handshake reads and writes.
use nyasniproxy.Base.{
  ℕ, Bool, true, false, [], ◌++◌, Bytes, ◌≡◌, refl, sym, ap, ◌∙◌, ◌⊎◌, inl, inr, arith, leb,
  if◌then◌else◌, length, drop, bytes_eq, bytes_eq_iff, append_assoc, append-nil, take-append-drop,
  length-take, Bool-cases, subst,
}
use nyasniproxy.Base.Stream.{Outcome, done, failed, waiting}
use nyasniproxy.Proxy.Conn.{Conn, M, and_then, ◌>>=◌, ◌>>◌, pure, write_all, read_exact}

-- Between two states, these bytes were read and these were written.
pub record Exchanged (c c' : Conn) (read wrote : Bytes) : Type 0 where
  pub input_is : c.input ≡ read ++ c'.input
  pub output_is : c'.output ≡ c.output ++ wrote

pub Exchanged-trans :
    {c d e : Conn} {r s w v : Bytes}
    → Exchanged c d r w
    → Exchanged d e s v
    → Exchanged c e (r ++ s) (w ++ v)
Exchanged-trans {c} {d} {e} {r} {s} {w} {v} x y = record {
  input_is = x.input_is ∙ ap (◌++◌ r) y.input_is ∙ sym (append_assoc r s e.input);
  output_is = y.output_is ∙ ap (λ o. o ++ v) x.output_is ∙ append_assoc c.output w v;
}

pub Exchanged-refl : (c : Conn) → Exchanged c c [] []
Exchanged-refl c = record { input_is = refl; output_is = sym (append-nil c.output) }

pub done_pair :
    {A : Type 0} {a b : A} {c d : Conn}
    → ◌≡◌ {A = Outcome A × Conn} (done a, c) (done b, d)
    → (a ≡ b) × (c ≡ d)
done_pair e = (cc, cc)

-- Both parts of a step that succeeds.
pub and_then-done :
    {A B : Type 0} (f : A → M B) (r : Outcome A × Conn) {b : B} {c' : Conn}
    → and_then f r ≡ (done b, c')
    → (a : A) × (d : Conn) × (r ≡ (done a, d)) × (f a d ≡ (done b, c'))
and_then-done f (done a, d) q = (a, d, refl, q)
and_then-done f (failed x, d) q = cc
and_then-done f (waiting, d) q = cc

pub bind-done :
    {A B : Type 0} (m : M A) (f : A → M B) (c : Conn) {b : B} {c' : Conn}
    → (m >>= f) c ≡ (done b, c')
    → (a : A) × (d : Conn) × (m c ≡ (done a, d)) × (f a d ≡ (done b, c'))
bind-done m f c e = and_then-done f (m c) e

pub read_exact-done :
    (n : ℕ) (c : Conn) {s : Bytes} {c' : Conn}
    → read_exact n c ≡ (done s, c')
    → (length s ≡ n) × Exchanged c c' s []
unfolding read_exact
read_exact-done n c {s} {c'} e = elim (Bool-cases (leb n (length c.input))) [
  | inl enough ↦
      let (text, conn) = done_pair (rw enough at e) in
      (
        ap length (sym text) ∙ (ground (arith, length-take n c.input)),
        record {
          input_is =
              sym (take-append-drop n c.input)
              ∙ ap (λ t. t ++ drop n c.input) text
              ∙ ap (λ d. s ++ Conn.input d) conn;
          output_is = ap Conn.output (sym conn) ∙ sym (append-nil c.output);
        },
      )
  | inr short ↦ elim (Bool-cases c.closed) [
    | inl t ↦ cc (rw t at (rw short at e))
    | inr f ↦ cc (rw f at (rw short at e))
  ]
]

pub write_all-done :
    (s : Bytes) (c : Conn) {u : Unit {0}} {c' : Conn}
    → write_all s c ≡ (done u, c')
    → Exchanged c c' [] s
unfolding write_all
write_all-done s c {u} {c'} e = elim (Bool-cases c.writable) [
  | inl t ↦
      let (same, conn) = done_pair (rw t at e) in
      record { input_is = ap Conn.input conn; output_is = ap Conn.output (sym conn) }
  | inr f ↦ cc (rw f at e)
]

-- The choice of a branch in a step that succeeds.
pub if_done :
    {A : Type 0} (b : Bool) (m n : M A) (c : Conn) {r : Outcome A × Conn}
    → (if b then m else n) c ≡ r
    → ((b ≡ true) × (m c ≡ r)) ⊎ ((b ≡ false) × (n c ≡ r))
if_done true m n c e = inl (refl, e)
if_done false m n c e = inr (refl, e)

-- A text is written, and an answer read for it.
pub asked :
    (s : Bytes) (n : ℕ) (f : Bytes → M (Unit {0})) (c : Conn) {v : Unit {0}} {c' : Conn}
    → (write_all s >> (read_exact n >>= f)) c ≡ (done v, c')
    → (answer : Bytes) × (d : Conn) × (length answer ≡ n)
      × Exchanged c d answer s
      × (f answer d ≡ (done v, c'))
asked s n f c e =
    let (w, mid, wrote, e1) = bind-done (write_all s) (λ _. read_exact n >>= f) c e in
    let (answer, d, read, e2) = bind-done (read_exact n) f mid e1 in
    let (l, x) = read_exact-done n mid read in
    (
      answer,
      d,
      l,
      subst (Exchanged c d answer) (append-nil s) (Exchanged-trans (write_all-done s c wrote) x),
      e2,
    )

pub at_end :
    {c d c' : Conn} {r w : Bytes} {v : Unit {0}}
    → pure tt d ≡ (done v, c')
    → Exchanged c d r w
    → Exchanged c c' r w
at_end {c} {r = r} {w} e x = subst (λ z. Exchanged c z r w) (done_pair e).1 x

-- The end of an exchange, whose answer a test has recognised.
pub recognised :
    (answer expected : Bytes) {c d c' : Conn} {w : Bytes} {v : Unit {0}}
    → bytes_eq answer expected ≡ true
    → pure tt d ≡ (done v, c')
    → Exchanged c d answer w
    → Exchanged c c' expected w
recognised answer expected {c} {d} {c'} {w} t e x =
    subst (λ s. Exchanged c c' s w) ((bytes_eq_iff answer expected).0 t) (at_end e x)
