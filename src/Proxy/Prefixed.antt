-- ===== src/Proxy/Prefixed.antt =====
-- src/proxy.rs: `PrefixedStream`, which returns bytes already read before those of its stream.
use nyasniproxy.Base.{
  ℕ, zero, suc, ==_iff, ◌+◌, ◌≤◌, ◌<◌, true, ◌&&◌, List, [], ◌∷◌, ◌++◌, Bytes, ◌≡◌, refl, sym, ap,
  ◌∙◌, inl, inr, arith, ltb, ◌==◌, if◌then◌else◌, length, take, drop, Bool-cases, min, append_assoc,
  take-append-drop, length-drop, length-take, if-elim,
}
use native.Mathlib.Nat.{zero-add}
use nyasniproxy.Base.Stream.{Read, Outcome, done, received}
use nyasniproxy.Proxy.Wire
use nyasniproxy.Proxy.Wire.{
  Wire, poll_inner, write_some, flush, shutdown, delivered, poll_inner-received, poll_inner-empty,
}

pub record PrefixedStream : Type 0 where
  pub stream : Wire
  pub prefix : Bytes
  pub prefix_offset : ℕ

unfoldable pub new : Wire → Bytes → PrefixedStream
new stream prefix = record { stream = stream; prefix = prefix; prefix_offset = 0 }

with_stream : PrefixedStream → Outcome Bytes × List Read → Outcome Bytes × PrefixedStream
with_stream p (r, reads) = (r, record p { stream = record p.stream { reads = reads } })

-- The offset after `n` bytes of the prefix; a prefix that is used up is cleared.
advance : PrefixedStream → ℕ → PrefixedStream
advance p n =
    if p.prefix_offset + n == length p.prefix
    then record p { prefix = []; prefix_offset = 0 }
    else record p { prefix_offset = p.prefix_offset + n }

-- `poll_read` into a buffer with room for `n` bytes.
unfoldable pub poll_read : ℕ → PrefixedStream → Outcome Bytes × PrefixedStream
unfolding with_stream advance poll_inner
poll_read n p =
    if ltb p.prefix_offset (length p.prefix) && ltb 0 n
    then (
      done (take (min (length (drop p.prefix_offset p.prefix)) n) (drop p.prefix_offset p.prefix)),
      advance p (min (length (drop p.prefix_offset p.prefix)) n),
    )
    else with_stream p (poll_inner n p.stream.reads)

-- Writing, flushing and shutdown are those of the stream below.
with_wire {ℓ} : {A : Type ℓ} → PrefixedStream → Outcome A × Wire → Outcome A × PrefixedStream
with_wire p (r, w) = (r, record p { stream = w })

unfoldable pub poll_write : Bytes → PrefixedStream → Outcome ℕ × PrefixedStream
unfolding with_wire
poll_write buf p = with_wire p (write_some buf p.stream)

unfoldable pub poll_flush : PrefixedStream → Outcome (Unit {0}) × PrefixedStream
unfolding with_wire
poll_flush p = with_wire p (flush p.stream)

unfoldable pub poll_shutdown : PrefixedStream → Outcome (Unit {0}) × PrefixedStream
unfolding with_wire
poll_shutdown p = with_wire p (shutdown p.stream)

-- `AsyncWriteExt::write_all`, the loop over `poll_write`.
unfoldable pub write_all : Bytes → PrefixedStream → Outcome (Unit {0}) × PrefixedStream
unfolding with_wire
write_all s p = with_wire p (Wire.write_all s p.stream)

-- All that is still to be read.
abbrev pub pending : PrefixedStream → Bytes
pending p = drop p.prefix_offset p.prefix ++ received p.stream.reads

drop-nil : (n : ℕ) → drop n (let s : Bytes = [] in s) ≡ []
drop-nil zero = refl
drop-nil (suc n) = refl

suc-add_eq : (m n : ℕ) → suc m + n ≡ suc (m + n)
suc-add_eq m n = omega arith

drop-add : (m n : ℕ) (s : Bytes) → drop (m + n) s ≡ drop n (drop m s)
drop-add zero n s = rw zero-add refl
drop-add (suc m) n [] = ap (λ k. drop k []) (suc-add_eq m n) ∙ sym (drop-nil n)
drop-add (suc m) n (c ∷ s) = ap (λ k. drop k (c ∷ s)) (suc-add_eq m n) ∙ drop-add m n s

take_beyond : (n : ℕ) (s : Bytes) → length s ≤ n → take n s ≡ s
take_beyond zero [] h = refl
take_beyond zero (c ∷ s) h = absurd (omega arith)
take_beyond (suc n) [] h = refl
take_beyond (suc n) (c ∷ s) h = ap (◌∷◌ c) (take_beyond n s (omega arith))

drop_beyond : (n : ℕ) (s : Bytes) → length s ≤ n → drop n s ≡ []
drop_beyond zero [] h = refl
drop_beyond zero (c ∷ s) h = absurd (omega arith)
drop_beyond (suc n) [] h = refl
drop_beyond (suc n) (c ∷ s) h = drop_beyond n s (omega arith)

advance-pending :
    (p : PrefixedStream) (k : ℕ)
    → take k (drop p.prefix_offset p.prefix) ++ pending (advance p k) ≡ pending p
unfolding advance
advance-pending p k =
    if-elim
      (λ (q : PrefixedStream). take k (drop p.prefix_offset p.prefix) ++ pending q ≡ pending p)
      (p.prefix_offset + k == length p.prefix) _ _
      (λ used_up.
        ap (λ s. s ++ received p.stream.reads)
          (take_beyond k (drop p.prefix_offset p.prefix)
            (omega (arith, (==_iff _ _).0 used_up, length-drop p.prefix_offset p.prefix))))
      (λ _.
        ap (λ s. take k (drop p.prefix_offset p.prefix) ++ (s ++ received p.stream.reads))
          (drop-add p.prefix_offset k p.prefix)
        ∙ sym (append_assoc (take k (drop p.prefix_offset p.prefix)) _ _)
        ∙ ap (λ s. s ++ received p.stream.reads)
            (take-append-drop k (drop p.prefix_offset p.prefix)))

-- Every read, whatever room its buffer has, returns the next bytes of what is pending, first the
-- rest of the prefix and then the stream, and leaves exactly the bytes behind them pending.
pub poll_read-pending :
    (n : ℕ) (p : PrefixedStream)
    → delivered (poll_read n p).0 ++ pending (poll_read n p).1 ≡ pending p
unfolding poll_read with_stream
poll_read-pending n p =
    if-elim (λ (r : Outcome Bytes × PrefixedStream). delivered r.0 ++ pending r.1 ≡ pending p)
      (ltb p.prefix_offset (length p.prefix) && ltb 0 n) _ _
      (λ _. advance-pending p (min (length (drop p.prefix_offset p.prefix)) n))
      (λ idle. elim (Bool-cases (ltb 0 n)) [
        | inl room ↦
            let past : length p.prefix ≤ p.prefix_offset = ground arith in
            let spent = drop_beyond p.prefix_offset p.prefix past in
            ap
              (λ s.
                delivered (poll_inner n p.stream.reads).0
                ++ (s ++ received (poll_inner n p.stream.reads).1))
              spent
            ∙ poll_inner-received n p.stream.reads
            ∙ ap (λ s. s ++ received p.stream.reads) (sym spent)
        | inr full ↦
            let no_room : n ≡ 0 = ground arith in
            rw no_room (
              rw (poll_inner-empty p.stream.reads) (
                ap (◌++◌ (drop p.prefix_offset p.prefix)) (
                  ap (λ s. s ++ received (poll_inner 0 p.stream.reads).1)
                    (sym (poll_inner-empty p.stream.reads))
                  ∙ poll_inner-received 0 p.stream.reads)))
      ])

advance-output : (p : PrefixedStream) (k : ℕ) → (advance p k).stream.output ≡ p.stream.output
unfolding advance
advance-output p k =
    if-elim (λ (q : PrefixedStream). q.stream.output ≡ p.stream.output)
      (p.prefix_offset + k == length p.prefix) _ _ (λ _. refl) (λ _. refl)

-- Reading writes nothing.
pub poll_read-output :
    (n : ℕ) (p : PrefixedStream) → (poll_read n p).1.stream.output ≡ p.stream.output
unfolding poll_read with_stream
poll_read-output n p =
    if-elim (λ (r : Outcome Bytes × PrefixedStream). r.1.stream.output ≡ p.stream.output)
      (ltb p.prefix_offset (length p.prefix) && ltb 0 n) _ _ (λ _. advance-output p _) (λ _. refl)

-- A read with room returns bytes as long as the prefix holds some.
pub poll_read-progress :
    (n : ℕ) (p : PrefixedStream)
    → 0 < n
    → p.prefix_offset < length p.prefix
    → 0 < length (delivered (poll_read n p).0)
unfolding poll_read
poll_read-progress n p h k =
    let both : (ltb p.prefix_offset (length p.prefix) && ltb 0 n) ≡ true = ground arith in
    rw both (
      omega (
        arith,
        length-take (min (length (drop p.prefix_offset p.prefix)) n)
            (drop p.prefix_offset p.prefix),
        length-drop p.prefix_offset p.prefix,
      ))
