-- ===== src/Proxy/Wire.antt =====
-- src/proxy.rs: the stream below a tunnel, a `TcpStream` or a `TlsStream`, as far as the tunnel
-- uses it.
use nyasniproxy.Base.{
  ℕ, zero, suc, Bool, true, List, [], ◌∷◌, ◌++◌, Bytes, Error, ◌≡◌, refl, sym, ap, ◌∙◌, arith, ltb,
  if◌then◌else◌, length, take, drop, min, append_assoc, append-nil, take-append-drop, if-elim,
}
use nyasniproxy.Base.Stream.{Read, got, broken, Outcome, done, failed, waiting, received}

-- What one `poll_write` meets: room for some bytes, or an I/O error.
pub data Room : Type 0 where
  takes : ℕ → Room
  refuses : Room

-- What arrives, read by read; what the next writes meet, `[]` for a stream that stays pending; what
-- a flush and a shutdown come to; the bytes written so far, and whether the write side is shut
-- down.
pub record Wire : Type 0 where
  pub reads : List Read
  pub rooms : List Room
  pub on_flush : Outcome (Unit {0})
  pub on_shutdown : Outcome (Unit {0})
  pub output : Bytes
  pub shut : Bool

-- A read into a buffer with room for `n` bytes. What does not fit stays.
unfoldable pub poll_inner : ℕ → List Read → Outcome Bytes × List Read
poll_inner n [] = (waiting, [])
poll_inner n (broken ∷ reads) = (failed Error.read_failed, reads)
poll_inner n (got s ∷ reads) =
    if ltb n (length s) then (done (take n s), got (drop n s) ∷ reads) else (done s, reads)

abbrev pub delivered : Outcome Bytes → Bytes
delivered (done s) = s
delivered (failed e) = []
delivered waiting = []

pub poll_inner-received :
    (n : ℕ) (reads : List Read)
    → delivered (poll_inner n reads).0 ++ received (poll_inner n reads).1 ≡ received reads
unfolding poll_inner
poll_inner-received n [] = refl
poll_inner-received n (broken ∷ reads) = refl
poll_inner-received n (got s ∷ reads) =
    if-elim (λ (r : Outcome Bytes × List Read). delivered r.0 ++ received r.1 ≡ s ++ received reads)
      (ltb n (length s)) _ _
      (λ _.
        sym (append_assoc (take n s) (drop n s) (received reads))
        ∙ ap (λ t. t ++ received reads) (take-append-drop n s))
      (λ _. refl)

pub poll_inner-empty : (reads : List Read) → delivered (poll_inner 0 reads).0 ≡ []
unfolding poll_inner
poll_inner-empty [] = refl
poll_inner-empty (broken ∷ reads) = refl
poll_inner-empty (got [] ∷ reads) = refl
poll_inner-empty (got (c ∷ s) ∷ reads) =
    let some_bytes : ltb 0 (length (c ∷ s)) ≡ true = ground arith in rw some_bytes refl

-- One write: the number of bytes that the stream takes, from the front of the buffer.
write_at : List Room → Bytes → Wire → Outcome ℕ × Wire
write_at [] buf w = (waiting, w)
write_at (refuses ∷ rooms) buf w = (failed Error.write_failed, record w { rooms = rooms })
write_at (takes n ∷ rooms) buf w = (
  done (min n (length buf)),
  record w { rooms = rooms; output = w.output ++ take (min n (length buf)) buf },
)

unfoldable pub write_some : Bytes → Wire → Outcome ℕ × Wire
unfolding write_at
write_some buf w = write_at w.rooms buf w

abbrev pub flush : Wire → Outcome (Unit {0}) × Wire
flush w = (w.on_flush, w)

abbrev pub shutdown : Wire → Outcome (Unit {0}) × Wire
shutdown w = (w.on_shutdown, record w { shut = true })

-- The bytes of a buffer that a write has taken.
abbrev pub taken : Outcome ℕ → Bytes → Bytes
taken (done n) buf = take n buf
taken (failed e) buf = []
taken waiting buf = []

pub write_some-output :
    (buf : Bytes) (w : Wire)
    → ((write_some buf w).1.output ≡ w.output ++ taken (write_some buf w).0 buf)
      × ((write_some buf w).1.reads ≡ w.reads)
unfolding write_some
write_some-output buf w = go w.rooms
  where
    go :
        (rooms : List Room)
        → ((write_at rooms buf w).1.output ≡ w.output ++ taken (write_at rooms buf w).0 buf)
          × ((write_at rooms buf w).1.reads ≡ w.reads)
    go [] = unfold write_at in (sym (append-nil w.output), refl)
    go (refuses ∷ rooms) = unfold write_at in (sym (append-nil w.output), refl)
    go (takes n ∷ rooms) = unfold write_at in (refl, refl)

-- `write_all`: writes until all bytes are taken; a write that takes none is an error.
write_loop : List Room → Bytes → Outcome (Unit {0}) × (List Room × Bytes)
write_loop rooms [] = (done tt, (rooms, []))
write_loop [] (c ∷ s) = (waiting, ([], []))
write_loop (refuses ∷ rooms) (c ∷ s) = (failed Error.write_failed, (rooms, []))
write_loop (takes zero ∷ rooms) (c ∷ s) = (failed Error.write_failed, (rooms, []))
write_loop (takes (suc n) ∷ rooms) (c ∷ s) =
    let (r, (left, out)) = write_loop rooms (drop n s) in (r, (left, c ∷ (take n s ++ out)))

unfoldable pub write_all : Bytes → Wire → Outcome (Unit {0}) × Wire
unfolding write_loop
write_all s w =
    let (r, (left, out)) = write_loop w.rooms s in
    (r, record w { rooms = left; output = w.output ++ out })

write_loop-done :
    (rooms : List Room) (s : Bytes) {u : Unit {0}}
    → (write_loop rooms s).0 ≡ done u
    → (write_loop rooms s).1.1 ≡ s
unfolding write_loop
write_loop-done [] [] e = refl
write_loop-done (r ∷ rooms) [] e = refl
write_loop-done [] (c ∷ s) e = cc
write_loop-done (refuses ∷ rooms) (c ∷ s) e = cc
write_loop-done (takes zero ∷ rooms) (c ∷ s) e = cc
write_loop-done (takes (suc n) ∷ rooms) (c ∷ s) e =
    ap (λ t. c ∷ (take n s ++ t)) (write_loop-done rooms (drop n s) e)
    ∙ ap (◌∷◌ c) (take-append-drop n s)

-- A `write_all` that succeeds has written the whole text behind what was written, and read nothing.
pub write_all-output :
    (s : Bytes) (w : Wire) {u : Unit {0}}
    → (write_all s w).0 ≡ done u
    → ((write_all s w).1.output ≡ w.output ++ s) × ((write_all s w).1.reads ≡ w.reads)
unfolding write_all
write_all-output s w e = (ap (◌++◌ w.output) (write_loop-done w.rooms s e), refl)
