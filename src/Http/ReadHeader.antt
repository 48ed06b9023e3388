-- ===== src/Http/ReadHeader.antt =====
-- src/http.rs: `read_until_header_end` and `read_http_target` on a stream of reads.
use nyasniproxy.Base.{
  ℕ, ◌+◌, ◌≤◌, false, List, [], ◌∷◌, ◌++◌, none, some, Bytes, Result, ok, ◌≡◌, ◌⊎◌, refl, sym, ap,
  ◌∙◌, inl, inr, arith, ltb, ltb-false, le-ltb, Result-cases, length, length-append, Bool-cases,
  Option-cases, append_assoc, append-nil, All, take-append_le,
}
use nyasniproxy.Base.Stream.{
  HasBytes, Read, got, broken, Outcome, done, received, FitsBuffer, bind-eq-done, lift,
}
use nyasniproxy.Target.{Target}
use nyasniproxy.Http.{
  max_http_header, blank_line, header_end, read_header, read_until_header_end, header_text,
  parse_http_host, read_http_target,
}
use nyasniproxy.Http.HeaderEnd.{header_end-Split, header_end-append}

-- What the loop returns: every byte is in the buffer or still on the stream, in order, and the
-- buffer holds a complete header.
pub record IsHeader (sent : Bytes) (header : Bytes) (rest : List Read) : Type 0 where
  pub conserved : header ++ received rest ≡ sent
  pub end : ℕ
  pub complete : header_end header ≡ some end

done_pair :
    {a c : Bytes} {b d : List Read}
    → ◌≡◌ {A = Outcome (Bytes × List Read)} (done (a, b)) (done (c, d))
    → (a ≡ c) × (b ≡ d)
done_pair e = (cc, cc)

-- One round: the buffer after the read decides.
read_header_step :
    (buf : Bytes) (c : ℕ) (s : Bytes) (reads : List Read) {header : Bytes} {rest : List Read}
    → read_header buf (got (c ∷ s) ∷ reads) ≡ done (header, rest)
    → ((header ≡ buf ++ (c ∷ s))
        × (rest ≡ reads)
        × ((k : ℕ) × (header_end (buf ++ (c ∷ s)) ≡ some k)))
      ⊎ ((length (buf ++ (c ∷ s)) ≤ max_http_header)
          × (read_header (buf ++ (c ∷ s)) reads ≡ done (header, rest)))
unfolding read_header
read_header_step buf c s reads e = elim (Option-cases (header_end (buf ++ (c ∷ s)))) [
  | inr (k, found) ↦
      let (h, r) = done_pair (rw (found, read_header) at e) in inl (sym h, sym r, (k, found))
  | inl open_end ↦ elim (Bool-cases (ltb max_http_header (length (buf ++ (c ∷ s))))) [
    | inl long ↦ cc (rw (long, read_header) at (rw (open_end, read_header) at e))
    | inr short ↦
        inr (ltb-false _ _ short, rw (short, read_header) at (rw (open_end, read_header) at e))
  ]
]

read_header-IsHeader :
    (reads : List Read) (buf : Bytes) {header : Bytes} {rest : List Read}
    → read_header buf reads ≡ done (header, rest)
    → IsHeader (buf ++ received reads) header rest
unfolding read_header
read_header-IsHeader [] buf e = cc
read_header-IsHeader (broken ∷ reads) buf e = cc
read_header-IsHeader (got [] ∷ reads) buf e = cc
read_header-IsHeader (got (c ∷ s) ∷ reads) buf {header} {rest} e =
    elim (read_header_step buf c s reads e) [
      | inl (h, r, (k, found)) ↦ record {
        conserved = rw (h, r) (append_assoc buf (c ∷ s) (received reads));
        end = k;
        complete = rw h found;
      }
      | inr (short, later) ↦
          rw (append_assoc buf (c ∷ s) (received reads)) at
            (read_header-IsHeader reads (buf ++ (c ∷ s)) later)
    ]

-- The buffer can pass the limit by one read at most.
read_header-length :
    (reads : List Read) (buf : Bytes) {header : Bytes} {rest : List Read}
    → All (FitsBuffer 1024) reads
    → length buf ≤ max_http_header
    → read_header buf reads ≡ done (header, rest)
    → length header ≤ max_http_header + 1024
unfolding read_header
read_header-length [] buf fits h e = cc
read_header-length (broken ∷ reads) buf fits h e = cc
read_header-length (got [] ∷ reads) buf fits h e = cc
read_header-length (got (c ∷ s) ∷ reads) buf {header} {rest} fits h e =
    elim (read_header_step buf c s reads e) [
      | inl (last, r, (k, found)) ↦ omega (arith, ap length last, length-append buf (c ∷ s), fits.0)
      | inr (short, later) ↦ read_header-length reads (buf ++ (c ∷ s)) fits.1 short later
    ]

pub read_until_header_end-whole :
    (reads : List Read) {header : Bytes} {rest : List Read}
    → read_until_header_end reads ≡ done (header, rest)
    → IsHeader (received reads) header rest
unfolding read_until_header_end
read_until_header_end-whole reads e = read_header-IsHeader reads [] e

-- When `read_until_header_end` returns, the buffer holds a blank line, the buffer and what is
-- left on the stream are together exactly the bytes sent, and the buffer is at most one read of
-- 1024 bytes over the limit of 64 KiB.
pub read_until_header_end-IsHeader :
    (reads : List Read) {header : Bytes} {rest : List Read}
    → All (FitsBuffer 1024) reads
    → read_until_header_end reads ≡ done (header, rest)
    → IsHeader (received reads) header rest × (length header ≤ max_http_header + 1024)
unfolding read_until_header_end
read_until_header_end-IsHeader reads fits e =
    (read_header-IsHeader reads [] e, read_header-length reads [] fits (omega arith) e)

read_header-total :
    (reads : List Read) (buf : Bytes) {k : ℕ}
    → All HasBytes reads
    → header_end buf ≡ none
    → header_end (buf ++ received reads) ≡ some k
    → length (buf ++ received reads) ≤ max_http_header
    → (header : Bytes) × (rest : List Read) × (read_header buf reads ≡ done (header, rest))
unfolding read_header
read_header-total [] buf sound open_end found h = cc (open_end, rw append-nil at found)
read_header-total (broken ∷ reads) buf sound open_end found h = absurd sound.0
read_header-total (got [] ∷ reads) buf sound open_end found h = absurd sound.0
read_header-total (got (c ∷ s) ∷ reads) buf {k} sound open_end found h =
    elim (Option-cases (header_end (buf ++ (c ∷ s)))) [
      | inr (j, here) ↦ (buf ++ (c ∷ s), reads, rw (here, read_header) refl)
      | inl later ↦
          let regroup = append_assoc buf (c ∷ s) (received reads) in
          let short : ltb max_http_header (length (buf ++ (c ∷ s))) ≡ false = le-ltb _ _ (
            omega (arith, h, ap length regroup, length-append (buf ++ (c ∷ s)) (received reads))) in
          let (header, rest, run) =
            read_header-total reads (buf ++ (c ∷ s)) sound.1 later (rw (← regroup) at found)
              (rw (← regroup) at h) in
          (header, rest, rw (later, read_header) (rw (short, read_header) run))
    ]

-- If the bytes sent hold a blank line within 64 KiB and no read fails or ends the stream, then
-- `read_until_header_end` returns, however the bytes are cut into reads.
pub read_until_header_end-total :
    (reads : List Read) {k : ℕ}
    → All HasBytes reads
    → header_end (received reads) ≡ some k
    → length (received reads) ≤ max_http_header
    → (header : Bytes) × (rest : List Read) × (read_until_header_end reads ≡ done (header, rest))
unfolding read_until_header_end
read_until_header_end-total reads sound found h =
    read_header-total reads [] sound (unfold header_end in refl) found h

header_end-le : (s : Bytes) {k : ℕ} → header_end s ≡ some k → k ≤ length s
header_end-le s e =
    let v = header_end-Split s e in
    omega (arith, v.offset, ap length v.splits, length-append v.before (blank_line ++ v.after))

-- `parse_http_host` reads no byte behind the blank line.
pub parse_http_host-append :
    (header more : Bytes) {k : ℕ}
    → header_end header ≡ some k
    → parse_http_host (header ++ more) ≡ parse_http_host header
unfolding parse_http_host
parse_http_host-append header more {k} e =
    rw (header_end-append header more e, e)
      (ap header_text (take-append_le k header more (header_end-le header e)))

lift-done : {m : Result Target} {t : Target} → lift m ≡ done t → m ≡ ok t
lift-done {m} e = elim (Result-cases m) [
  | inl (t', found) ↦ found ∙ ap ok (ground (arith, rw found at e))
  | inr (x, bad) ↦ cc (rw bad at e)
]

done_triple :
    {t u : Target} {a c : Bytes} {b d : List Read}
    → ◌≡◌ {A = Outcome (Target × Bytes × List Read)} (done (t, a, b)) (done (u, c, d))
    → (t ≡ u) × (a ≡ c) × (b ≡ d)
done_triple e = (cc, cc, cc)

-- The target that `read_http_target` returns is the one that `parse_http_host` finds in the
-- whole of the bytes sent, so it does not depend on how the bytes are cut into reads; and the
-- header that it returns, with what is left on the stream, is all that was sent.
pub read_http_target_lem :
    (reads : List Read) {target : Target} {header : Bytes} {rest : List Read}
    → read_http_target reads ≡ done (target, header, rest)
    → (parse_http_host (received reads) ≡ ok target) × (header ++ received rest ≡ received reads)
unfolding read_http_target read_until_header_end
read_http_target_lem reads {target} {header} {rest} e =
    let ((h, r), got_header, later) = bind-eq-done (read_header [] reads) _ e in
    let (t, parsed, returned) = bind-eq-done (lift (parse_http_host h)) _ later in
    let found = read_header-IsHeader reads [] got_header in
    let parsed_all : parse_http_host (received reads) ≡ ok t =
      ap parse_http_host (sym found.conserved)
      ∙ parse_http_host-append h (received r) found.complete
      ∙ lift-done parsed in
    let (same_target, same_header, same_rest) = done_triple returned in
    (
      parsed_all ∙ ap ok same_target,
      ap (λ s. s ++ received rest) (sym same_header)
          ∙ ap (λ q. h ++ received q) (sym same_rest)
          ∙ found.conserved,
    )
