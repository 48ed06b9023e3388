-- ===== src/Proxy/HttpConnect/Response.antt =====
-- src/proxy.rs: what `read_connect_response` returns.
use nyasniproxy.Base.{
  ℕ, ◌+◌, true, false, List, [], ◌∷◌, ◌++◌, none, some, Bytes, Error, ◌≡◌, sym, ap, ◌∙◌, inl, inr,
  arith, ltb, ap₂, length, take, drop, Bool-cases, Option-cases, append_assoc, take-length_append,
  drop-length_append, length-append,
}
use mathlib.Core.Path.{subst₂}
use nyasniproxy.Base.Stream.{Read, got, broken, Outcome, done, failed, received}
use nyasniproxy.Http.{header_end, max_http_header, blank_line}
use nyasniproxy.Http.HeaderEnd.{header_end-Split}
use nyasniproxy.Proxy.HttpConnect.{ConnectResponse, read_response}

-- What is returned for the bytes sent.
pub record IsResponse (sent : Bytes) (r : ConnectResponse) (rest : List Read) : Type 0 where
  pub conserved : r.header ++ (blank_line ++ (r.leftover ++ received rest)) ≡ sent
  pub first : header_end (r.header ++ (blank_line ++ r.leftover)) ≡ some (length r.header)

cut_response :
    (buf : Bytes) {k : ℕ}
    → header_end buf ≡ some k
    → (take k buf ++ (blank_line ++ drop (k + 4) buf) ≡ buf) × (length (take k buf) ≡ k)
cut_response buf {k} e =
    let v = header_end-Split buf e in
    let front : take k buf ≡ v.before =
      ap (λ n. take n buf) (sym v.offset)
      ∙ ap (take (length v.before)) v.splits
      ∙ take-length_append v.before _ in
    let size : k + 4 ≡ length (v.before ++ blank_line) =
      omega (arith, v.offset, length-append v.before blank_line) in
    let back : drop (k + 4) buf ≡ v.after =
      ap (λ n. drop n buf) size
      ∙ ap (drop (length (v.before ++ blank_line)))
          (v.splits ∙ sym (append_assoc v.before blank_line v.after))
      ∙ drop-length_append (v.before ++ blank_line) v.after in
    (ap₂ (λ a b. a ++ (blank_line ++ b)) front back ∙ sym v.splits, ap length front ∙ v.offset)

done_pair :
    {a c : ConnectResponse} {b d : List Read}
    → ◌≡◌ {A = Outcome (ConnectResponse × List Read)} (done (a, b)) (done (c, d))
    → (a ≡ c) × (b ≡ d)
done_pair e = (cc, cc)

pub read_response-IsResponse :
    (reads : List Read) (buf : Bytes) {r : ConnectResponse} {rest : List Read}
    → read_response buf reads ≡ done (r, rest)
    → IsResponse (buf ++ received reads) r rest
unfolding read_response
read_response-IsResponse [] buf e = cc
read_response-IsResponse (broken ∷ reads) buf e = cc
read_response-IsResponse (got [] ∷ reads) buf e = cc
read_response-IsResponse (got (c ∷ s) ∷ reads) buf {r} {rest} e =
    elim (Option-cases (header_end (buf ++ (c ∷ s)))) [
      | inr (k, complete) ↦
          let (same_r, same_rest) = done_pair (rw (complete, read_response) at e) in
          let (whole, size) = cut_response (buf ++ (c ∷ s)) complete in
          subst₂ (IsResponse (buf ++ ((c ∷ s) ++ received reads))) same_r same_rest
            (last k whole size complete)
      | inl open_end ↦ rw (append_assoc buf (c ∷ s) (received reads)) at (
          read_response-IsResponse reads (buf ++ (c ∷ s))
            (next open_end (rw (open_end, read_response) at e)))
    ]
  where
    buffer : Bytes
    buffer = buf ++ (c ∷ s)

    last :
        (k : ℕ)
        → take k buffer ++ (blank_line ++ drop (k + 4) buffer) ≡ buffer
        → length (take k buffer) ≡ k
        → header_end buffer ≡ some k
        → IsResponse
            (buf ++ ((c ∷ s) ++ received reads))
            (record { header = take k buffer; leftover = drop (k + 4) buffer })
            reads
    last k whole size complete = record {
      conserved =
          ap (◌++◌ (take k buffer))
            (sym (append_assoc blank_line (drop (k + 4) buffer) (received reads)))
          ∙ sym (append_assoc (take k buffer) _ (received reads))
          ∙ ap (λ t. t ++ received reads) whole
          ∙ append_assoc buf (c ∷ s) (received reads);
      first = ap header_end whole ∙ complete ∙ ap some (sym size);
    }

    next :
        header_end buffer ≡ none
        → (elim (ltb max_http_header (length buffer))
            as (λ _. Outcome (ConnectResponse × List Read)) [
              | true ↦ failed Error.response_too_large
              | false ↦ read_response buffer reads
            ])
          ≡ done (r, rest)
        → read_response buffer reads ≡ done (r, rest)
    next h q = elim (Bool-cases (ltb max_http_header (length buffer))) [
      | inl long ↦ cc (rw long at q)
      | inr short ↦ rw short at q
    ]
