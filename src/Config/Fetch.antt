-- ===== src/Config/Fetch.antt =====
-- src/config.rs: `fetch_config_limited`, and what it accepts.
use nyasniproxy.Base.{
  ok_same, ℕ, zero, suc, subst, ◌+◌, ◌≤◌, ◌<◌, Bool, true, false, not, List, [], ◌∷◌, ◌++◌, Option,
  none, some, Bytes, Result, Error, ok, err, ◌≡◌, refl, sym, ap, ◌∙◌, inl, inr, arith, ltb,
  ltb-false, if◌then◌else◌, length, take, min, bail_if, or_fail, bind-eq-ok, Bool-cases,
  append_assoc, append-nil, ◌>>=◌, ◌>>◌, length-append,
}
use nyasniproxy.Base.Utf8.{is_utf8}
use nyasniproxy.Config.{ConfigSource, file, url, max_config_bytes}

-- A file: it cannot be opened, its reading breaks off, or its content.
pub data FileRead : Type 0 where
  no_file read_fails : FileRead
  content : Bytes → FileRead

-- `read_file_limited`.
unfoldable pub read_file_limited : FileRead → ℕ → Result Bytes
read_file_limited no_file max_bytes = err Error.read_config_failed
read_file_limited read_fails max_bytes = err Error.read_config_failed
read_file_limited (content s) max_bytes =
    let buf = take (max_bytes + 1) s in
    if ltb max_bytes (length buf)
    then err Error.config_too_large
    else if is_utf8 buf
    then ok buf
    else err Error.config_not_utf8

-- An answer to a request: its status, the announced length, and the body chunk by chunk, `none`
-- where the reading breaks off.
pub record Response : Type 0 where
  pub is_success : Bool
  pub content_length : Option ℕ
  pub chunks : List (Option Bytes)

-- `usize::saturating_add`.
abbrev pub saturating_add : ℕ → ℕ → ℕ
saturating_add a b = min (a + b) 18446744073709551615

-- The loop over the chunks.
unfoldable pub read_chunks : ℕ → Bytes → List (Option Bytes) → Result Bytes
read_chunks max_bytes buf [] = ok buf
read_chunks max_bytes buf (none ∷ chunks) = err Error.url_body_failed
read_chunks max_bytes buf (some chunk ∷ chunks) =
    elim (ltb max_bytes (saturating_add (length buf) (length chunk))) [
      | true ↦ err Error.url_too_large
      | false ↦ read_chunks max_bytes (buf ++ chunk) chunks
    ]

announced_too_large : ℕ → Option ℕ → Bool
announced_too_large max_bytes none = false
announced_too_large max_bytes (some len) = ltb max_bytes len

-- `fetch_url_limited`.
unfoldable pub fetch_url_limited : Option Response → ℕ → Result Bytes
unfolding announced_too_large read_chunks
fetch_url_limited answer max_bytes = do
  response ← or_fail answer Error.fetch_url_failed
  bail_if (not response.is_success) Error.fetch_url_status
  bail_if (announced_too_large max_bytes response.content_length) Error.url_too_large
  buf ← read_chunks max_bytes [] response.chunks
  if is_utf8 buf then ok buf else err Error.config_not_utf8

-- What the sources answer: the files and the URLs.
pub record World : Type 0 where
  pub files : Bytes → FileRead
  pub urls : Bytes → Option Response

unfoldable pub fetch_config_limited : World → ConfigSource → ℕ → Result Bytes
fetch_config_limited w (file p) max_bytes = read_file_limited (w.files p) max_bytes
fetch_config_limited w (url u) max_bytes = fetch_url_limited (w.urls u) max_bytes

unfoldable pub fetch_config : World → ConfigSource → Result Bytes
fetch_config w source = fetch_config_limited w source max_config_bytes

-- The body that the chunks make, if the reading does not break off.
abbrev pub whole : List (Option Bytes) → Option Bytes
whole [] = some []
whole (none ∷ chunks) = none
whole (some chunk ∷ chunks) = elim (whole chunks) [ none ↦ none | some s ↦ some (chunk ++ s) ]

-- All that a source holds.
abbrev pub file_body : FileRead → Option Bytes
file_body (content s) = some s
file_body _ = none

abbrev pub url_body : Option Response → Option Bytes
url_body none = none
url_body (some r) = whole r.chunks

abbrev pub body_of : World → ConfigSource → Option Bytes
body_of w (file p) = file_body (w.files p)
body_of w (url u) = url_body (w.urls u)

pub record IsWhole (body : Option Bytes) (max_bytes : ℕ) (text : Bytes) : Type 0 where
  pub all : body ≡ some text
  pub bounded : length text ≤ max_bytes
  pub valid : is_utf8 text ≡ true

take_short : (k n : ℕ) (s : Bytes) → n < k → length (take k s) ≤ n → take k s ≡ s
take_short zero n s h e = absurd (omega arith)
take_short (suc k) n [] h e = refl
take_short (suc k) zero (c ∷ s) h e = absurd (omega arith)
take_short (suc k) (suc n) (c ∷ s) h e =
    ap (◌∷◌ c) (take_short k n s (omega arith) (omega (arith, e)))

utf8-ok :
    (s : Bytes) {text : Bytes}
    → ◌≡◌ {A = Result Bytes} (if is_utf8 s then ok s else err Error.config_not_utf8) (ok text)
    → (s ≡ text) × (is_utf8 s ≡ true)
utf8-ok s e = elim (Bool-cases (is_utf8 s)) [
  | inl t ↦ (ok_same (rw t at e), t)
  | inr f ↦ cc (rw f at e)
]

read_file_limited-IsWhole :
    (f : FileRead) (max_bytes : ℕ) {text : Bytes}
    → read_file_limited f max_bytes ≡ ok text
    → IsWhole (file_body f) max_bytes text
unfolding read_file_limited
read_file_limited-IsWhole no_file m e = cc
read_file_limited-IsWhole read_fails m e = cc
read_file_limited-IsWhole (content s) m {text} e =
    elim (Bool-cases (ltb m (length (take (m + 1) s)))) [
      | inl long ↦ cc (rw long at e)
      | inr short ↦
          let fits = ltb-false _ _ short in
          let (same, valid) = utf8-ok (take (m + 1) s) (rw short at e) in
          record {
            all = ap some (sym (take_short (m + 1) m s (omega arith) fits) ∙ same);
            bounded = omega (arith, fits, ap length same);
            valid = ap is_utf8 (sym same) ∙ valid;
          }
    ]

-- What the loop over the chunks has read.
read_chunks-whole :
    (m : ℕ) (chunks : List (Option Bytes)) (buf : Bytes) {out : Bytes}
    → m < 18446744073709551615
    → length buf ≤ m
    → read_chunks m buf chunks ≡ ok out
    → (s : Bytes) × (whole chunks ≡ some s) × (buf ++ s ≡ out) × (length out ≤ m)
unfolding read_chunks
read_chunks-whole m [] buf small fits e =
    ([], refl, append-nil buf ∙ ok_same e, subst (λ o. length o ≤ m) (ok_same e) fits)
read_chunks-whole m (none ∷ chunks) buf small fits e = cc
read_chunks-whole m (some chunk ∷ chunks) buf small fits e =
    elim (Bool-cases (ltb m (saturating_add (length buf) (length chunk)))) [
      | inl long ↦ cc (rw (long, read_chunks) at e)
      | inr short ↦
          let enough = ltb-false _ _ short in
          let (s, w, same, bounded) =
            read_chunks-whole m chunks (buf ++ chunk) small
              (omega (arith, length-append buf chunk, enough)) (rw (short, read_chunks) at e) in
          (chunk ++ s, rw w refl, sym (append_assoc buf chunk s) ∙ same, bounded)
    ]

fetch_url_limited-IsWhole :
    (answer : Option Response) (m : ℕ) {text : Bytes}
    → m < 18446744073709551615
    → fetch_url_limited answer m ≡ ok text
    → IsWhole (url_body answer) m text
unfolding fetch_url_limited
fetch_url_limited-IsWhole none m small e = cc
fetch_url_limited-IsWhole (some r) m small e =
    let (u, fine, e1) = bind-eq-ok (bail_if (not r.is_success) Error.fetch_url_status) _ e in
    let (v, announced, e2) =
      bind-eq-ok (bail_if (announced_too_large m r.content_length) Error.url_too_large) _ e1 in
    let (buf, read, e3) = bind-eq-ok (read_chunks m [] r.chunks) _ e2 in
    let (s, w, same, bounded) = read_chunks-whole m r.chunks [] small (omega arith) read in
    let (text_is, valid) = utf8-ok buf e3 in
    record {
      all = w ∙ ap some (same ∙ text_is);
      bounded = subst (λ o. length o ≤ m) text_is bounded;
      valid = ap is_utf8 (sym text_is) ∙ valid;
    }

-- A configuration that is fetched is all that its source holds, never a part of it, is UTF-8, and
-- is within the limit, from a file as from a URL; the limit is below the largest `usize`.
pub fetch_config_limited-IsWhole :
    (w : World) (source : ConfigSource) (max_bytes : ℕ) {text : Bytes}
    → max_bytes < 18446744073709551615
    → fetch_config_limited w source max_bytes ≡ ok text
    → IsWhole (body_of w source) max_bytes text
unfolding fetch_config_limited
fetch_config_limited-IsWhole w (file p) m small e = read_file_limited-IsWhole (w.files p) m e
fetch_config_limited-IsWhole w (url u) m small e = fetch_url_limited-IsWhole (w.urls u) m small e
