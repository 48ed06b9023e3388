-- ===== src/Http/HostField.antt =====
-- src/http.rs: `parse_http_host` on a request written line by line.
use nyasniproxy.Base.{
  ℕ, Bool, true, false, List, [], ◌∷◌, ◌++◌, Option, none, some, Bytes, codes, ◌≡◌, refl, ap, ◌∙◌,
  arith, ◌==◌, is_empty, All, eq_ignore_ascii_case, take-length_append, append-nil,
}
use nyasniproxy.Base.Text.{
  contains, starts_with, strip_prefix, split_once, split_crlf, push_head, split_once-append,
}
use nyasniproxy.Base.Text.Find.{IsFirst}
use nyasniproxy.Base.Utf8.{is_utf8, trim}
use nyasniproxy.Target.{parse_host_port}
use nyasniproxy.Http.{blank_line, host_field, header_text, parse_http_host}
use nyasniproxy.Http.HeaderEnd.{header_end-IsFirst}

-- Lines with a line end between two.
abbrev pub join_crlf : List Bytes → Bytes
join_crlf [] = []
join_crlf (l ∷ []) = l
join_crlf (l ∷ m ∷ ls) = l ++ (b'\r' ∷ b'\n' ∷ join_crlf (m ∷ ls))

abbrev pub IsLine : Bytes → Type 0
IsLine l = (is_empty l ≡ false) × (contains l b'\r' ≡ false)

split_crlf-other :
    (c : ℕ) (s : Bytes) → (c == b'\r') ≡ false → split_crlf (c ∷ s) ≡ push_head c (split_crlf s)
unfolding split_crlf
split_crlf-other c [] h = refl
split_crlf-other c (d ∷ s) h = rw (h, split_crlf) refl

no_cr-head : (c : ℕ) (l : Bytes) → contains (c ∷ l) b'\r' ≡ false → (c == b'\r') ≡ false
no_cr-head c l h = ground arith

no_cr-tail : (c : ℕ) (l : Bytes) → contains (c ∷ l) b'\r' ≡ false → contains l b'\r' ≡ false
no_cr-tail c l h = ground arith

split_crlf-line : (l : Bytes) → contains l b'\r' ≡ false → split_crlf l ≡ l ∷ []
split_crlf-line [] h = unfold split_crlf in refl
split_crlf-line (c ∷ l) h =
    split_crlf-other c l (no_cr-head c l h)
    ∙ ap (push_head c) (split_crlf-line l (no_cr-tail c l h))

split_crlf-append :
    (l s : Bytes)
    → contains l b'\r' ≡ false
    → split_crlf (l ++ (b'\r' ∷ b'\n' ∷ s)) ≡ l ∷ split_crlf s
split_crlf-append [] s h = unfold split_crlf in refl
split_crlf-append (c ∷ l) s h =
    split_crlf-other c _ (no_cr-head c l h)
    ∙ ap (push_head c) (split_crlf-append l s (no_cr-tail c l h))

split_crlf-join_crlf :
    (l : Bytes) (ls : List Bytes) → All IsLine (l ∷ ls) → split_crlf (join_crlf (l ∷ ls)) ≡ l ∷ ls
split_crlf-join_crlf l [] h = split_crlf-line l h.0.1
split_crlf-join_crlf l (m ∷ ls) h =
    split_crlf-append l _ h.0.1 ∙ ap (◌∷◌ l) (split_crlf-join_crlf m ls h.1)

not_blank : (c : ℕ) (s : Bytes) → (c == b'\r') ≡ false → starts_with (c ∷ s) blank_line ≡ false
not_blank c s h = unfold strip_prefix in rw h refl

-- No blank line begins within a line, nor at the end of one that another follows.
line-IsFirst :
    (l s : Bytes) → contains l b'\r' ≡ false → IsFirst s blank_line → IsFirst (l ++ s) blank_line
line-IsFirst [] s h f = f
line-IsFirst (c ∷ l) s h f =
    (not_blank c _ (no_cr-head c l h), line-IsFirst l s (no_cr-tail c l h) f)

line_end-IsFirst :
    (m s : Bytes)
    → IsLine m
    → IsFirst (m ++ s) blank_line
    → IsFirst (b'\r' ∷ b'\n' ∷ (m ++ s)) blank_line
line_end-IsFirst [] s h f = cc (h.0)
line_end-IsFirst (c ∷ m) s h f =
    (unfold strip_prefix in rw (no_cr-head c m h.1) refl, (unfold strip_prefix in refl, f))

join_crlf-IsFirst :
    (l : Bytes) (ls : List Bytes) → All IsLine (l ∷ ls) → IsFirst (join_crlf (l ∷ ls)) blank_line
join_crlf-IsFirst l [] h = rw append_nil at (line-IsFirst l [] h.0.1 tt)
  where
    append_nil : l ++ [] ≡ l
    append_nil = append-nil l
join_crlf-IsFirst l (m ∷ ls) h = line-IsFirst l _ h.0.1 (follow ls (join_crlf-IsFirst m ls h.1))
  where
    follow :
        (ls : List Bytes)
        → IsFirst (join_crlf (m ∷ ls)) blank_line
        → IsFirst (b'\r' ∷ b'\n' ∷ join_crlf (m ∷ ls)) blank_line
    follow [] f = rw (append-nil m) at (line_end-IsFirst m [] h.1.0 (rw (← append-nil m) at f))
    follow (n ∷ ns) f = line_end-IsFirst m _ h.1.0 f

-- A line that the loop passes over.
abbrev pub is_host_line : Bytes → Bool
is_host_line line = elim (split_once line b':') [
  | none ↦ false
  | some (name, value) ↦ eq_ignore_ascii_case (trim name) (codes "host")
]

host_field-skip :
    (line : Bytes) (lines : List Bytes)
    → is_host_line line ≡ false
    → host_field (line ∷ lines) ≡ host_field lines
unfolding host_field
host_field-skip line lines h = go (split_once line b':') refl
  where
    go :
        (o : Option (Bytes × Bytes))
        → split_once line b':' ≡ o
        → host_field (line ∷ lines) ≡ host_field lines
    go none e = rw (e, host_field) refl
    go (some (name, value)) e =
        let other : eq_ignore_ascii_case (trim name) (codes "host") ≡ false =
          rw (e, is_host_line) at h in
        rw (e, host_field) (rw (other, host_field) refl)

host_field-first :
    (before after : List Bytes) (name value : Bytes)
    → All (λ l. is_host_line l ≡ false) before
    → contains name b':' ≡ false
    → eq_ignore_ascii_case (trim name) (codes "host") ≡ true
    → host_field (before ++ ((name ++ (b':' ∷ value)) ∷ after)) ≡ parse_host_port (trim value) 80
unfolding host_field
host_field-first [] after name value h plain is_host =
    rw (split_once-append name value b':' plain, host_field) (rw (is_host, host_field) refl)
host_field-first (l ∷ before) after name value h plain is_host =
    host_field-skip l _ h.0 ∙ host_field-first before after name value h.1 plain is_host

-- On a request of non-empty lines without CR, in UTF-8, that a blank line ends, `parse_http_host`
-- returns what `parse_host_port` makes of the trimmed value of the first header line whose
-- trimmed name is `host` in any case, with the default port 80; the request line, the lines
-- behind that one and the body have no effect.
pub parse_http_host-first :
    (start : Bytes) (before after : List Bytes) (name value body : Bytes)
    → let line = name ++ (b':' ∷ value) in
      let text = join_crlf (start ∷ (before ++ (line ∷ after))) in
      All IsLine (start ∷ (before ++ (line ∷ after)))
      → is_utf8 text ≡ true
      → All (λ l. is_host_line l ≡ false) before
      → contains name b':' ≡ false
      → eq_ignore_ascii_case (trim name) (codes "host") ≡ true
      → parse_http_host (text ++ (blank_line ++ body)) ≡ parse_host_port (trim value) 80
unfolding parse_http_host header_text
parse_http_host-first start before after name value body lines utf8 others plain is_host =
    let all_lines = before ++ ((name ++ (b':' ∷ value)) ∷ after) in
    let text = join_crlf (start ∷ all_lines) in
    rw
      (
        header_end-IsFirst text body (join_crlf-IsFirst start all_lines lines),
        take-length_append text (blank_line ++ body),
        utf8,
        split_crlf-join_crlf start all_lines lines,
      )
      (host_field-first before after name value others plain is_host)
