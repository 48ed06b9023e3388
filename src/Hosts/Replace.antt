-- ===== src/Hosts/Replace.antt =====
-- src/hosts.rs: what `replace_managed_block` writes, by where the marks are in the file.
use nyasniproxy.Base.{
  ℕ, ◌+◌, ◌≤◌, ◌<◌, [], ◌∷◌, ◌++◌, none, some, Bytes, codes, ◌≡◌, ◌⊎◌, refl, sym, ap, ◌∙◌, inl, inr,
  arith, lt-ltb, le-ltb, length, take, drop, append_assoc, append-nil, length-append,
  take-length_append, drop-length_append,
}
use nyasniproxy.Base.Text.{strip_prefix, find}
use nyasniproxy.Base.Text.Find.{find-IsFirst}
use nyasniproxy.Hosts.{
  begin_mark, end_mark, lf, crlf, skip_eol, closing, splice, append_block, replace_managed_block,
}
use nyasniproxy.Hosts.Marks.{shift, find-before}

-- The marks without their `#`.
abbrev pub begin_tail : Bytes
begin_tail = codes " BEGIN nyasniproxy"

abbrev pub end_tail : Bytes
end_tail = codes " END nyasniproxy"

abbrev pub NoBegin : Bytes → Type 0
NoBegin s = find s begin_mark ≡ none

abbrev pub NoEnd : Bytes → Type 0
NoEnd s = find s end_mark ≡ none

shift_zero : (n : ℕ) → shift n (some 0) ≡ some n
shift_zero n = ap some (omega arith)

-- The first begin mark stands behind text without one.
pub find-begin :
    (pre y : Bytes) → NoBegin pre → find (pre ++ (begin_mark ++ y)) begin_mark ≡ some (length pre)
find-begin pre y h =
    find-before begin_tail refl pre (begin_tail ++ y) h
    ∙ ap (shift (length pre)) (find-IsFirst [] begin_mark y tt)
    ∙ shift_zero (length pre)

pub find-end :
    (pre y : Bytes) → NoEnd pre → find (pre ++ (end_mark ++ y)) end_mark ≡ some (length pre)
find-end pre y h =
    find-before end_tail refl pre (end_tail ++ y) h
    ∙ ap (shift (length pre)) (find-IsFirst [] end_mark y tt)
    ∙ shift_zero (length pre)

-- A begin mark and text without an end mark hold none.
pub NoEnd-begin : (s : Bytes) → NoEnd s → NoEnd (begin_mark ++ s)
unfolding find strip_prefix
NoEnd-begin s h = rw h refl

NoEnd-append-begin : (pre s : Bytes) → NoEnd pre → NoEnd s → NoEnd (pre ++ (begin_mark ++ s))
NoEnd-append-begin pre s h k =
    find-before end_tail refl pre (begin_tail ++ s) h ∙ ap (shift (length pre)) (NoEnd-begin s k)

-- The two line ends that the program writes.
pub data IsNewline : Bytes → Type 0 where
  unix : {s : Bytes} → s ≡ lf → IsNewline s
  dos : {s : Bytes} → s ≡ crlf → IsNewline s

skip_eol-newline :
    (pre newline suffix : Bytes)
    → IsNewline newline
    → skip_eol (pre ++ (newline ++ suffix)) (length pre) ≡ length pre + length newline
unfolding skip_eol strip_prefix
skip_eol-newline pre newline suffix (unix e) = rw (e, drop-length_append pre (lf ++ suffix)) refl
skip_eol-newline pre newline suffix (dos e) = rw (e, drop-length_append pre (crlf ++ suffix)) refl

-- A file with a managed block, in its parts.
pub record IsManaged (original pre body newline suffix : Bytes) : Type 0 where
  pub parts : original ≡ pre ++ (begin_mark ++ (body ++ (end_mark ++ (newline ++ suffix))))
  pub no_begin : NoBegin pre
  pub no_end : NoEnd pre
  pub no_end_within : NoEnd body
  pub newline_known : IsNewline newline

module _ {original pre body newline suffix : Bytes}
    (m : IsManaged original pre body newline suffix) where
  head_is : original ≡ (pre ++ (begin_mark ++ body)) ++ (end_mark ++ (newline ++ suffix))
  head_is =
      m.parts
      ∙ sym
          (append_assoc pre (begin_mark ++ body) _ ∙ ap (◌++◌ pre) (append_assoc begin_mark body _))

  found_begin : find original begin_mark ≡ some (length pre)
  found_begin = rw m.parts (find-begin pre _ m.no_begin)

  found_end : find original end_mark ≡ some (length (pre ++ (begin_mark ++ body)))
  found_end = rw head_is (
      find-end (pre ++ (begin_mark ++ body)) _
        (NoEnd-append-begin pre body m.no_end m.no_end_within))

  begin_lt_end : length pre < length (pre ++ (begin_mark ++ body))
  begin_lt_end = omega (arith, length-append pre (begin_mark ++ body))

  -- All up to the end mark.
  through_end : Bytes
  through_end = (pre ++ (begin_mark ++ body)) ++ end_mark

  through_end_is : original ≡ through_end ++ (newline ++ suffix)
  unfolding through_end
  through_end_is = head_is ∙ sym (append_assoc (pre ++ (begin_mark ++ body)) end_mark _)

  length-through_end : length through_end ≡ length (pre ++ (begin_mark ++ body)) + length end_mark
  unfolding through_end
  length-through_end = length-append (pre ++ (begin_mark ++ body)) end_mark

  after_is :
      skip_eol original (length (pre ++ (begin_mark ++ body)) + length end_mark)
      ≡ length (through_end ++ newline)
  after_is =
      ap (skip_eol original) (sym length-through_end)
      ∙ ap (λ s. skip_eol s (length through_end)) through_end_is
      ∙ skip_eol-newline through_end newline suffix m.newline_known
      ∙ sym (length-append through_end newline)

  rest_is : drop (length (through_end ++ newline)) original ≡ suffix
  rest_is =
      ap (drop (length (through_end ++ newline)))
        (through_end_is ∙ sym (append_assoc through_end newline suffix))
      ∙ drop-length_append (through_end ++ newline) suffix

  front_is : take (length pre) original ≡ pre
  front_is = ap (take (length pre)) m.parts ∙ take-length_append pre _

  -- In a file with one managed block, `replace_managed_block` puts the new block in its place and
  -- keeps every byte in front of the begin mark and behind the line of the end mark.
  pub replace_managed_block-IsManaged :
      (block : Bytes)
      → replace_managed_block original block ≡ pre ++ (block ++ (closing block ++ suffix))
  unfolding replace_managed_block
  replace_managed_block-IsManaged block =
      rw (found_begin, found_end) (rw (lt-ltb _ _ begin_lt_end) (rw after_is spliced))
    where
      spliced :
          splice original (length pre) (length (through_end ++ newline)) block
          ≡ pre ++ (block ++ (closing block ++ suffix))
      spliced = unfold splice in rw (front_is, rest_is) refl

-- With no end mark behind the begin mark, all from the begin mark on is replaced.
pub replace_managed_block-open :
    (pre rest block : Bytes)
    → NoBegin pre
    → (find (pre ++ (begin_mark ++ rest)) end_mark ≡ none)
      ⊎ ((k : ℕ) × (find (pre ++ (begin_mark ++ rest)) end_mark ≡ some k) × (k ≤ length pre))
    → replace_managed_block (pre ++ (begin_mark ++ rest)) block ≡ pre ++ (block ++ closing block)
unfolding replace_managed_block
replace_managed_block-open pre rest block h ends = elim ends [
  | inl missing ↦ rw (find-begin pre rest h, missing) spliced
  | inr (k, early, le) ↦ rw (find-begin pre rest h, early) (rw (le-ltb _ _ le) spliced)
]
  where
    drop_all : (s : Bytes) → drop (length s) s ≡ []
    drop_all [] = refl
    drop_all (c ∷ s) = drop_all s

    spliced :
        splice
          (pre ++ (begin_mark ++ rest))
          (length pre)
          (length (pre ++ (begin_mark ++ rest)))
          block
        ≡ pre ++ (block ++ closing block)
    spliced =
        unfold splice in
        rw
          (
            take-length_append pre (begin_mark ++ rest),
            drop_all (pre ++ (begin_mark ++ rest)),
            append-nil,
          )
          refl

-- With no begin mark, the block is appended.
pub replace_managed_block-none :
    (original block : Bytes)
    → NoBegin original
    → replace_managed_block original block ≡ append_block original block
unfolding replace_managed_block
replace_managed_block-none original block h = rw h refl
