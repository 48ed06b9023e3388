-- ===== src/Hosts/Idempotent.antt =====
-- src/hosts.rs: writing the same block twice changes nothing the second time.
use nyasniproxy.Base.{
  ℕ, ◌+◌, ◌≤◌, true, false, List, [], ◌++◌, none, some, Bytes, ◌≡◌, ◌⊎◌, refl, sym, ap, ◌∙◌, inl,
  inr, arith, ltb, ltb-lt, ltb-false, length, take, drop, is_empty, Bool-cases, Option-cases,
  append_assoc, append-nil, take-length_append, All, subst,
}
use nyasniproxy.Base.Text.{ends_with_byte, find, ends_with_byte-append}
use nyasniproxy.Base.Text.Find.{Split, find-Split, find-append, IsFirst-none, find-le}
use nyasniproxy.Hosts.{
  begin_mark, end_mark, block_line, render_block, skip_eol, closing, splice, separated,
  append_block, replace_managed_block,
}
use nyasniproxy.Hosts.Marks.{find-no-hash}
use nyasniproxy.Hosts.Replace.{
  end_tail, NoBegin, NoEnd, IsNewline, unix, dos, IsManaged, replace_managed_block-IsManaged,
  replace_managed_block-open, replace_managed_block-none,
}
use nyasniproxy.Hosts.Plain.{
  NoHash, NoHash-append, NoHash-newline, NoHash-block_line, NoBegin-separated,
}

-- What the block is made of.
pub record IsPlain (ip : Bytes) (names : List Bytes) (newline : Bytes) : Type 0 where
  pub ip_plain : NoHash ip
  pub names_plain : All NoHash names
  pub newline_known : IsNewline newline

module _ {ip : Bytes} {names : List Bytes} {newline : Bytes} (w : IsPlain ip names newline) where
  body : Bytes
  body = newline ++ block_line ip names newline

  block_is : render_block ip names newline ≡ begin_mark ++ (body ++ (end_mark ++ newline))
  unfolding render_block body
  block_is = ap (◌++◌ begin_mark) (sym (append_assoc newline (block_line ip names newline) _))

  body-NoEnd : NoEnd body
  unfolding body
  body-NoEnd =
      let plain = NoHash-newline newline w.newline_known in
      find-no-hash end_tail (newline ++ block_line ip names newline) (
        NoHash-append newline _ plain
          (NoHash-block_line ip names newline w.ip_plain w.names_plain plain))

  newline_ends : (ends_with_byte newline b'\n' ≡ true) × (is_empty newline ≡ false)
  newline_ends = go w.newline_known
    where
      go : IsNewline newline → (ends_with_byte newline b'\n' ≡ true) × (is_empty newline ≡ false)
      go (unix e) = rw e (refl, refl)
      go (dos e) = rw e (refl, refl)

  closing_is : closing (render_block ip names newline) ≡ []
  closing_is =
      let ends : ends_with_byte (render_block ip names newline) b'\n' ≡ true =
        ap (λ s. ends_with_byte s b'\n')
          (block_is
            ∙ sym (append_assoc begin_mark body _)
            ∙ sym (append_assoc (begin_mark ++ body) end_mark newline))
        ∙ ends_with_byte-append ((begin_mark ++ body) ++ end_mark) newline b'\n' newline_ends.1
        ∙ newline_ends.0 in
      rw ends refl

  -- The block is in place already, whatever stands behind it.
  stays_inside :
      (pre suffix : Bytes)
      → NoBegin pre
      → NoEnd pre
      → replace_managed_block
          (pre ++ (render_block ip names newline ++ suffix))
          (render_block ip names newline)
        ≡ pre ++ (render_block ip names newline ++ suffix)
  stays_inside pre suffix h k =
      replace_managed_block-IsManaged managed (render_block ip names newline)
      ∙ ap (λ c. pre ++ (render_block ip names newline ++ (c ++ suffix))) closing_is
    where
      managed : IsManaged (pre ++ (render_block ip names newline ++ suffix)) pre body newline suffix
      managed = record {
        parts =
            ap (λ b. pre ++ (b ++ suffix)) block_is
            ∙ ap (◌++◌ pre) (
                append_assoc begin_mark (body ++ (end_mark ++ newline)) suffix
                ∙ ap (◌++◌ begin_mark) (
                    append_assoc body (end_mark ++ newline) suffix
                    ∙ ap (◌++◌ body) (append_assoc end_mark newline suffix)));
        no_begin = h;
        no_end = k;
        no_end_within = body-NoEnd;
        newline_known = w.newline_known;
      }

  -- The same for a block at the end, with an end mark in front of it.
  stays_open :
      (pre : Bytes) (k : ℕ)
      → NoBegin pre
      → find pre end_mark ≡ some k
      → replace_managed_block (pre ++ render_block ip names newline) (render_block ip names newline)
        ≡ pre ++ render_block ip names newline
  stays_open pre k h e =
      ap (λ b. replace_managed_block (pre ++ b) (render_block ip names newline)) block_is
      ∙ replace_managed_block-open pre (body ++ (end_mark ++ newline))
          (render_block ip names newline) h
          (inr (k, find-append pre end_mark _ e, find-le pre end_mark e))
      ∙ ap (λ c. pre ++ (render_block ip names newline ++ c)) closing_is
      ∙ ap (◌++◌ pre) (append-nil (render_block ip names newline))

  stays_last :
      (pre : Bytes)
      → NoBegin pre
      → replace_managed_block (pre ++ render_block ip names newline) (render_block ip names newline)
        ≡ pre ++ render_block ip names newline
  stays_last pre h = elim (Option-cases (find pre end_mark)) [
    | inr (k, e) ↦ stays_open pre k h e
    | inl e ↦
        subst (λ b. replace_managed_block (pre ++ b) (render_block ip names newline) ≡ pre ++ b)
          (append-nil (render_block ip names newline)) (stays_inside pre [] h e)
  ]

  -- Where the block is the last thing written, the second writing changes nothing.
  settled_last :
      (original pre : Bytes)
      → NoBegin pre
      → replace_managed_block original (render_block ip names newline)
        ≡ pre ++ (render_block ip names newline ++ closing (render_block ip names newline))
      → replace_managed_block
          (replace_managed_block original (render_block ip names newline))
          (render_block ip names newline)
        ≡ replace_managed_block original (render_block ip names newline)
  settled_last original pre h e =
      let shape : replace_managed_block original (render_block ip names newline)
          ≡ pre ++ render_block ip names newline =
        e
        ∙ ap (λ c. pre ++ (render_block ip names newline ++ c)) closing_is
        ∙ ap (◌++◌ pre) (append-nil (render_block ip names newline)) in
      ap (λ s. replace_managed_block s (render_block ip names newline)) shape
      ∙ stays_last pre h
      ∙ sym shape

  -- The first begin mark, with no end mark or one in front of it.
  settled_open :
      (original : Bytes) (start : ℕ)
      → Split original begin_mark start
      → (find original end_mark ≡ none)
        ⊎ ((k : ℕ) × (find original end_mark ≡ some k) × (k ≤ start))
      → replace_managed_block
          (replace_managed_block original (render_block ip names newline))
          (render_block ip names newline)
        ≡ replace_managed_block original (render_block ip names newline)
  settled_open original start v ends =
      let first = IsFirst-none v.before begin_mark (omega arith) v.first in
      settled_last original v.before first (
        ap (λ s. replace_managed_block s (render_block ip names newline)) v.splits
        ∙ replace_managed_block-open v.before v.after (render_block ip names newline) first
            (elim ends [
              | inl none_there ↦ inl (rw v.splits at none_there)
              | inr (k, there, le) ↦ inr (k, rw v.splits at there, omega (arith, v.offset))
            ]))

  -- The first begin mark, with the first end mark behind it.
  settled_inside :
      (original : Bytes) (start end : ℕ)
      → Split original begin_mark start
      → find original begin_mark ≡ some start
      → find original end_mark ≡ some end
      → ltb start end ≡ true
      → replace_managed_block
          (replace_managed_block original (render_block ip names newline))
          (render_block ip names newline)
        ≡ replace_managed_block original (render_block ip names newline)
  settled_inside original start end v found_begin found_end behind =
      ap (λ s. replace_managed_block s (render_block ip names newline)) shape
      ∙ stays_inside v.before suffix first no_end
      ∙ sym shape
    where
      first : NoBegin v.before
      first = IsFirst-none v.before begin_mark (omega arith) v.first

      no_end : NoEnd v.before
      no_end = elim (Option-cases (find v.before end_mark)) [
        | inl e ↦ e
        | inr (k, e) ↦
            let early = find-append v.before end_mark (begin_mark ++ v.after) e in
            let same : some end ≡ some k =
              sym found_end ∙ ap (λ s. find s end_mark) v.splits ∙ early in
            let k_is : end ≡ k = ground arith in
            absurd
              (omega (arith, k_is, v.offset, find-le v.before end_mark e, ltb-lt start end behind))
      ]

      suffix : Bytes
      suffix = drop (skip_eol original (end + length end_mark)) original

      front : take start original ≡ v.before
      front =
          ap (λ n. take n original) (sym v.offset)
          ∙ ap (take (length v.before)) v.splits
          ∙ take-length_append v.before _

      spliced :
          splice original start
            (skip_eol original (end + length end_mark))
            (render_block ip names newline)
          ≡ v.before ++ (render_block ip names newline ++ suffix)
      spliced = unfold splice in rw (front, closing_is) refl

      shape :
          replace_managed_block original (render_block ip names newline)
          ≡ v.before ++ (render_block ip names newline ++ suffix)
      shape = unfold replace_managed_block in rw (found_begin, found_end) (rw behind spliced)

-- Whatever the file holds, replacing the managed block by a rendered block a second time changes
-- nothing, if the line end is LF or CR LF and neither the address nor a name holds `#`.
pub replace_managed_block_idem :
    (original ip : Bytes) (names : List Bytes) (newline : Bytes)
    → IsPlain ip names newline
    → replace_managed_block
        (replace_managed_block original (render_block ip names newline))
        (render_block ip names newline)
      ≡ replace_managed_block original (render_block ip names newline)
replace_managed_block_idem original ip names newline w =
    elim (Option-cases (find original begin_mark)) [
      | inl missing ↦
          settled_last w original (separated original) (NoBegin-separated original missing)
            (replace_managed_block-none original _ missing ∙ unfold append_block in refl)
      | inr (start, begins) ↦
          let v = find-Split original begin_mark begins in
          elim (Option-cases (find original end_mark)) [
            | inl open_block ↦ settled_open w original start v (inl open_block)
            | inr (end, ends) ↦ elim (Bool-cases (ltb start end)) [
              | inl behind ↦ settled_inside w original start end v begins ends behind
              | inr early ↦
                  settled_open w original start v (inr (end, ends, ltb-false start end early))
            ]
          ]
    ]
