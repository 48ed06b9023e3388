-- ===== src/Hosts/Plain.antt =====
-- src/hosts.rs: texts without `#`, and texts without a begin mark, under the operations of a block.
use nyasniproxy.Base.{
  ℕ, false, not, ◌&&◌, List, [], ◌∷◌, ◌++◌, Bytes, ◌≡◌, refl, ◌∙◌, inl, inr, arith, is_empty,
  Bool-cases, All,
}
use nyasniproxy.Base.Text.{contains, is_some, ends_with_byte, find, contains-append}
use nyasniproxy.Hosts.{begin_mark, lf, crlf, block_line, spaced, terminated, separated, newline_of}
use nyasniproxy.Hosts.Marks.{find-append-no-hash}
use nyasniproxy.Hosts.Replace.{begin_tail, NoBegin, IsNewline, unix, dos}

abbrev pub NoHash : Bytes → Type 0
NoHash s = contains s b'#' ≡ false

pub NoHash-append : (a b : Bytes) → NoHash a → NoHash b → NoHash (a ++ b)
NoHash-append a b h k = contains-append a b b'#' ∙ ground (arith, h, k)

pub NoHash-newline : (s : Bytes) → IsNewline s → NoHash s
NoHash-newline s (unix e) = rw e refl
NoHash-newline s (dos e) = rw e refl

pub NoHash-spaced :
    (ns : List Bytes) (rest : Bytes) → All NoHash ns → NoHash rest → NoHash (spaced ns rest)
NoHash-spaced [] rest h k = k
NoHash-spaced (n ∷ ns) rest h k = NoHash-append n _ h.0 (NoHash-spaced ns rest h.1 k)

pub NoHash-block_line :
    (ip : Bytes) (names : List Bytes) (newline : Bytes)
    → NoHash ip
    → All NoHash names
    → NoHash newline
    → NoHash (block_line ip names newline)
NoHash-block_line ip [] newline h k l = refl
NoHash-block_line ip (n ∷ ns) newline h k l =
    NoHash-append ip _ h (NoHash-spaced (n ∷ ns) newline k l)

pub NoBegin-append :
    (x y : Bytes) (d : ℕ)
    → contains begin_mark d ≡ false
    → NoHash (d ∷ y)
    → NoBegin x
    → NoBegin (x ++ (d ∷ y))
NoBegin-append x y d stop plain h = find-append-no-hash begin_tail x y d stop plain h

pub NoBegin-terminated : (s : Bytes) → NoBegin s → NoBegin (terminated s)
NoBegin-terminated s h = elim (Bool-cases (not (is_empty s) && not (ends_with_byte s b'\n'))) [
  | inl e ↦ rw e (NoBegin-append s [] b'\n' refl refl h)
  | inr e ↦ rw e h
]

pub NoBegin-newline : (s x : Bytes) → NoBegin s → NoBegin (s ++ newline_of x)
NoBegin-newline s x h = elim (Bool-cases (is_some (find x crlf))) [
  | inl e ↦ rw e (NoBegin-append s lf b'\r' refl refl h)
  | inr e ↦ rw e (NoBegin-append s [] b'\n' refl refl h)
]

pub NoBegin-separated : (s : Bytes) → NoBegin s → NoBegin (separated s)
NoBegin-separated s h = elim (Bool-cases (is_empty (terminated s))) [
  | inl e ↦ rw e (NoBegin-terminated s h)
  | inr e ↦ rw e (NoBegin-newline (terminated s) s (NoBegin-terminated s h))
]
