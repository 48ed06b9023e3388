-- ===== src/Hosts.antt =====
-- src/hosts.rs: the managed block of the hosts file, and the writing of that file.
pub mod Marks
pub mod Replace
pub mod Plain
pub mod Idempotent
pub mod Sync
use nyasniproxy.Base.{
  ℕ, ◌+◌, Bool, true, false, not, ◌&&◌, List, [], ◌∷◌, ◌++◌, Option, none, some, Bytes, codes,
  Result, Error, ok, err, ltb, if◌then◌else◌, length, take, drop, is_empty, bytes_eq,
}
use nyasniproxy.Base.Text.{find, starts_with, starts_with_byte, ends_with_byte, is_some}

abbrev pub begin_mark : Bytes
begin_mark = codes "# BEGIN nyasniproxy"

abbrev pub end_mark : Bytes
end_mark = codes "# END nyasniproxy"

abbrev pub lf : Bytes
lf = b'\n' ∷ []

abbrev pub crlf : Bytes
crlf = b'\r' ∷ b'\n' ∷ []

-- The names, each behind a space.
abbrev pub spaced : List Bytes → Bytes → Bytes
spaced [] rest = rest
spaced (n ∷ ns) rest = b' ' ∷ (n ++ spaced ns rest)

-- The line between the marks; `ip` is the address as `Display` writes it.
abbrev pub block_line : Bytes → List Bytes → Bytes → Bytes
block_line ip [] newline = []
block_line ip (n ∷ ns) newline = ip ++ spaced (n ∷ ns) newline

unfoldable pub render_block : Bytes → List Bytes → Bytes → Bytes
render_block ip names newline =
    begin_mark ++ (newline ++ (block_line ip names newline ++ (end_mark ++ newline)))

unfoldable pub skip_eol : Bytes → ℕ → ℕ
skip_eol text offset =
    if starts_with (drop offset text) crlf
    then offset + 2
    else if starts_with_byte (drop offset text) b'\n'
    then offset + 1
    else offset

-- The line end that is added to a block without one.
abbrev pub closing : Bytes → Bytes
closing block = if ends_with_byte block b'\n' then [] else lf

unfoldable pub splice : Bytes → ℕ → ℕ → Bytes → Bytes
splice original start after block =
    take start original ++ (block ++ (closing block ++ drop after original))

-- The text in front of an appended block: a missing line end, then an empty line.
abbrev pub terminated : Bytes → Bytes
terminated original =
    if not (is_empty original) && not (ends_with_byte original b'\n')
    then original ++ lf
    else original

abbrev pub newline_of : Bytes → Bytes
newline_of original = if is_some (find original crlf) then crlf else lf

abbrev pub separated : Bytes → Bytes
separated original =
    if is_empty (terminated original)
    then terminated original
    else terminated original ++ newline_of original

unfoldable pub append_block : Bytes → Bytes → Bytes
append_block original block = separated original ++ (block ++ closing block)

-- The arms of the `match`: the second has no guard on the end mark.
replace_from : Bytes → Bytes → Option ℕ → Option ℕ → Bytes
unfolding splice append_block skip_eol
replace_from original block none end = append_block original block
replace_from original block (some start) none = splice original start (length original) block
replace_from original block (some start) (some end) =
    if ltb start end
    then splice original start (skip_eol original (end + length end_mark)) block
    else splice original start (length original) block

unfoldable pub replace_managed_block : Bytes → Bytes → Bytes
unfolding replace_from
replace_managed_block original block =
    replace_from original block (find original begin_mark) (find original end_mark)

-- The hosts file and the temporary file beside it; `none` is a file that is not there.
pub record Disk : Type 0 where
  pub hosts : Option Bytes
  pub temp : Option Bytes

-- How the file system answers. A failed `fs::write` leaves the content that it names.
pub data Write : Type 0 where
  written : Write
  failed : Option Bytes → Write

pub record FileSystem : Type 0 where
  pub has_file_name : Bool
  pub read_ok : Bool
  pub write_temp : Write
  pub metadata_ok : Bool
  pub set_permissions_ok : Bool
  pub rename_ok : Bool
  pub write_hosts : Write
  pub remove_ok : Bool

-- `cleanup`: the result of `remove_file` is dropped.
abbrev pub cleanup : FileSystem → Disk → Disk
cleanup fs d = if fs.remove_ok then record d { temp = none } else d

-- The fallback when the rename fails: the hosts file is written in place.
write_in_place : FileSystem → Write → Bytes → Disk → Result (Unit {0}) × Disk
write_in_place fs written content d = (ok tt, cleanup fs (record d { hosts = some content }))
write_in_place fs (failed left) content d =
    (err Error.write_hosts_failed, cleanup fs (record d { hosts = left }))

rename_temp : FileSystem → Bytes → Disk → Result (Unit {0}) × Disk
unfolding write_in_place
rename_temp fs content d =
    if fs.rename_ok
    then (ok tt, record { hosts = d.temp; temp = none })
    else write_in_place fs fs.write_hosts content d

copy_permissions : FileSystem → Bytes → Disk → Result (Unit {0}) × Disk
unfolding rename_temp
copy_permissions fs content d =
    if fs.metadata_ok && not fs.set_permissions_ok
    then (err Error.copy_permissions_failed, cleanup fs d)
    else rename_temp fs content d

write_temp_file : FileSystem → Write → Bytes → Disk → Result (Unit {0}) × Disk
unfolding copy_permissions
write_temp_file fs written content d =
    copy_permissions fs content (record d { temp = some content })
write_temp_file fs (failed left) content d =
    (err Error.write_temp_failed, cleanup fs (record d { temp = left }))

unfoldable pub write_atomic : FileSystem → Bytes → Disk → Result (Unit {0}) × Disk
unfolding write_temp_file
write_atomic fs content d =
    if fs.has_file_name
    then write_temp_file fs fs.write_temp content d
    else (err Error.no_file_name, d)

-- `write_atomic(..)?; Ok(true)`.
abbrev pub changed : Result (Unit {0}) × Disk → Result Bool × Disk
changed (ok u, d) = (ok true, d)
changed (err e, d) = (err e, d)

-- The content that `sync_hosts` wants.
unfoldable pub updated : Bytes → List Bytes → Bytes → Bytes
unfolding replace_managed_block render_block
updated ip names original =
    replace_managed_block original (render_block ip names (newline_of original))

sync_content : FileSystem → Bytes → List Bytes → Bytes → Disk → Result Bool × Disk
unfolding updated
sync_content fs ip names original d =
    if bytes_eq (updated ip names original) original
    then (ok false, d)
    else changed (write_atomic fs (updated ip names original) d)

-- On what `read_to_string` finds.
sync_read : FileSystem → Bytes → List Bytes → Option Bytes → Disk → Result Bool × Disk
unfolding sync_content
sync_read fs ip names none d = (err Error.read_hosts_failed, d)
sync_read fs ip names (some original) d =
    if fs.read_ok then sync_content fs ip names original d else (err Error.read_hosts_failed, d)

unfoldable pub sync_hosts : FileSystem → Bytes → List Bytes → Disk → Result Bool × Disk
unfolding sync_read
sync_hosts fs ip names d = sync_read fs ip names d.hosts d
