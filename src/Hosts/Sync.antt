-- ===== src/Hosts/Sync.antt =====
-- src/hosts.rs: `write_atomic` and `sync_hosts` on the disk.
use nyasniproxy.Base.{
  Bool, true, false, not, ◌&&◌, List, Option, none, some, Bytes, Result, Error, ok, err, ◌≡◌, ◌≢◌,
  ◌⊎◌, refl, sym, ap, ◌∙◌, inl, inr, arith, bytes_eq, bytes_eq_iff, if-elim, subst,
}
use nyasniproxy.Hosts.{
  Disk, Write, written, failed, FileSystem, cleanup, write_in_place, rename_temp, copy_permissions,
  write_temp_file, write_atomic, changed, updated, sync_content, sync_read, sync_hosts,
}

-- What a writer of the file can leave: the new content, or the old one with an error; a torn
-- file only where the rename failed and the fallback that writes in place failed too.
abbrev pub WritesOrKeeps : FileSystem → Bytes → Disk → Result (Unit {0}) × Disk → Type 0
WritesOrKeeps fs content d (ok u, d') =
    (d'.hosts ≡ some content) × (fs.remove_ok ≡ true → d'.temp ≡ none)
WritesOrKeeps fs content d (err e, d') =
    ((d'.hosts ≡ d.hosts) × (e ≢ Error.write_hosts_failed))
    ⊎ ((e ≡ Error.write_hosts_failed) × (fs.rename_ok ≡ false))

cleanup-hosts : (fs : FileSystem) (d : Disk) → (cleanup fs d).hosts ≡ d.hosts
cleanup-hosts fs d = ground arith

cleanup-temp : (fs : FileSystem) (d : Disk) → fs.remove_ok ≡ true → (cleanup fs d).temp ≡ none
cleanup-temp fs d h = ground arith

module _ (fs : FileSystem) (content : Bytes) (d : Disk) where
  write_in_place-WritesOrKeeps :
      (w : Write) (d' : Disk)
      → fs.rename_ok ≡ false
      → WritesOrKeeps fs content d (write_in_place fs w content d')
  unfolding write_in_place
  write_in_place-WritesOrKeeps written d' h = (
    cleanup-hosts fs (record d' { hosts = some content }),
    cleanup-temp fs (record d' { hosts = some content }),
  )
  write_in_place-WritesOrKeeps (failed left) d' h = inr (refl, h)

  rename_temp-WritesOrKeeps :
      (d' : Disk) → d'.temp ≡ some content → WritesOrKeeps fs content d (rename_temp fs content d')
  unfolding rename_temp
  rename_temp-WritesOrKeeps d' t =
      if-elim (WritesOrKeeps fs content d) fs.rename_ok _ _ (λ _. (t, λ _. refl))
        (write_in_place-WritesOrKeeps fs.write_hosts d')

  copy_permissions-WritesOrKeeps :
      (d' : Disk)
      → d'.temp ≡ some content
      → d'.hosts ≡ d.hosts
      → WritesOrKeeps fs content d (copy_permissions fs content d')
  unfolding copy_permissions
  copy_permissions-WritesOrKeeps d' t h =
      if-elim (WritesOrKeeps fs content d) (fs.metadata_ok && not fs.set_permissions_ok) _ _
        (λ _. inl (cleanup-hosts fs d' ∙ h, λ q. cc)) (λ _. rename_temp-WritesOrKeeps d' t)

-- `write_atomic` returns success only with the new content in the hosts file, and then without
-- its temporary file if that could be removed. On an error the hosts file is as it was, but for
-- one: the rename failed and so did the write in place.
pub write_atomic-WritesOrKeeps :
    (fs : FileSystem) (content : Bytes) (d : Disk)
    → WritesOrKeeps fs content d (write_atomic fs content d)
unfolding write_atomic
write_atomic-WritesOrKeeps fs content d =
    if-elim (WritesOrKeeps fs content d) fs.has_file_name _ _ (λ _. temp_written fs.write_temp)
      (λ _. inl (refl, λ e. cc))
  where
    temp_written : (w : Write) → WritesOrKeeps fs content d (write_temp_file fs w content d)
    temp_written written =
        unfold write_temp_file in copy_permissions-WritesOrKeeps fs content d _ refl refl
    temp_written (failed left) =
        unfold write_temp_file in inl (cleanup-hosts fs (record d { temp = left }), λ e. cc)

-- What `sync_hosts` leaves.
abbrev pub Syncs : FileSystem → Bytes → List Bytes → Bytes → Disk → Result Bool × Disk → Type 0
Syncs fs ip names original d (ok b, d') =
    (d'.hosts ≡ some (updated ip names original))
    × (b ≡ true → updated ip names original ≢ original)
    × (b ≡ false → d' ≡ d)
Syncs fs ip names original d (err e, d') =
    (d'.hosts ≡ d.hosts) ⊎ ((e ≡ Error.write_hosts_failed) × (fs.rename_ok ≡ false))

changed-Syncs :
    (fs : FileSystem) (ip : Bytes) (names : List Bytes) (original : Bytes) (d : Disk)
    (r : Result (Unit {0}) × Disk)
    → updated ip names original ≢ original
    → WritesOrKeeps fs (updated ip names original) d r
    → Syncs fs ip names original d (changed r)
changed-Syncs fs ip names original d (ok u, d') differs (h, t) = (h, λ _. differs, λ e. cc)
changed-Syncs fs ip names original d (err e, d') differs (inl (h, other)) = inl h
changed-Syncs fs ip names original d (err e, d') differs (inr w) = inr w

sync_content-Syncs :
    (fs : FileSystem) (ip : Bytes) (names : List Bytes) (original : Bytes) (d : Disk)
    → d.hosts ≡ some original
    → Syncs fs ip names original d (sync_content fs ip names original d)
unfolding sync_content
sync_content-Syncs fs ip names original d there =
    if-elim (Syncs fs ip names original d) (bytes_eq (updated ip names original) original) _ _
      (λ same.
        let equal = (bytes_eq_iff _ _).0 same in (there ∙ ap some (sym equal), λ e. cc, λ _. refl))
      (λ differs.
        changed-Syncs fs ip names original d _
          (λ e. cc ((bytes_eq_iff (updated ip names original) original).1 e))
          (write_atomic-WritesOrKeeps fs (updated ip names original) d))

sync_read-Syncs :
    (fs : FileSystem) (ip : Bytes) (names : List Bytes) (original : Bytes) (d : Disk)
    (o : Option Bytes)
    → o ≡ some original
    → d.hosts ≡ some original
    → Syncs fs ip names original d (sync_read fs ip names o d)
unfolding sync_read
sync_read-Syncs fs ip names original d none e there = cc
sync_read-Syncs fs ip names original d (some s) e there =
    let same : original ≡ s = ground arith in
    if-elim (Syncs fs ip names original d) fs.read_ok _ _
      (λ _.
        subst (λ s'. Syncs fs ip names original d (sync_content fs ip names s' d)) same
          (sync_content-Syncs fs ip names original d there))
      (λ _. inl refl)

-- On a hosts file that is there, `sync_hosts` returns success only with the wanted content in
-- the file: `true` if that differs from what was there, `false` if it does not, and then the
-- disk is untouched. On an error the file is as it was, unless the rename and the write in place
-- both failed.
pub sync_hosts-Syncs :
    (fs : FileSystem) (ip : Bytes) (names : List Bytes) (original : Bytes) (d : Disk)
    → d.hosts ≡ some original
    → Syncs fs ip names original d (sync_hosts fs ip names d)
unfolding sync_hosts
sync_hosts-Syncs fs ip names original d there =
    sync_read-Syncs fs ip names original d d.hosts there there
