-- ===== src/Tests/Files.antt =====
-- src/hosts.rs on concrete files.
use nyasniproxy.Base.{true, false, [], ◌∷◌, ◌++◌, none, some, Bytes, codes, Error, err, ◌≡◌, refl}
use nyasniproxy.Base.Text.{find}
use nyasniproxy.Hosts.{
  lf, render_block, closing, replace_managed_block, Disk, written, failed, FileSystem, write_atomic,
  sync_hosts,
}
use nyasniproxy.Hosts.Replace.{unix, replace_managed_block-IsManaged}
use nyasniproxy.Hosts.Idempotent.{replace_managed_block_idem}
use nyasniproxy.Hosts.Sync.{Syncs, sync_hosts-Syncs}

abbrev managed : Bytes
managed = codes "x\n# BEGIN nyasniproxy\nold\n# END nyasniproxy\ny\n"

replace_managed_block-IsManaged_example :
    replace_managed_block managed (codes "new")
    ≡ codes "x\n" ++ (codes "new" ++ (closing (codes "new") ++ codes "y\n"))
unfolding find
replace_managed_block-IsManaged_example =
    replace_managed_block-IsManaged {pre = codes "x\n"} {body = codes "\nold\n"} {newline = lf}
      {suffix = codes "y\n"}
      (record {
        parts = refl;
        no_begin = refl;
        no_end = refl;
        no_end_within = refl;
        newline_known = unix refl;
      })
      (codes "new")

replace_managed_block_idem_example :
    replace_managed_block
      (replace_managed_block managed (render_block (codes "127.0.0.2") (codes "a.b" ∷ []) lf))
      (render_block (codes "127.0.0.2") (codes "a.b" ∷ []) lf)
    ≡ replace_managed_block managed (render_block (codes "127.0.0.2") (codes "a.b" ∷ []) lf)
replace_managed_block_idem_example =
    replace_managed_block_idem managed (codes "127.0.0.2") (codes "a.b" ∷ []) lf
      (record { ip_plain = refl; names_plain = (refl, tt); newline_known = unix refl })

-- A file system on which the rename fails.
abbrev no_rename : FileSystem
no_rename = record {
  has_file_name = true;
  read_ok = true;
  write_temp = written;
  metadata_ok = true;
  set_permissions_ok = true;
  rename_ok = false;
  write_hosts = failed (some []);
  remove_ok = true;
}

abbrev disk : Disk
disk = record { hosts = some managed; temp = none }

-- The file is torn when the write in place fails too.
torn :
    write_atomic no_rename (codes "new") disk
    ≡ (err Error.write_hosts_failed, record { hosts = some []; temp = none })
unfolding write_atomic
torn = refl

sync_hosts-Syncs_example :
    Syncs no_rename
      (codes "127.0.0.2")
      (codes "a.b" ∷ [])
      managed
      disk
      (sync_hosts no_rename (codes "127.0.0.2") (codes "a.b" ∷ []) disk)
sync_hosts-Syncs_example =
    sync_hosts-Syncs no_rename (codes "127.0.0.2") (codes "a.b" ∷ []) managed disk refl
