-- ===== src/Tpm/Tests.antt =====
-- Runs of the parts of AutoTpmEncrypt/auto_tpm_encrypt.py on small inputs.
mod PacmanHooks
mod Manifests
mod Disks
mod Boot
mod Checks
use os_lockdown.Base.{
  ◌≡◌, refl, true, false, none, some, List, [], ◌∷◌, ◌++◌, Text, codes, All, text_eq, starts_with,
  ends_with, String,
}
use os_lockdown.Base.Lines.{
  read_lines, write_lines, join_lines, strip, lstrip, rstrip, rstrip_cons, is_space, IsLine,
  HasNoNewline-any,
}
use os_lockdown.Base.Sort.{is_in, sorted, text_leb}
use os_lockdown.Tpm.Result.{Result, ok, err, die, name_error}
use os_lockdown.Tpm.Fstab.{
  Setup, mark_line, names_encrypted, update_lines, pop_blank, lines_eq, update_fstab, restore_line,
  restore_tab,
}
use os_lockdown.Tpm.Fstab.Marks.{IsClean}
use os_lockdown.Tpm.Fstab.RoundTrip.{restore_tab-update_fstab}
use os_lockdown.Tpm.Fstab.Twice.{update_lines-twice}

abbrev lines : List String → Text
lines [] = []
lines (l ∷ ls) = codes l ++ (10 ∷ lines ls)

abbrev setup : Setup
setup = record {
  on_steamos = false;
  encrypted_uuids = codes "ab12" ∷ [];
  has_home = true;
  has_var = false;
}

abbrev table : Text
table = lines ("# fstab" ∷ "UUID=ab12 / ext4" ∷ "UUID=cd34 /boot vfat" ∷ "" ∷ [])

table_lines :
    read_lines table
    ≡ codes "# fstab" ∷ codes "UUID=ab12 / ext4" ∷ codes "UUID=cd34 /boot vfat" ∷ [] ∷ []
unfolding read_lines
table_lines = refl

table-IsClean : All IsClean (read_lines table)
unfolding read_lines starts_with ends_with text_eq
table-IsClean = (
  record { not_removed = refl; not_added = refl },
  (
    record { not_removed = refl; not_added = refl },
    (
      record { not_removed = refl; not_added = refl },
      (record { not_removed = refl; not_added = refl }, tt),
    ),
  ),
)

restore_tab-update_fstab_example :
    restore_tab (update_fstab setup table) ≡ write_lines (pop_blank (read_lines table))
restore_tab-update_fstab_example = restore_tab-update_fstab setup table table-IsClean refl

marked_table :
    update_fstab setup table
    ≡ lines (
        "# fstab" ∷ "# REMOVED_BY_AUTO_TPM_ENCRYPT UUID=ab12 / ext4" ∷ "UUID=cd34 /boot vfat"
        ∷ "/dev/mapper/tpm_encrypted_home /home ext4 defaults,nofail 0 2 # ADDED_BY_AUTO_TPM_ENCRYPT"
        ∷ [])
unfolding update_fstab
marked_table = refl

update_lines-twice_example :
    update_lines setup (update_lines setup (read_lines table))
    ≡ update_lines setup (read_lines table)
update_lines-twice_example = update_lines-twice setup (read_lines table)
