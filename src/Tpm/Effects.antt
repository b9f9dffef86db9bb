-- ===== src/Tpm/Effects.antt =====
-- How auto_tpm_encrypt.py runs other programs: what it runs goes into a log, and what they answer may
-- depend on all that was run before.
pub mod Order
pub mod Runs
use os_lockdown.Base.{
  ℕ, Bool, true, false, ◌||◌, not, Option, none, some, List, [], ◌∷◌, Text, codes, text_eq, ◌==◌,
  if◌then◌else◌,
}
use os_lockdown.Tpm.Result.{Result, ok, err, Error, die, key_error, called_process_error}
use os_lockdown.Tpm.Power.{Supply, die_if_not_on_ac_power}
use os_lockdown.Tpm.Validate.{Partition, find_partition}

-- A directory of the program's own, from `tempfile.mkdtemp`.
pub data Place : Type 0 where
  tmp_mountpoint tmp_root mount_point : Place

-- What is run, or done to the system by the program itself.
pub data Command : Type 0 where
  mount : Text → Place → Command
  umount : Place → Command
  umount_all : Text → Command
  clear_swapfile : Place → Command
  e2fsck btrfs_check : Text → Command
  resize2fs : Text → Option ℕ → Command
  btrfs_shrink btrfs_grow btrfs_writable : Place → Command
  write_key : Text → Command
  acquire_wakelock release_wakelock clear_partition_cache : Command
  delete_boot_entry : Text → Command
  reencrypt_encrypt reencrypt_decrypt : Text → Command
  add_key header_backup open_blank open_with_key dump_header convert_to_luks1 : Text → Command
  remove_key : Text → Command
  convert_key : Text → Text → Command
  rename_header : Text → Command
  close_volume : Command
  copy_key : Place → Command
  set_key_aside : Text → Command
  install_script : Place → Command
  chroot_mount : Place → Text → Text → Option Text → Command
  chroot_umount : Place → Text → Command
  chroot_setup : Place → List Text → Command
  update_manifest : Place → Text → Command
  matches_manifest : Place → Text → Command
  restore_tab : Place → Text → Command
  evict_key : Text → Command
  remove_file : Place → Text → Command
  restore_loader : Place → Text → Command
  firmware_audit wait_for_enter : Command

-- A command that was run, and its exit code. What the program does itself has the errno of the
-- exception that it raises, and 0 where it raises none.
pub record Event : Type 0 where
  pub command : Command
  pub status : ℕ

-- The last event stands first.
abbrev pub Log : Type 0
Log = List Event

abbrev pub Run {ℓ} : Type ℓ → Type ℓ
Run A = Log → Result A × Log

module _ {ℓ} {A : Type ℓ} where
  unfoldable pub return_ : A → Run A
  return_ a log = (ok a, log)

  unfoldable pub raise_ : Error → Run A
  raise_ e log = (err e, log)

  unfoldable pub lift_ : Result A → Run A
  lift_ r log = (r, log)

abbrev pub continue_ {ℓ κ} :
    {A : Type ℓ} {B : Type κ} → (A → Run B) → Result A × Log → Result B × Log
continue_ next (ok a, log) = next a log
continue_ next (err e, log) = (err e, log)

infixl 5 ◌>>=◌ ◌>>◌
unfoldable pub ◌>>=◌ {ℓ κ} : {A : Type ℓ} {B : Type κ} → Run A → (A → Run B) → Run B
(m >>= next) log = continue_ next (m log)

abbrev pub ◌>>◌ {ℓ} : {B : Type ℓ} → Run (Unit {0}) → Run B → Run B
m >> next = m >>= λ done. next

abbrev pub at_last : Run (Unit {0}) → Result (Unit {0}) × Log → Result (Unit {0}) × Log
at_last last (ok done, log) = last log
at_last last (err e, log) = continue_ (λ done l. (err e, l)) (last log)

-- What is read off the machine.
unfoldable pub look_at {ℓ} : {A : Type ℓ} → (Log → A) → Run A
look_at find log = (ok (find log), log)

-- `try: ... finally: ...`
unfoldable pub finally_ : Run (Unit {0}) → Run (Unit {0}) → Run (Unit {0})
finally_ body last log = at_last last (body log)

-- What the programs answer, and what is found on the machine, behind a log.
pub record World : Type 0 where
  pub status : Log → Command → ℕ
  pub supplies : Log → List Supply
  pub ignore_missing_ac_state : Bool
  pub ignore_if_on_battery : Bool
  pub partitions : Log → List Partition

unfoldable pub issue : World → Command → Run ℕ
issue w c log =
    let status = w.status log c in (ok status, record { command = c; status = status } ∷ log)

-- `subprocess.run(..., check = True)`
unfoldable pub run : World → Command → Run (Unit {0})
run w c = issue w c >>= λ status. if status == 0 then return_ tt else raise_ called_process_error

-- A run whose exit code may be 1, too.
unfoldable pub run_or_die : World → Command → Run (Unit {0})
run_or_die w c =
    issue w c >>= λ status. if status == 0 || status == 1 then return_ tt else raise_ die

unfoldable pub check_power : World → Run (Unit {0})
check_power w = look_at w.supplies >>= λ supplies.
    lift_ (die_if_not_on_ac_power w.ignore_missing_ac_state w.ignore_if_on_battery supplies)

abbrev pub found_fstype : Option Partition → Result (Option Text)
found_fstype none = err key_error
found_fstype (some found) = ok found.fstype

-- `get_partitions()[partition]['fstype']`
unfoldable pub fstype_of : World → Text → Run (Option Text)
fstype_of w p = look_at w.partitions >>= λ ps. lift_ (found_fstype (find_partition p ps))
