-- ===== src/Tpm/Encrypt.antt =====
-- `encrypt` of auto_tpm_encrypt.py, as what it runs and in which order.
pub mod Finish
pub mod Prepare
pub mod Chroot
pub mod Steps
pub mod Order
use os_lockdown.Base.{
  ℕ, zero, suc, ◌+◌, ◌-◌, ◌*◌, ◌/◌, Bool, true, false, ◌&&◌, ◌||◌, not, Option, none, some, List,
  [], ◌∷◌, ◌++◌, Text, codes, text_eq, ltb, ◌==◌, if◌then◌else◌, map,
}
use os_lockdown.Base.Sort.{is_in}
use os_lockdown.Tpm.Result.{Result, ok, err, Error, die, key_error, type_error, out_of_fuel}
use os_lockdown.Tpm.Validate.{Partition}
use os_lockdown.Tpm.Effects.{
  Place, tmp_mountpoint, mount_point, Command, mount, umount, umount_all, clear_swapfile, e2fsck,
  btrfs_check, resize2fs, btrfs_shrink, btrfs_grow, btrfs_writable, write_key, acquire_wakelock,
  release_wakelock, clear_partition_cache, delete_boot_entry, reencrypt_encrypt, add_key,
  header_backup, rename_header, open_blank, close_volume, copy_key, set_key_aside, install_script,
  chroot_mount, chroot_umount, chroot_setup, update_manifest, Log, Run, return_, raise_, lift_,
  look_at, ◌>>=◌, ◌>>◌, finally_, World, issue, run, run_or_die, check_power, fstype_of,
}

-- What else encrypt finds: the addresses in the hooks of an OS, none for a file that is missing and
-- some none for one without an address, the free slots of the TPM, a swapfile, the size that dumpe2fs
-- prints, names that are taken, and random ones.
pub record Finds : Type 0 where
  pub hooks : Log → List (Option (Option Text))
  pub free_slots : Log → Option ℕ
  pub has_swapfile : Log → Bool
  pub block_count : Log → Text → Option ℕ
  pub block_size : Log → Text → Option ℕ
  pub is_taken : Log → Text → Bool
  pub has_key : Log → Bool
  pub draws : Log → List Text
  pub second_stage_esps : Log → List (Text × Text)

pub record Settings : Type 0 where
  pub use_esp_manifest : Bool
  pub use_second_stage_manifest : Bool
  pub should_kill_windows_boot_manager : Bool
  pub has_efibootmgr : Bool
  pub suffix : Option Text
  pub key : Option Text
  pub cert : Option Text

pub record Partitions : Type 0 where
  pub root : Text
  pub home : Text
  pub var : Text
  pub esp : Text

-- `/dev/mapper/current_tpm_encrypted_vol`
abbrev pub volume : Text
volume = codes "/dev/mapper/current_tpm_encrypted_vol"

abbrev pub is_given : Text → Bool
is_given [] = false
is_given (c ∷ t) = true

unfoldable pub existing_address : List (Option (Option Text)) → Result (Option Text)
existing_address [] = ok none
existing_address (none ∷ files) = existing_address files
existing_address (some none ∷ files) = err die
existing_address (some (some address) ∷ files) = ok (some address)

module _ (w : World) (f : Finds) where
  abbrev pub enough_slots : Option ℕ → Run (Unit {0})
  enough_slots none = raise_ die
  enough_slots (some n) = if ltb n 1 then raise_ die else return_ tt

  abbrev pub unless_address : Option Text → Run (Unit {0})
  unless_address (some address) = return_ tt
  unless_address none = look_at f.free_slots >>= enough_slots

  -- `tpm2_getcap` is run where no hook has an address.
  unfoldable pub die_if_no_usable_tpm_slots : Run (Unit {0})
  die_if_no_usable_tpm_slots =
      look_at f.hooks >>= λ files. lift_ (existing_address files) >>= unless_address

  unfoldable pub check_slots : Text → Run (Unit {0})
  check_slots root =
      run w (mount root tmp_mountpoint)
      >> die_if_no_usable_tpm_slots
      >> run w (umount tmp_mountpoint)

  -- The loop over random names, until one is free.
  unfoldable pub free_name : List Text → Run Text
  free_name [] = raise_ out_of_fuel
  free_name (name ∷ names) = look_at (λ log. f.is_taken log name) >>= λ taken.
      if taken then free_name names else return_ name

  unfoldable pub backup_key : Run Text
  backup_key = look_at f.draws >>= free_name >>= λ name. run w (write_key name) >> return_ name

  unfoldable pub update_manifest_of : Text → Text → Run (Unit {0})
  update_manifest_of esp path =
      run w (mount esp tmp_mountpoint)
      >> run w (update_manifest tmp_mountpoint path)
      >> run w (umount tmp_mountpoint)

  -- A second stage ESP and the path of its manifest.
  unfoldable pub update_second_stage : List (Text × Text) → Run (Unit {0})
  update_second_stage [] = return_ tt
  update_second_stage (e ∷ es) = update_manifest_of e.0 e.1 >> update_second_stage es

  abbrev pub is_ext : Option Text → Bool
  is_ext none = false
  is_ext (some t) = is_in t (codes "ext2" ∷ codes "ext3" ∷ codes "ext4" ∷ [])

  abbrev pub is_btrfs : Option Text → Bool
  is_btrfs none = false
  is_btrfs (some t) = text_eq t (codes "btrfs")

  -- `die(fstype + ...)`
  abbrev pub unexpected {ℓ} : {A : Type ℓ} → Option Text → Run A
  unexpected none = raise_ type_error
  unexpected (some t) = raise_ die

  unfoldable pub clear_swap : Text → Run (Unit {0})
  clear_swap p = issue w (mount p tmp_mountpoint) >>= λ status. look_at f.has_swapfile >>= λ found.
      if found then run w (clear_swapfile tmp_mountpoint) else return_ tt

  unfoldable pub check_filesystem : Option Text → Text → Run (Unit {0})
  check_filesystem fstype p =
      if is_ext fstype
      then run w (e2fsck p)
      else if is_btrfs fstype
      then run w (btrfs_check p)
      else unexpected fstype

  -- `stats['block count'] * stats['block size']`
  abbrev pub product : Option ℕ → Option ℕ → Result ℕ
  product none size = err key_error
  product (some n) none = err key_error
  product (some n) (some m) = ok (n * m)

  -- `get_filesystem_size`, of a file system that dumpe2fs knows
  unfoldable pub get_filesystem_size : Text → Run ℕ
  get_filesystem_size p = look_at (λ log. f.block_count log p) >>= λ count.
      look_at (λ log. f.block_size log p) >>= λ size. lift_ (product count size)

  -- 64 MiB less, in units of 1024 bytes.
  unfoldable pub shrink_ext : Text → Run (Unit {0})
  shrink_ext p = get_filesystem_size p >>= λ size.
      if ltb (size / 1024) (64 * 1024)
      then raise_ die
      else run w (resize2fs p (some (size / 1024 - 64 * 1024)))

  unfoldable pub shrink_btrfs : Text → Run (Unit {0})
  shrink_btrfs p =
      run w (mount p tmp_mountpoint)
      >> run w (btrfs_shrink tmp_mountpoint)
      >> run w (umount tmp_mountpoint)

  unfoldable pub shrink : Option Text → Text → Run (Unit {0})
  shrink fstype p =
      if is_ext fstype then shrink_ext p else if is_btrfs fstype then shrink_btrfs p else return_ tt

  -- The exit code of efibootmgr is printed alone.
  unfoldable pub maybe_kill_windows_boot_manager : Settings → Run (Unit {0})
  maybe_kill_windows_boot_manager o =
      if not o.should_kill_windows_boot_manager
      then return_ tt
      else if not o.has_efibootmgr
      then raise_ die
      else (issue w (delete_boot_entry (codes "Windows Boot Manager")) >>= λ status. return_ tt)

  -- The file system is unmounted, checked and made smaller; it gives its type.
  unfoldable pub prepare : Text → Text → Run (Option Text)
  prepare var p =
      (if text_eq p var then clear_swap p else return_ tt)
      >> run_or_die w (umount_all p)
      >> fstype_of w p
      >>= λ fstype. check_filesystem fstype p >> check_power w >> shrink fstype p >> return_ fstype

  unfoldable pub reencrypt : Settings → Text → Run (Unit {0})
  reencrypt o p =
      check_power w
      >> run w acquire_wakelock
      >> maybe_kill_windows_boot_manager o
      >> run w (reencrypt_encrypt p)

  -- The header is backed up under a name that is free.
  unfoldable pub backup_header : Text → Text → Run (Unit {0})
  backup_header key_path p =
      run w (add_key key_path)
      >> run w (header_backup p)
      >> look_at f.draws
      >>= free_name
      >>= λ name. run w (rename_header name)

  unfoldable pub recheck_volume : Option Text → Run (Unit {0})
  recheck_volume fstype =
      if is_ext fstype
      then run w (e2fsck volume)
      else if is_btrfs fstype
      then run w (btrfs_check volume)
      else return_ tt

  unfoldable pub grow_btrfs : Text → Place → Run (Unit {0})
  grow_btrfs device place =
      run w (mount device place) >> run w (btrfs_grow place) >> run w (umount place)

  unfoldable pub grow : Option Text → Text → Place → Run (Unit {0})
  grow fstype device place =
      if is_ext fstype
      then run w (resize2fs device none)
      else if is_btrfs fstype
      then grow_btrfs device place
      else return_ tt

  -- A key that is in the way is given a random name, which may be taken.
  unfoldable pub copy_key_to_root : List Text → Run (Unit {0})
  copy_key_to_root [] = raise_ out_of_fuel
  copy_key_to_root (name ∷ names) = look_at f.has_key >>= λ in_the_way.
      if not in_the_way
      then run w (copy_key mount_point)
      else look_at (λ log. f.is_taken log name) >>= λ taken.
          if taken
          then copy_key_to_root names
          else run w (set_key_aside name) >> copy_key_to_root names

  abbrev pub named_arg : Text → Option Text → List Text
  named_arg name none = []
  named_arg name (some value) = if is_given value then name ∷ value ∷ [] else []

  unfoldable pub setup_args : Settings → Partitions → List Text
  setup_args o ps =
      codes "--setup_auto_tpm_decrypt"
      ∷ codes "--esp"
      ∷ ps.esp
      ∷ (named_arg (codes "--home") (some ps.home)
          ++ (named_arg (codes "--var") (some ps.var)
              ++ (named_arg (codes "--suffix") o.suffix
                  ++ (named_arg (codes "--key") o.key ++ named_arg (codes "--cert") o.cert))))
