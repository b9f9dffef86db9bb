-- ===== src/Tpm/Decrypt.antt =====
-- `decrypt` of auto_tpm_encrypt.py, as what it runs and in which order.
pub mod Steps
pub mod Order
use os_lockdown.Base.{
  ℕ, zero, suc, Bool, true, false, ◌&&◌, ◌||◌, not, Option, none, some, List, [], ◌∷◌, Text, codes,
  text_eq, ◌==◌, if◌then◌else◌,
}
use os_lockdown.Base.Sort.{is_in}
use os_lockdown.Tpm.Result.{Result, ok, err, Error, die, name_error, os_error, out_of_fuel}
use os_lockdown.Tpm.Validate.{Partition, is_unencrypted}
use os_lockdown.Tpm.Effects.{
  Place, tmp_root, Command, mount, umount, umount_all, e2fsck, btrfs_check, acquire_wakelock,
  release_wakelock, clear_partition_cache, reencrypt_decrypt, open_with_key, dump_header,
  convert_to_luks1, remove_key, convert_key, close_volume, matches_manifest, restore_tab, evict_key,
  remove_file, restore_loader, firmware_audit, wait_for_enter, Log, Run, return_, raise_, lift_,
  look_at, ◌>>=◌, ◌>>◌, World, issue, run, run_or_die, check_power, fstype_of,
}
use os_lockdown.Tpm.Encrypt.{
  Finds, Partitions, volume, is_given, existing_address, is_ext, is_btrfs, grow,
}

-- What decrypt finds besides: the key file, the audit script on a SteamOS, the OS that is decrypted,
-- and the key slots that luksDump prints.
pub record Sees : Type 0 where
  pub has_key_file : Bool
  pub has_firmware_audit : Bool
  pub is_steamos : Log → Bool
  pub keyslots : Log → Text → List Text

pub record Choices : Type 0 where
  pub skip_controller_firmware_audit : Bool
  pub use_esp_manifest : Bool
  pub use_second_stage_manifest : Bool
  pub do_mask_steamcl_service : Bool
  pub wait_iterations : ℕ
  pub hook_related_paths : List Text
  pub steamcl_service_mask_path : Text

-- `/etc/fstab` and `/etc/crypttab.initramfs`
abbrev pub tabs : List Text
tabs = codes "/etc/fstab" ∷ codes "/etc/crypttab.initramfs" ∷ []

module _ (w : World) (f : Finds) (d : Sees) (o : Choices) where
  unfoldable pub audit_firmware : Run (Unit {0})
  audit_firmware =
      if not o.skip_controller_firmware_audit && d.has_firmware_audit
      then run w firmware_audit
      else return_ tt

  -- The message for another exit code names a variable that has no value yet.
  unfoldable pub umount_root : Text → Run (Unit {0})
  umount_root root = issue w (umount_all root) >>= λ status.
      if status == 0 || status == 1 then return_ tt else raise_ name_error

  -- Whether the OS on the root partition is a SteamOS.
  unfoldable pub look_into_root : Text → Run Bool
  look_into_root root =
      check_power w
      >> umount_root root
      >> run w (open_with_key root)
      >> run w (mount volume tmp_root)
      >> look_at d.is_steamos
      >>= λ steamos. run w (umount tmp_root) >> run w close_volume >> return_ steamos

  -- `remove_blank_password`, a turn of its loop for each unit of fuel.
  unfoldable pub remove_blank : ℕ → Text → Run (Unit {0})
  remove_blank zero p = raise_ out_of_fuel
  remove_blank (suc fuel) p = issue w (remove_key p) >>= λ status.
      if status == 0 then remove_blank fuel p else if status == 2 then return_ tt else raise_ die

  unfoldable pub convert_keyslots : Text → List Text → Run (Unit {0})
  convert_keyslots p [] = return_ tt
  convert_keyslots p (slot ∷ slots) = issue w (convert_key slot p) >>= λ status.
      if status == 0 then convert_keyslots p slots else raise_ die

  abbrev pub die_if_none : List Text → Run (Unit {0})
  die_if_none [] = raise_ die
  die_if_none (slot ∷ slots) = return_ tt

  unfoldable pub convert : ℕ → Text → Run (Unit {0})
  convert fuel p =
      remove_blank fuel p >> run w (dump_header p) >> look_at (λ log. d.keyslots log p) >>= λ slots.
      die_if_none slots >> check_power w >> convert_keyslots p slots >> run w (convert_to_luks1 p)

  abbrev pub is_some_text : Option Text → Bool
  is_some_text none = false
  is_some_text (some t) = is_given t

  -- The loop that waits for a file system; it gives what the last look found.
  unfoldable pub wait_for_fstype : ℕ → Text → Run (Option Text)
  wait_for_fstype zero p = raise_ name_error
  wait_for_fstype (suc n) p = run w clear_partition_cache >> fstype_of w p >>= λ fstype.
      if is_some_text fstype || n == 0 then return_ fstype else wait_for_fstype n p

  abbrev pub die_if_unsupported : Option Text → Run (Unit {0})
  die_if_unsupported fstype = if is_unencrypted fstype then return_ tt else raise_ die

  unfoldable pub check_decrypted : Option Text → Text → Run (Unit {0})
  check_decrypted fstype p =
      if is_ext w f fstype
      then run w (e2fsck p)
      else if is_btrfs w f fstype
      then run w (btrfs_check p)
      else return_ tt

  -- `except FileNotFoundError: pass`, where 2 is `ENOENT`
  unfoldable pub unless_missing : Command → Run (Unit {0})
  unless_missing c =
      issue w c >>= λ status. if status == 0 || status == 2 then return_ tt else raise_ os_error

  unfoldable pub restore_tabs : List Text → Run (Unit {0})
  restore_tabs [] = return_ tt
  restore_tabs (tab ∷ rest) = unless_missing (restore_tab tmp_root tab) >> restore_tabs rest

  unfoldable pub remove_files : List Text → Run (Unit {0})
  remove_files [] = return_ tt
  remove_files (path ∷ paths) = unless_missing (remove_file tmp_root path) >> remove_files paths

  abbrev pub evict : Option Text → Run (Unit {0})
  evict none = return_ tt
  evict (some address) =
      issue w (evict_key address) >>= λ status. if status == 0 then return_ tt else raise_ die

  unfoldable pub clean_root : Text → Run (Unit {0})
  clean_root p = run w (mount p tmp_root) >> restore_tabs tabs >> look_at f.hooks >>= λ files.
      lift_ (existing_address files) >>= evict >>= λ done.
      remove_files o.hook_related_paths
      >> (if o.do_mask_steamcl_service
          then remove_files (o.steamcl_service_mask_path ∷ [])
          else return_ tt)
      >> run w (umount tmp_root)

  -- The file system is there again: it is checked and takes the whole partition.
  unfoldable pub restore_filesystem : Text → Text → Run (Unit {0})
  restore_filesystem root p = wait_for_fstype o.wait_iterations p >>= λ fstype.
      die_if_unsupported fstype
      >> run_or_die w (umount_all p)
      >> check_decrypted fstype p
      >> grow w f fstype p tmp_root
      >> (if text_eq p root then clean_root p else return_ tt)

  unfoldable pub decrypt_partition : ℕ → Text → Text → Run (Unit {0})
  decrypt_partition fuel root p =
      convert fuel p >> run w (reencrypt_decrypt p) >> restore_filesystem root p

  unfoldable pub decrypt_partitions : ℕ → Text → List Text → Run (Unit {0})
  decrypt_partitions fuel root [] = return_ tt
  decrypt_partitions fuel root (p ∷ rest) =
      (if is_given p then decrypt_partition fuel root p else return_ tt)
      >> decrypt_partitions fuel root rest

  -- A chain loader, and whether its backup is there.
  unfoldable pub restore_loaders : Run Bool
  restore_loaders = issue w (restore_loader tmp_root (codes "efi/boot/bootx64.efi")) >>= λ first.
      issue w (restore_loader tmp_root (codes "efi/steamos/steamcl.efi")) >>= λ second.
      return_ (first == 0 && second == 0)

  -- A manifest that does not match waits for the user.
  unfoldable pub verify_manifest : Text → Run (Unit {0})
  verify_manifest path = issue w (matches_manifest tmp_root path) >>= λ status.
      if status == 0 then return_ tt else run w wait_for_enter

  unfoldable pub restore_esp : Text → Bool → Run Bool
  restore_esp esp steamos =
      if steamos || o.use_esp_manifest
      then (run w (mount esp tmp_root)
          >> (if steamos then restore_loaders else return_ true)
          >>= λ restored.
              (if o.use_esp_manifest
                then verify_manifest (codes "auto_tpm_encrypt_esp_manifest.json")
                else return_ tt)
              >> run w (umount tmp_root)
              >> return_ restored)
      else return_ true

  unfoldable pub verify_second_stage : List (Text × Text) → Run (Unit {0})
  verify_second_stage [] = return_ tt
  verify_second_stage (e ∷ es) =
      run w (mount e.0 tmp_root)
      >> verify_manifest e.1
      >> run w (umount tmp_root)
      >> verify_second_stage es

  -- What is done once every partition is decrypted.
  unfoldable pub restore_boot : Partitions → Bool → Run (Unit {0})
  restore_boot ps steamos = restore_esp ps.esp steamos >>= λ restored.
      (if steamos && o.use_second_stage_manifest
        then (look_at f.second_stage_esps >>= verify_second_stage)
        else return_ tt)
      >> (if restored then return_ tt else raise_ die)

  unfoldable pub decrypt_all : ℕ → Partitions → Bool → Run (Unit {0})
  decrypt_all fuel ps steamos =
      check_power w
      >> run w acquire_wakelock
      >> decrypt_partitions fuel ps.root (ps.root ∷ ps.home ∷ ps.var ∷ [])
      >> run w release_wakelock
      >> restore_boot ps steamos

  unfoldable pub decrypt : ℕ → Partitions → Run (Unit {0})
  decrypt fuel ps =
      (if d.has_key_file then return_ tt else raise_ die)
      >> audit_firmware
      >> look_into_root ps.root
      >>= decrypt_all fuel ps
