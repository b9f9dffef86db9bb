-- ===== src/Tpm/Encrypt/Steps.antt =====
-- The parts of `encrypt` around the reencryption of a partition.
use os_lockdown.Base.{ℕ, ◌≡◌, refl, true, not, Option, none, some, List, [], ◌∷◌, Text, ltb, ◌⊎◌}
use os_lockdown.Tpm.Result.{die, out_of_fuel}
use os_lockdown.Tpm.Effects.{Place, Command, write_key, Log, return_, raise_, World, run}
use os_lockdown.Tpm.Effects.Order.{Has, IsStable, is_harmless}
use os_lockdown.Tpm.Effects.Runs.{
  Leads, Leads->>=, Keeps, Keeps->>=, Keeps->>, Keeps-if, Keeps-return_, Keeps-raise_,
  Keeps-look_at, Keeps-lift_, Keeps-run, Keeps-issue, Leads-run-Has,
}
use os_lockdown.Tpm.Encrypt.{
  Finds, Settings, existing_address, enough_slots, unless_address, die_if_no_usable_tpm_slots,
  check_slots, free_name, backup_key, update_manifest_of, update_second_stage, is_ext, is_btrfs,
  clear_swap, maybe_kill_windows_boot_manager, backup_header, recheck_volume, grow_btrfs, grow,
  copy_key_to_root,
}

module _ (P : Log → Type 0) (stable : IsStable P) (w : World) (f : Finds) where
  harmless : (c : Command) → is_harmless c ≡ true → Keeps P (run w c)
  harmless c h = Keeps-run P stable w c h

  pub enough_slots-Keeps : (slots : Option ℕ) → Keeps P (enough_slots w f slots)
  enough_slots-Keeps none = Keeps-raise_ P (Unit {0}) die
  enough_slots-Keeps (some n) =
      Keeps-if P (ltb n 1) (raise_ die) (return_ tt) (Keeps-raise_ P (Unit {0}) die)
        (Keeps-return_ P tt)

  pub unless_address-Keeps : (address : Option Text) → Keeps P (unless_address w f address)
  unless_address-Keeps none =
      Keeps->>= P _ (enough_slots w f) (Keeps-look_at P f.free_slots) enough_slots-Keeps
  unless_address-Keeps (some a) = Keeps-return_ P tt

  pub check_slots-Keeps : (root : Text) → Keeps P (check_slots w f root)
  unfolding check_slots die_if_no_usable_tpm_slots
  check_slots-Keeps root =
      Keeps->> P _ _
        (Keeps->> P _ _ (harmless _ refl) (
          Keeps->>= P _ _ (Keeps-look_at P f.hooks) (λ files.
            Keeps->>= P _ _ (Keeps-lift_ P (existing_address files)) unless_address-Keeps)))
        (harmless _ refl)

  -- Commands that are no reencryption, one after the other.
  pub free_name-Keeps : (names : List Text) → Keeps P (free_name w f names)
  unfolding free_name
  free_name-Keeps [] = Keeps-raise_ P Text out_of_fuel
  free_name-Keeps (name ∷ names) =
      Keeps->>= P _ _ (Keeps-look_at P (λ log. f.is_taken log name))
        λ taken. Keeps-if P taken _ _ (free_name-Keeps names) (Keeps-return_ P name)

  returned_Has :
      (name : Text)
      → Leads
          (λ log. P log × Has (write_key name) log)
          (return_ name)
          (λ path log. P log × Has (write_key path) log)
  unfolding return_
  returned_Has name = record { ends = λ log ordered q. (ordered, q) }

  pub backup_key-Leads : Leads P (backup_key w f) (λ path log. P log × Has (write_key path) log)
  unfolding backup_key
  backup_key-Leads =
      Leads->>= P (λ name. P) (λ path log. P log × Has (write_key path) log) _ _
        (Keeps->>= P _ _ (Keeps-look_at P f.draws) free_name-Keeps)
        (λ name.
          Leads->>= P (λ done log. P log × Has (write_key name) log)
            (λ path log. P log × Has (write_key path) log) _ _
            (Leads-run-Has P stable w (write_key name) refl) (λ done. returned_Has name))

  pub update_manifest_of-Keeps : (esp path : Text) → Keeps P (update_manifest_of w f esp path)
  unfolding update_manifest_of
  update_manifest_of-Keeps esp path =
      Keeps->> P _ _ (Keeps->> P _ _ (harmless _ refl) (harmless _ refl)) (harmless _ refl)

  pub update_second_stage-Keeps : (es : List (Text × Text)) → Keeps P (update_second_stage w f es)
  unfolding update_second_stage
  update_second_stage-Keeps [] = Keeps-return_ P tt
  update_second_stage-Keeps (e ∷ es) =
      Keeps->> P _ _ (update_manifest_of-Keeps e.0 e.1) (update_second_stage-Keeps es)

  pub clear_swap-Keeps : (p : Text) → Keeps P (clear_swap w f p)
  unfolding clear_swap
  clear_swap-Keeps p = Keeps->>= P _ _ (Keeps-issue P stable w _ refl) λ status.
      Keeps->>= P _ _ (Keeps-look_at P f.has_swapfile)
        λ found. Keeps-if P found _ _ (harmless _ refl) (Keeps-return_ P tt)

  pub maybe_kill-Keeps : (o : Settings) → Keeps P (maybe_kill_windows_boot_manager w f o)
  unfolding maybe_kill_windows_boot_manager
  maybe_kill-Keeps o =
      Keeps-if P (not o.should_kill_windows_boot_manager) _ _ (Keeps-return_ P tt) (
        Keeps-if P (not o.has_efibootmgr) _ _ (Keeps-raise_ P (Unit {0}) die)
          (Keeps->>= P _ _ (Keeps-issue P stable w _ refl) (λ status. Keeps-return_ P tt)))

  pub backup_header-Keeps : (key_path p : Text) → Keeps P (backup_header w f key_path p)
  unfolding backup_header
  backup_header-Keeps key_path p =
      Keeps->>= P _ _
        (Keeps->>= P _ _
          (Keeps->>= P _ _ (Keeps->> P _ _ (harmless _ refl) (harmless _ refl))
            (λ done. Keeps-look_at P f.draws))
          free_name-Keeps)
        (λ name. harmless _ refl)

  pub recheck_volume-Keeps : (fstype : Option Text) → Keeps P (recheck_volume w f fstype)
  unfolding recheck_volume
  recheck_volume-Keeps fstype =
      Keeps-if P (is_ext w f fstype) _ _ (harmless _ refl)
        (Keeps-if P (is_btrfs w f fstype) _ _ (harmless _ refl) (Keeps-return_ P tt))

  pub grow-Keeps :
      (fstype : Option Text) (device : Text) (place : Place)
      → Keeps P (grow w f fstype device place)
  unfolding grow grow_btrfs
  grow-Keeps fstype device place = Keeps-if P (is_ext w f fstype) _ _ (harmless _ refl) (
      Keeps-if P (is_btrfs w f fstype) _ _
        (Keeps->> P _ _ (Keeps->> P _ _ (harmless _ refl) (harmless _ refl)) (harmless _ refl))
        (Keeps-return_ P tt))

  pub copy_key_to_root-Keeps : (names : List Text) → Keeps P (copy_key_to_root w f names)
  unfolding copy_key_to_root
  copy_key_to_root-Keeps [] = Keeps-raise_ P (Unit {0}) out_of_fuel
  copy_key_to_root-Keeps (name ∷ names) = Keeps->>= P _ _ (Keeps-look_at P f.has_key) λ in_the_way.
      Keeps-if P (not in_the_way) _ _ (harmless _ refl) (
        Keeps->>= P _ _ (Keeps-look_at P (λ log. f.is_taken log name)) λ taken.
          Keeps-if P taken _ _ (copy_key_to_root-Keeps names)
            (Keeps->> P _ _ (harmless _ refl) (copy_key_to_root-Keeps names)))

  -- A file system that is known is checked and made smaller.
  abbrev pub IsKnown : Option Text → Type 0
  IsKnown fstype = (is_ext w f fstype ≡ true) ⊎ (is_btrfs w f fstype ≡ true)
