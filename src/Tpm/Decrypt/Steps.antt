-- ===== src/Tpm/Decrypt/Steps.antt =====
-- The parts of `decrypt` around the decryption of a partition.
use os_lockdown.Base.{
  ℕ, zero, suc, ◌≡◌, refl, Bool, true, not, ◌&&◌, ◌||◌, Option, none, some, List, [], ◌∷◌, Text,
  text_eq, ◌==◌,
}
use os_lockdown.Tpm.Result.{Error, die, name_error, os_error, out_of_fuel}
use os_lockdown.Tpm.Validate.{is_unencrypted}
use os_lockdown.Tpm.Effects.{tmp_root, Command, convert_to_luks1, Log, return_, raise_, World, run}
use os_lockdown.Tpm.Effects.Order.{Has, is_harmless, IsStable}
use os_lockdown.Tpm.Effects.Runs.{
  Leads, Leads->>=, Keeps, Keeps->>=, Keeps->>, Keeps-if, Keeps-return_, Keeps-raise_,
  Keeps-look_at, Keeps-lift_, Keeps-issue, Keeps-check_power, Keeps-fstype_of, Keeps-run,
  Keeps-run_or_die, Leads-run-Has,
}
use os_lockdown.Tpm.Encrypt.{Finds, Partitions, existing_address, is_ext, is_btrfs}
use os_lockdown.Tpm.Encrypt.Steps.{grow-Keeps}
use os_lockdown.Tpm.Decrypt.{
  Sees, Choices, tabs, audit_firmware, umount_root, look_into_root, remove_blank, convert_keyslots,
  die_if_none, convert, is_some_text, wait_for_fstype, check_decrypted, unless_missing,
  restore_tabs, remove_files, evict, clean_root, restore_filesystem, restore_loaders,
  verify_manifest, restore_esp, verify_second_stage, restore_boot,
}

module _ (P : Log → Type 0) (stable : IsStable P) (w : World) (f : Finds) (d : Sees)
    (o : Choices) where
  pub done : Keeps {0} P {A = Unit {0}} (return_ tt)
  done = Keeps-return_ P tt

  pub dies : (e : Error) → Keeps P {A = Unit {0}} (raise_ e)
  dies e = Keeps-raise_ P (Unit {0}) e

  pub harmless : (c : Command) → is_harmless c ≡ true → Keeps P (run w c)
  harmless c h = Keeps-run P stable w c h

  pub look_into_root-Keeps : (root : Text) → Keeps P (look_into_root w f d o root)
  unfolding look_into_root umount_root
  look_into_root-Keeps root =
      let unmounted =
        Keeps->>= P _ _ (Keeps-issue P stable w _ refl)
          (λ status. Keeps-if P (status == 0 || status == 1) _ _ done (dies name_error)) in
      Keeps->>= P _ _
        (Keeps->>= P _ _
          (Keeps->> P _ _
            (Keeps->> P _ _ (Keeps->> P _ _ (Keeps-check_power P w) unmounted) (harmless _ refl))
            (harmless _ refl))
          (λ u. Keeps-look_at P d.is_steamos))
        (λ steamos.
          Keeps->>= P _ _ (Keeps->> P _ _ (harmless _ refl) (harmless _ refl))
            (λ u. Keeps-return_ P steamos))

  pub audit_firmware-Keeps : Keeps P (audit_firmware w f d o)
  unfolding audit_firmware
  audit_firmware-Keeps =
      Keeps-if P (not o.skip_controller_firmware_audit && d.has_firmware_audit) _ _
        (harmless _ refl) done

  pub remove_blank-Keeps : (fuel : ℕ) (p : Text) → Keeps P (remove_blank w f d o fuel p)
  unfolding remove_blank
  remove_blank-Keeps zero p = dies out_of_fuel
  remove_blank-Keeps (suc fuel) p = Keeps->>= P _ _ (Keeps-issue P stable w _ refl) λ status.
      Keeps-if P (status == 0) _ _ (remove_blank-Keeps fuel p)
        (Keeps-if P (status == 2) _ _ done (dies die))

  pub convert_keyslots-Keeps :
      (p : Text) (slots : List Text) → Keeps P (convert_keyslots w f d o p slots)
  unfolding convert_keyslots
  convert_keyslots-Keeps p [] = done
  convert_keyslots-Keeps p (slot ∷ slots) =
      Keeps->>= P _ _ (Keeps-issue P stable w _ refl)
        λ status. Keeps-if P (status == 0) _ _ (convert_keyslots-Keeps p slots) (dies die)

  pub die_if_none-Keeps : (slots : List Text) → Keeps P (die_if_none w f d o slots)
  die_if_none-Keeps [] = dies die
  die_if_none-Keeps (slot ∷ slots) = done

  -- The header is in the older format in the end.
  pub convert-Leads :
      (fuel : ℕ) (p : Text)
      → Leads P (convert w f d o fuel p) (λ u log. P log × Has (convert_to_luks1 p) log)
  unfolding convert
  convert-Leads fuel p =
      Leads->>= P (λ slots. P) (λ u log. P log × Has (convert_to_luks1 p) log) _ _
        (Keeps->>= P _ _ (Keeps->> P _ _ (remove_blank-Keeps fuel p) (harmless _ refl))
          (λ u. Keeps-look_at P (λ log. d.keyslots log p)))
        (λ slots.
          Leads->>= P (λ u. P) (λ u log. P log × Has (convert_to_luks1 p) log) _ _
            (Keeps->> P _ _ (Keeps->> P _ _ (die_if_none-Keeps slots) (Keeps-check_power P w))
              (convert_keyslots-Keeps p slots))
            (λ u. Leads-run-Has P stable w (convert_to_luks1 p) refl))

  pub wait_for_fstype-Keeps : (n : ℕ) (p : Text) → Keeps P (wait_for_fstype w f d o n p)
  unfolding wait_for_fstype
  wait_for_fstype-Keeps zero p = Keeps-raise_ P (Option Text) name_error
  wait_for_fstype-Keeps (suc n) p =
      Keeps->>= P _ _ (Keeps->>= P _ _ (harmless _ refl) (λ u. Keeps-fstype_of P w p)) (λ fstype.
        Keeps-if P (is_some_text w f d o fstype || n == 0) _ _ (Keeps-return_ P fstype)
          (wait_for_fstype-Keeps n p))

  unless_missing-Keeps : (c : Command) → is_harmless c ≡ true → Keeps P (unless_missing w f d o c)
  unfolding unless_missing
  unless_missing-Keeps c h =
      Keeps->>= P _ _ (Keeps-issue P stable w c h)
        (λ status. Keeps-if P (status == 0 || status == 2) _ _ done (dies os_error))

  pub restore_tabs-Keeps : (ts : List Text) → Keeps P (restore_tabs w f d o ts)
  unfolding restore_tabs
  restore_tabs-Keeps [] = done
  restore_tabs-Keeps (t ∷ ts) = Keeps->> P _ _ (unless_missing-Keeps _ refl) (restore_tabs-Keeps ts)

  pub remove_files-Keeps : (paths : List Text) → Keeps P (remove_files w f d o paths)
  unfolding remove_files
  remove_files-Keeps [] = done
  remove_files-Keeps (path ∷ paths) =
      Keeps->> P _ _ (unless_missing-Keeps _ refl) (remove_files-Keeps paths)

  pub evict-Keeps : (address : Option Text) → Keeps P (evict w f d o address)
  evict-Keeps none = done
  evict-Keeps (some a) =
      Keeps->>= P _ _ (Keeps-issue P stable w _ refl)
        (λ status. Keeps-if P (status == 0) _ _ done (dies die))

  pub clean_root-Keeps : (p : Text) → Keeps P (clean_root w f d o p)
  unfolding clean_root
  clean_root-Keeps p =
      Keeps->>= P _ _
        (Keeps->>= P _ _ (Keeps->> P _ _ (harmless _ refl) (restore_tabs-Keeps tabs))
          (λ u. Keeps-look_at P f.hooks))
        λ files.
          Keeps->>= P _ _ (Keeps->>= P _ _ (Keeps-lift_ P (existing_address files)) evict-Keeps)
            (λ u.
              Keeps->> P _ _
                (Keeps->> P _ _ (remove_files-Keeps o.hook_related_paths) (
                  Keeps-if P o.do_mask_steamcl_service _ _
                    (remove_files-Keeps (o.steamcl_service_mask_path ∷ [])) done))
                (harmless _ refl))

  pub restore_filesystem-Keeps : (root p : Text) → Keeps P (restore_filesystem w f d o root p)
  unfolding restore_filesystem check_decrypted
  restore_filesystem-Keeps root p =
      Keeps->>= P _ _ (wait_for_fstype-Keeps o.wait_iterations p) λ fstype.
        Keeps->> P _ _
          (Keeps->> P _ _
            (Keeps->> P _ _
              (Keeps->> P _ _ (Keeps-if P (is_unencrypted fstype) _ _ done (dies die))
                (Keeps-run_or_die P stable w _ refl))
              (Keeps-if P (is_ext w f fstype) _ _ (harmless _ refl)
                (Keeps-if P (is_btrfs w f fstype) _ _ (harmless _ refl) done)))
            (grow-Keeps P stable w f fstype p tmp_root))
          (Keeps-if P (text_eq p root) _ _ (clean_root-Keeps p) done)

  pub restore_loaders-Keeps : Keeps P (restore_loaders w f d o)
  unfolding restore_loaders
  restore_loaders-Keeps = Keeps->>= P _ _ (Keeps-issue P stable w _ refl) λ first.
      Keeps->>= P _ _ (Keeps-issue P stable w _ refl)
        λ second. Keeps-return_ P (first == 0 && second == 0)

  pub verify_manifest-Keeps : (path : Text) → Keeps P (verify_manifest w f d o path)
  unfolding verify_manifest
  verify_manifest-Keeps path =
      Keeps->>= P _ _ (Keeps-issue P stable w _ refl)
        (λ status. Keeps-if P (status == 0) _ _ done (harmless _ refl))

  pub restore_esp-Keeps : (esp : Text) (steamos : Bool) → Keeps P (restore_esp w f d o esp steamos)
  unfolding restore_esp
  restore_esp-Keeps esp steamos =
      Keeps-if P (steamos || o.use_esp_manifest) _ _
        (Keeps->>= P _ _
          (Keeps->>= P _ _ (harmless _ refl)
            (λ u. Keeps-if P steamos _ _ restore_loaders-Keeps (Keeps-return_ P true)))
          (λ restored.
            Keeps->>= P _ _
              (Keeps->> P _ _ (Keeps-if P o.use_esp_manifest _ _ (verify_manifest-Keeps _) done)
                (harmless _ refl))
              (λ u. Keeps-return_ P restored)))
        (Keeps-return_ P true)

  pub verify_second_stage-Keeps :
      (es : List (Text × Text)) → Keeps P (verify_second_stage w f d o es)
  unfolding verify_second_stage
  verify_second_stage-Keeps [] = done
  verify_second_stage-Keeps (e ∷ es) =
      Keeps->> P _ _
        (Keeps->> P _ _ (Keeps->> P _ _ (harmless _ refl) (verify_manifest-Keeps e.1))
          (harmless _ refl))
        (verify_second_stage-Keeps es)

  pub restore_boot-Keeps :
      (ps : Partitions) (steamos : Bool) → Keeps P (restore_boot w f d o ps steamos)
  unfolding restore_boot
  restore_boot-Keeps ps steamos = Keeps->>= P _ _ (restore_esp-Keeps ps.esp steamos) λ restored.
      Keeps->> P _ _
        (Keeps-if P (steamos && o.use_second_stage_manifest) _ _
          (Keeps->>= P _ _ (Keeps-look_at P f.second_stage_esps) verify_second_stage-Keeps) done)
        (Keeps-if P restored _ _ done (dies die))
