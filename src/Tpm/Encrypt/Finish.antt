-- ===== src/Tpm/Encrypt/Finish.antt =====
-- What `encrypt` does to a partition once it is encrypted.
use os_lockdown.Base.{◌≡◌, refl, true, Option, List, [], ◌∷◌, Text, text_eq}
use os_lockdown.Tpm.Effects.{Place, tmp_mountpoint, mount_point, Command, Log, World, run}
use os_lockdown.Tpm.Effects.Order.{always-IsStable, is_harmless, IsStable}
use os_lockdown.Tpm.Effects.Runs.{
  Keeps, Keeps->>=, Keeps->>, Keeps-if, Keeps-return_, Keeps-look_at, Keeps-run, Keeps-finally_,
}
use os_lockdown.Tpm.Encrypt.{Finds, Settings, Partitions, is_btrfs, volume}
use os_lockdown.Tpm.Encrypt.Chroot.{
  ChrootMount, chroot_mounts, reversed_mounts, mount_all, umount_each, setup_chroot,
  teardown_chroot, make_writable, set_up_root, finish, update_manifests,
}
use os_lockdown.Tpm.Encrypt.Steps.{
  update_manifest_of-Keeps, update_second_stage-Keeps, backup_header-Keeps, recheck_volume-Keeps,
  grow-Keeps, copy_key_to_root-Keeps,
}

module _ (P : Log → Type 0) (stable : IsStable P) (w : World) where
  pub mount_all-Keeps : (root : Place) (ms : List ChrootMount) → Keeps P (mount_all w root ms)
  unfolding mount_all
  mount_all-Keeps root [] = Keeps-return_ P tt
  mount_all-Keeps root (m ∷ ms) =
      Keeps->> P _ _ (Keeps-run P stable w _ refl) (mount_all-Keeps root ms)

  pub umount_each-Keeps : (root : Place) (ms : List ChrootMount) → Keeps P (umount_each w root ms)
  unfolding umount_each
  umount_each-Keeps root [] = Keeps-return_ P tt
  umount_each-Keeps root (m ∷ ms) =
      Keeps->> P _ _ (Keeps-run P stable w _ refl) (umount_each-Keeps root ms)

module _ (P : Log → Type 0) (stable : IsStable P) (w : World) (f : Finds) (o : Settings)
    (ps : Partitions) where
  pub harmless : (c : Command) → is_harmless c ≡ true → Keeps P (run w c)
  harmless c h = Keeps-run P stable w c h

  pub set_up_root-Keeps : (fstype : Option Text) → Keeps P (set_up_root w f o ps fstype)
  unfolding set_up_root make_writable setup_chroot teardown_chroot
  set_up_root-Keeps fstype =
      let before =
        Keeps->>= P _ _
          (Keeps->>= P _ _
            (Keeps->> P _ _ (Keeps->> P _ _ (harmless _ refl) (harmless _ refl))
              (Keeps-if P (is_btrfs w f fstype) _ _ (harmless _ refl) (Keeps-return_ P tt)))
            (λ done. Keeps-look_at P f.draws))
          (copy_key_to_root-Keeps P stable w f) in
      let chroot =
        Keeps-finally_ P _ _
          (Keeps->> P _ _ (mount_all-Keeps P stable w mount_point chroot_mounts) (harmless _ refl))
          (umount_each-Keeps P stable w mount_point (reversed_mounts chroot_mounts))
          (umount_each-Keeps (λ log. Unit {0}) always-IsStable w mount_point
            (reversed_mounts chroot_mounts)) in
      Keeps->>= P _ _ before (λ done.
        Keeps->> P _ _ (Keeps->> P _ _ (Keeps->> P _ _ (harmless _ refl) chroot) (harmless _ refl))
          (harmless _ refl))

  -- What is done once a partition is encrypted.
  pub finish-Keeps :
      (key_path p : Text) (fstype : Option Text) → Keeps P (finish w f o ps key_path p fstype)
  unfolding finish
  finish-Keeps key_path p fstype =
      Keeps->> P _ _
        (Keeps->> P _ _
          (Keeps->> P _ _
            (Keeps->> P _ _
              (Keeps->> P _ _ (backup_header-Keeps P stable w f key_path p) (harmless _ refl))
              (recheck_volume-Keeps P stable w f fstype))
            (grow-Keeps P stable w f fstype volume tmp_mountpoint))
          (Keeps-if P (text_eq p ps.root) _ _ (set_up_root-Keeps fstype) (Keeps-return_ P tt)))
        (harmless _ refl)

  pub update_manifests-Keeps : Keeps P (update_manifests w f o ps)
  unfolding update_manifests
  update_manifests-Keeps =
      Keeps->> P _ _
        (Keeps-if P o.use_esp_manifest _ _ (update_manifest_of-Keeps P stable w f ps.esp _)
          (Keeps-return_ P tt))
        (Keeps-if P o.use_second_stage_manifest _ _
          (Keeps->>= P _ _ (Keeps-look_at P f.second_stage_esps)
            (update_second_stage-Keeps P stable w f))
          (Keeps-return_ P tt))
