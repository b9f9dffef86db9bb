-- ===== src/Tpm/Encrypt/Chroot.antt =====
-- `setup_chroot` and `teardown_chroot`, and the rest of `encrypt` on the root partition and as a whole.
use os_lockdown.Base.{Option, none, some, List, [], ◌∷◌, ◌++◌, Text, codes, text_eq, if◌then◌else◌}
use os_lockdown.Tpm.Effects.{
  Place, tmp_mountpoint, mount_point, mount, umount, btrfs_writable, release_wakelock,
  clear_partition_cache, open_blank, close_volume, install_script, chroot_mount, chroot_umount,
  chroot_setup, Run, return_, look_at, ◌>>=◌, ◌>>◌, finally_, World, run,
}
use os_lockdown.Tpm.Encrypt.{
  Finds, Settings, Partitions, volume, is_given, check_slots, backup_key, update_manifest_of,
  update_second_stage, is_btrfs, prepare, reencrypt, backup_header, recheck_volume, grow,
  copy_key_to_root, setup_args,
}

pub record ChrootMount : Type 0 where
  pub path : Text
  pub type_ : Text
  pub options : Option Text

-- `CHROOT_MOUNTS`, sorted by path.
abbrev pub chroot_mounts : List ChrootMount
chroot_mounts =
    record {
      path = codes "dev";
      type_ = codes "devtmpfs";
      options = some (codes "mode=0755,nosuid");
    }
    ∷ record {
      path = codes "dev/pts";
      type_ = codes "devpts";
      options = some (codes "mode=0620,gid=5,nosuid,noexec");
    }
    ∷ record {
      path = codes "dev/shm";
      type_ = codes "tmpfs";
      options = some (codes "mode=1777,nosuid,nodev");
    }
    ∷ record {
      path = codes "proc";
      type_ = codes "proc";
      options = some (codes "nosuid,noexec,nodev");
    }
    ∷ record { path = codes "run"; type_ = codes "tmpfs"; options = none }
    ∷ record {
      path = codes "sys";
      type_ = codes "sysfs";
      options = some (codes "nosuid,noexec,nodev,ro");
    }
    ∷ record {
      path = codes "sys/firmware/efi/efivars";
      type_ = codes "efivarfs";
      options = some (codes "nosuid,noexec,nodev");
    }
    ∷ record {
      path = codes "tmp";
      type_ = codes "tmpfs";
      options = some (codes "mode=1777,strictatime,nodev,nosuid");
    }
    ∷ []

unfoldable pub reversed_mounts : List ChrootMount → List ChrootMount
reversed_mounts [] = []
reversed_mounts (m ∷ ms) = reversed_mounts ms ++ (m ∷ [])

module _ (w : World) where
  unfoldable pub mount_all : Place → List ChrootMount → Run (Unit {0})
  mount_all root [] = return_ tt
  mount_all root (m ∷ ms) = run w (chroot_mount root m.path m.type_ m.options) >> mount_all root ms

  unfoldable pub umount_each : Place → List ChrootMount → Run (Unit {0})
  umount_each root [] = return_ tt
  umount_each root (m ∷ ms) = run w (chroot_umount root m.path) >> umount_each root ms

  unfoldable pub setup_chroot : Place → Run (Unit {0})
  setup_chroot root = mount_all root chroot_mounts

  unfoldable pub teardown_chroot : Place → Run (Unit {0})
  teardown_chroot root = umount_each root (reversed_mounts chroot_mounts)

module _ (w : World) (f : Finds) (o : Settings) (ps : Partitions) where
  unfoldable pub make_writable : Option Text → Run (Unit {0})
  make_writable fstype =
      if is_btrfs w f fstype then run w (btrfs_writable mount_point) else return_ tt

  -- What is done on the root partition alone.
  unfoldable pub set_up_root : Option Text → Run (Unit {0})
  set_up_root fstype =
      run w clear_partition_cache
      >> run w (mount volume mount_point)
      >> make_writable fstype
      >> look_at f.draws
      >>= copy_key_to_root w f
      >>= λ done.
          run w (install_script mount_point)
          >> finally_
              (setup_chroot w mount_point >> run w (chroot_setup mount_point (setup_args w f o ps)))
              (teardown_chroot w mount_point)
          >> run w release_wakelock
          >> run w (umount mount_point)

  -- What is done once a partition is encrypted.
  unfoldable pub finish : Text → Text → Option Text → Run (Unit {0})
  finish key_path p fstype =
      backup_header w f key_path p
      >> run w (open_blank p)
      >> recheck_volume w f fstype
      >> grow w f fstype volume tmp_mountpoint
      >> (if text_eq p ps.root then set_up_root fstype else return_ tt)
      >> run w close_volume

  unfoldable pub encrypt_partition : Text → Text → Run (Unit {0})
  encrypt_partition key_path p =
      prepare w f ps.var p >>= λ fstype. reencrypt w f o p >> finish key_path p fstype

  unfoldable pub encrypt_partitions : Text → List Text → Run (Unit {0})
  encrypt_partitions key_path [] = return_ tt
  encrypt_partitions key_path (p ∷ rest) =
      (if is_given p then encrypt_partition key_path p else return_ tt)
      >> encrypt_partitions key_path rest

  unfoldable pub update_manifests : Run (Unit {0})
  update_manifests =
      (if o.use_esp_manifest
        then update_manifest_of w f ps.esp (codes "auto_tpm_encrypt_esp_manifest.json")
        else return_ tt)
      >> (if o.use_second_stage_manifest
          then (look_at f.second_stage_esps >>= update_second_stage w f)
          else return_ tt)

  unfoldable pub encrypt : Run (Unit {0})
  encrypt = check_slots w f ps.root >> backup_key w f >>= λ key_path.
      update_manifests >> encrypt_partitions key_path (ps.var ∷ ps.home ∷ ps.root ∷ [])
