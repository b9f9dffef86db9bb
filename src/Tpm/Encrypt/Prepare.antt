-- ===== src/Tpm/Encrypt/Prepare.antt =====
-- What `encrypt` does to a partition before it is encrypted.
use os_lockdown.Base.{refl, Option, none, some, Text, text_eq, ltb, ◌/◌, ◌*◌, ◌-◌, inl, inr, arith}
use os_lockdown.Tpm.Result.{die, type_error}
use os_lockdown.Tpm.Effects.{
  tmp_mountpoint, mount, e2fsck, btrfs_check, resize2fs, btrfs_shrink, acquire_wakelock,
  reencrypt_encrypt, Log, ◌>>◌, World, check_power,
}
use os_lockdown.Tpm.Effects.Order.{
  IsLasting, lasting-IsStable, Has, HasBehind, IsNext, IsChecked, IsShrunk, IsBackedUp, IsStable,
  Has-IsStable, both-IsStable, IsChecked-IsStable, IsShrunk-IsStable,
}
use os_lockdown.Tpm.Effects.Runs.{
  Leads, Leads->>=, Leads-map, Leads-if, Leads-raise_, Keeps->>=, Keeps->>, Keeps-if, Keeps-return_,
  Keeps-look_at, Keeps-lift_, Keeps-check_power, Keeps-fstype_of, Keeps-run, Keeps-run_or_die,
  Leads-run, Leads-run-Has, Leads-run-IsNext,
}
use os_lockdown.Tpm.Encrypt.{
  Finds, Settings, is_ext, is_btrfs, unexpected, check_filesystem, get_filesystem_size, shrink_ext,
  shrink_btrfs, shrink, prepare, reencrypt,
}
use os_lockdown.Tpm.Encrypt.Steps.{IsKnown, clear_swap-Keeps, maybe_kill-Keeps}

module _ (P : Log → Type 0) (stable : IsStable P) (w : World) (f : Finds) where
  pub unexpected-Leads :
      (Q : Unit {0} → Log → Type 0) (fstype : Option Text)
      → Leads P (unexpected w f {A = Unit {0}} fstype) Q
  unexpected-Leads Q none = Leads-raise_ (Unit {0}) P Q type_error
  unexpected-Leads Q (some t) = Leads-raise_ (Unit {0}) P Q die

  pub check_filesystem-Leads :
      (fstype : Option Text) (p : Text)
      → Leads P
          (check_filesystem w f fstype p)
          (λ a log. P log × (IsChecked p log × IsKnown P stable w f fstype))
  unfolding check_filesystem
  check_filesystem-Leads fstype p =
      let Q : Unit {0} → Log → Type 0 =
        λ a log. P log × (IsChecked p log × IsKnown P stable w f fstype) in
      Leads-if P Q (is_ext w f fstype) _ _
        (λ ext.
          Leads-map P (λ a log. P log × Has (e2fsck p) log) Q _
            (Leads-run-Has P stable w (e2fsck p) refl) (λ a log q. (q.0, (inl q.1, inl ext))))
        (λ no_ext.
          Leads-if P Q (is_btrfs w f fstype) _ _
            (λ btrfs.
              Leads-map P (λ a log. P log × Has (btrfs_check p) log) Q _
                (Leads-run-Has P stable w (btrfs_check p) refl)
                (λ a log q. (q.0, (inr q.1, inr btrfs))))
            (λ other. unexpected-Leads Q fstype))

  pub shrink_ext-Leads : (p : Text) → Leads P (shrink_ext w f p) (λ a log. P log × IsShrunk p log)
  unfolding shrink_ext get_filesystem_size
  shrink_ext-Leads p =
      Leads->>= P (λ size. P) (λ a log. P log × IsShrunk p log) _ _
        (Keeps->>= P _ _ (Keeps-look_at P (λ log. f.block_count log p)) λ count.
          Keeps->>= P _ _ (Keeps-look_at P (λ log. f.block_size log p)) λ size. Keeps-lift_ P _)
        λ size.
          Leads-if P (λ a log. P log × IsShrunk p log) (ltb (size / 1024) (64 * 1024)) _ _
            (λ small. Leads-raise_ (Unit {0}) P _ die)
            (λ large.
              Leads-map P _ _ _
                (Leads-run-Has P stable w (resize2fs p (some (size / 1024 - 64 * 1024))) refl)
                (λ a log q. (q.0, inl (size / 1024 - 64 * 1024, q.1))))

  pub shrink_btrfs-Leads :
      (p : Text) → Leads P (shrink_btrfs w f p) (λ a log. P log × IsShrunk p log)
  unfolding shrink_btrfs
  shrink_btrfs-Leads p =
      let Shrunk = HasBehind (mount p tmp_mountpoint) (btrfs_shrink tmp_mountpoint) in
      let Mounted : Log → Type 0 = λ log. P log × IsNext (mount p tmp_mountpoint) log in
      let Q : Log → Type 0 = λ log. P log × Shrunk log in
      let Q_stable : IsStable Q =
        both-IsStable P Shrunk stable (record { keeps = λ e log h q. inr q }) in
      Leads->>= P (λ a. Q) (λ a log. P log × IsShrunk p log) _ _
        (Leads->>= P (λ a. Mounted) (λ a. Q) _ _ (Leads-run-IsNext P stable w _ refl)
          (λ done.
            Leads-run Mounted w (btrfs_shrink tmp_mountpoint) Q (λ log q. tt)
              (λ log q. (stable.keeps _ log refl q.0, inl ((refl, refl), q.1)))))
        (λ done.
          Leads-map Q (λ a. Q) (λ a log. P log × IsShrunk p log) _ (Keeps-run Q Q_stable w _ refl)
            (λ a log q. (q.0, inr q.1)))

  pub shrink-Leads :
      (fstype : Option Text) (p : Text)
      → IsKnown P stable w f fstype
      → Leads P (shrink w f fstype p) (λ a log. P log × IsShrunk p log)
  unfolding shrink
  shrink-Leads fstype p known =
      Leads-if P _ (is_ext w f fstype) _ _ (λ ext. shrink_ext-Leads p)
        λ no_ext.
          Leads-if P _ (is_btrfs w f fstype) _ _ (λ btrfs. shrink_btrfs-Leads p)
            (λ other. absurd (elim known [
              | inl ext ↦ ground (arith, ext, no_ext)
              | inr btrfs ↦ ground (arith, btrfs, other)
            ]))

-- What a partition needs before it is reencrypted, but for the wake lock.
abbrev pub IsPrepared : (Log → Type 0) → Text → Log → Type 0
IsPrepared P p log = (P log × IsChecked p log) × IsShrunk p log

module _ (P : Log → Type 0) (stable : IsStable P) (w : World) (f : Finds) where
  pub IsStable-IsChecked : (p : Text) → IsStable (λ log. P log × IsChecked p log)
  IsStable-IsChecked p = both-IsStable P (IsChecked p) stable (IsChecked-IsStable p)

  pub IsPrepared-IsStable : (p : Text) → IsStable (IsPrepared P p)
  IsPrepared-IsStable p =
      both-IsStable (λ log. P log × IsChecked p log) (IsShrunk p) (IsStable-IsChecked p)
        (IsShrunk-IsStable p)

  pub IsKnown-Leads :
      (fstype : Option Text) (p : Text)
      → Leads
          (λ log. P log × (IsChecked p log × IsKnown P stable w f fstype))
          (shrink w f fstype p)
          (λ a. IsPrepared P p)
  IsKnown-Leads fstype p = record {
    ends = λ log ordered q.
        (shrink-Leads (λ l. P l × IsChecked p l) (IsStable-IsChecked p) w f fstype p q.1.1).ends log
          ordered (q.0, q.1.0);
  }

  -- The check, the power and the file system's size.
  pub sized-Leads :
      (fstype : Option Text) (p : Text)
      → Leads P
          (check_filesystem w f fstype p >> check_power w >> shrink w f fstype p)
          (λ a. IsPrepared P p)
  sized-Leads fstype p =
      let Known : Log → Type 0 = λ log. P log × (IsChecked p log × IsKnown P stable w f fstype) in
      Leads->>= P (λ a. Known) (λ a. IsPrepared P p) _ _
        (Leads->>= P (λ a. Known) (λ a. Known) _ _ (check_filesystem-Leads P stable w f fstype p)
          (λ done. Keeps-check_power Known w))
        (λ done. IsKnown-Leads fstype p)

  pub prepare-Leads : (var p : Text) → Leads P (prepare w f var p) (λ fstype. IsPrepared P p)
  unfolding prepare
  prepare-Leads var p =
      Leads->>= P (λ fstype. P) (λ fstype. IsPrepared P p) _ _
        (Keeps->>= P _ _
          (Keeps->> P _ _
            (Keeps-if P (text_eq p var) _ _ (clear_swap-Keeps P stable w f p) (Keeps-return_ P tt))
            (Keeps-run_or_die P stable w _ refl))
          (λ done. Keeps-fstype_of P w p))
        (λ fstype.
          Leads->>= P (λ a. IsPrepared P p) (λ t. IsPrepared P p) _ _ (sized-Leads fstype p)
            (λ done. Keeps-return_ (IsPrepared P p) fstype))

module _ (P : Log → Type 0) (lasting : IsLasting P)
    (backed_up : (log : Log) → P log → IsBackedUp log) (w : World) (f : Finds) (o : Settings) where
  pub reencrypt-Leads :
      (p : Text)
      → Leads (IsPrepared P p) (reencrypt w f o p) (λ a log. P log × Has (reencrypt_encrypt p) log)
  unfolding reencrypt
  reencrypt-Leads p =
      let R : Log → Type 0 = IsPrepared P p in
      let R_stable = IsPrepared-IsStable P (lasting-IsStable P lasting) w f p in
      let Awake : Log → Type 0 = λ log. R log × Has acquire_wakelock log in
      let Awake_stable : IsStable Awake =
        both-IsStable R (Has acquire_wakelock) R_stable (Has-IsStable acquire_wakelock) in
      Leads->>= R (λ a. Awake) (λ a log. P log × Has (reencrypt_encrypt p) log) _ _
        (Leads->>= R (λ a. Awake) (λ a. Awake) _ _
          (Leads->>= R (λ a. R) (λ a. Awake) _ _ (Keeps-check_power R w)
            (λ done. Leads-run-Has R R_stable w acquire_wakelock refl))
          (λ done. maybe_kill-Keeps Awake Awake_stable w f o))
        (λ done.
          Leads-run Awake w (reencrypt_encrypt p) (λ log. P log × Has (reencrypt_encrypt p) log)
            (λ log q. (backed_up log q.0.0.0, q.0.0.1, q.0.1, q.1))
            (λ log q. (lasting.lasts _ log q.0.0.0, inl (refl, refl))))
