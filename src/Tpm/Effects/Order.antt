-- ===== src/Tpm/Effects/Order.antt =====
-- What has to be in the log before a partition is reencrypted, and runs that keep to it.
use os_lockdown.Base.{ℕ, ◌≡◌, Bool, true, false, some, [], ◌∷◌, Text, ◌⊎◌, inl, inr, arith}
use os_lockdown.Tpm.Result.{Result, ok, err}
use os_lockdown.Tpm.Effects.{
  tmp_mountpoint, Command, Event, mount, e2fsck, btrfs_check, resize2fs, btrfs_shrink, write_key,
  reencrypt_encrypt, reencrypt_decrypt, convert_to_luks1, acquire_wakelock, Log,
}

-- The command was run, and succeeded.
abbrev pub IsDone : Command → Event → Type 0
IsDone c e = (e.command ≡ c) × (e.status ≡ 0)

-- Somewhere in the log, the command succeeded.
abbrev pub Has : Command → Log → Type 0
Has c [] = ⊥
Has c (e ∷ log) = IsDone c e ⊎ Has c log

abbrev pub IsNext : Command → Log → Type 0
IsNext c [] = ⊥
IsNext c (e ∷ log) = IsDone c e

-- Somewhere in the log, the command `c` succeeded directly behind `d`, which succeeded, too.
abbrev pub HasBehind : Command → Command → Log → Type 0
HasBehind d c [] = ⊥
HasBehind d c (e ∷ log) = (IsDone c e × IsNext d log) ⊎ HasBehind d c log

-- A file system was checked.
abbrev pub IsChecked : Text → Log → Type 0
IsChecked p log = Has (e2fsck p) log ⊎ Has (btrfs_check p) log

-- A file system was made smaller; btrfs, where it had just been mounted.
abbrev pub IsShrunk : Text → Log → Type 0
IsShrunk p log =
    ((n : ℕ) × Has (resize2fs p (some n)) log)
    ⊎ HasBehind (mount p tmp_mountpoint) (btrfs_shrink tmp_mountpoint) log

-- The key was written to a file.
abbrev pub IsBackedUp : Log → Type 0
IsBackedUp log = (path : Text) × Has (write_key path) log

abbrev pub CanEncrypt : Text → Log → Type 0
CanEncrypt p log = IsBackedUp log × IsChecked p log × IsShrunk p log × Has acquire_wakelock log

abbrev pub CanDecrypt : Text → Log → Type 0
CanDecrypt p log = Has (convert_to_luks1 p) log × Has acquire_wakelock log

-- What the log holds where a partition may be reencrypted.
abbrev pub IsReady : Command → Log → Type 0
IsReady c log = elim c [
  | reencrypt_encrypt p ↦ CanEncrypt p log
  | reencrypt_decrypt p ↦ CanDecrypt p log
  | _ ↦ Unit
]

-- Every partition was ready when its reencryption was started.
abbrev pub IsOrdered : Log → Type 0
IsOrdered [] = Unit
IsOrdered (e ∷ log) = IsReady e.command log × IsOrdered log

abbrev pub is_harmless : Command → Bool
is_harmless c = elim c [ reencrypt_encrypt p ↦ false | reencrypt_decrypt p ↦ false | _ ↦ true ]

-- Where a run ends: in `Q` with a value, and in order in any case.
abbrev pub Ends {ℓ} : {A : Type ℓ} → (A → Log → Type 0) → Result A × Log → Type 0
Ends Q (ok a, log) = IsOrdered log × Q a log
Ends Q (err e, log) = IsOrdered log

-- What holds on and on while nothing is reencrypted.
pub record IsStable (P : Log → Type 0) : Type 0 where
  pub keeps : (e : Event) (log : Log) → is_harmless e.command ≡ true → P log → P (e ∷ log)

pub harmless-IsReady : (c : Command) (log : Log) → is_harmless c ≡ true → IsReady c log
harmless-IsReady c log = elim c as (λ d. is_harmless d ≡ true → IsReady d log) [
  | reencrypt_encrypt p ↦ λ h. absurd (ground (arith, h))
  | reencrypt_decrypt p ↦ λ h. absurd (ground (arith, h))
  | _ ↦ λ h. tt
]

-- What succeeded stays in the log.
pub Has-IsStable : (d : Command) → IsStable (Has d)
Has-IsStable d = record { keeps = λ c log h p. inr p }

pub both-IsStable : (P Q : Log → Type 0) → IsStable P → IsStable Q → IsStable (λ log. P log × Q log)
both-IsStable P Q p q = record {
  keeps = λ c log h pq. (p.keeps c log h pq.0, q.keeps c log h pq.1);
}

pub either-IsStable :
    (P Q : Log → Type 0) → IsStable P → IsStable Q → IsStable (λ log. P log ⊎ Q log)
either-IsStable P Q p q = record {
  keeps =
      λ c log h pq. elim pq [ inl x ↦ inl (p.keeps c log h x) | inr y ↦ inr (q.keeps c log h y) ];
}

pub sum-IsStable :
    {A : Type 0} (P : A → Log → Type 0)
    → ((a : A) → IsStable (P a))
    → IsStable (λ log. (a : A) × P a log)
sum-IsStable P stable = record {
  keeps = λ c log h ap_. (ap_.0, (stable ap_.0).keeps c log h ap_.1);
}

pub IsChecked-IsStable : (p : Text) → IsStable (IsChecked p)
IsChecked-IsStable p =
    either-IsStable (Has (e2fsck p)) (Has (btrfs_check p)) (Has-IsStable (e2fsck p))
      (Has-IsStable (btrfs_check p))

pub IsShrunk-IsStable : (p : Text) → IsStable (IsShrunk p)
IsShrunk-IsStable p =
    either-IsStable _ (HasBehind (mount p tmp_mountpoint) (btrfs_shrink tmp_mountpoint))
      (sum-IsStable (λ n. Has (resize2fs p (some n))) (λ n. Has-IsStable (resize2fs p (some n))))
      (record { keeps = λ e log h q. inr q })

pub IsBackedUp-IsStable : IsStable IsBackedUp
IsBackedUp-IsStable =
    sum-IsStable (λ path. Has (write_key path)) (λ path. Has-IsStable (write_key path))

-- What holds on and on, whatever is run.
pub record IsLasting (P : Log → Type 0) : Type 0 where
  pub lasts : (e : Event) (log : Log) → P log → P (e ∷ log)

pub lasting-IsStable : (P : Log → Type 0) → IsLasting P → IsStable P
lasting-IsStable P lasting = record { keeps = λ c log h p. lasting.lasts c log p }

pub both-IsLasting :
    (P Q : Log → Type 0) → IsLasting P → IsLasting Q → IsLasting (λ log. P log × Q log)
both-IsLasting P Q p q = record { lasts = λ c log h. (p.lasts c log h.0, q.lasts c log h.1) }

pub Has-IsLasting : (c : Command) → IsLasting (Has c)
Has-IsLasting c = record { lasts = λ d log h. inr h }

pub always-IsStable : IsStable (λ log. Unit {0})
always-IsStable = record { keeps = λ c log h p. tt }
