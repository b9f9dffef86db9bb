-- ===== src/Tpm/Validate/Usable.antt =====
-- The partitions that `encrypt_or_decrypt` lets through its loop.
use os_lockdown.Base.{
  ◌≡◌, ◌≢◌, refl, sym, ap, ◌∙◌, Bool, true, false, ◌&&◌, not, Option, none, some, arith, Text,
  codes, List, [], ◌∷◌, none-ne-some, some-injective, ◌⊎◌, text_eq, text_eq_iff, if◌then◌else◌,
  Option-cases, Bool-cases, inl, inr,
}
use os_lockdown.Tpm.Result.{ok, err, die, raise_if-ok}
use os_lockdown.Base.Sort.{is_in}
use os_lockdown.Tpm.Validate.Paths.{IsNvme, IsCard, is_on_nvme_or_card-shape}
use os_lockdown.Tpm.Validate.{
  Partition, Machine, find_partition, is_left_blank, is_on_nvme_or_card, is_mounted_at,
  is_encrypted, is_unencrypted, check_found, check_partition, fstype_of,
}

-- A file system that can be encrypted, or LUKS.
abbrev pub IsSuited : Bool → Option Text → Type 0
IsSuited true fstype =
    (t : Text) × (fstype ≡ some t)
    × (is_in t (codes "ext2" ∷ codes "ext3" ∷ codes "ext4" ∷ codes "btrfs" ∷ []) ≡ true)
IsSuited false fstype = fstype ≡ some (codes "crypto_LUKS")

-- A partition that may be worked on: it is there, on a Steam Deck it is on the NVMe drive or a card,
-- it is not mounted as root, home or var, and its file system is one that can be encrypted, or LUKS
-- for a decryption.
pub record IsUsable (m : Machine) (encrypts : Bool) (path : Text) : Type 0 where
  pub partition : Partition
  pub listed : find_partition path m.partitions ≡ some partition
  pub named : partition.path ≡ path
  pub internal : m.on_steamdeck ≡ true → IsNvme path ⊎ IsCard path
  pub not_root : m.root_mount ≢ some path
  pub not_home : m.home_mount ≢ some path
  pub not_var : m.var_mount ≢ some path
  pub suits : IsSuited encrypts partition.fstype

-- What `check_found` leaves of a partition.
pub found_ok :
    (m : Machine) (path : Text) (p : Partition)
    → check_found m path (some p) ≡ ok tt
    → (m.on_steamdeck && not (is_on_nvme_or_card path) ≡ false)
      × (is_mounted_at path m.root_mount ≡ false)
      × (is_mounted_at path m.home_mount ≡ false)
      × (is_mounted_at path m.var_mount ≡ false)
unfolding check_found
found_ok m path p h =
    let (a, h) = raise_if-ok _ _ _ _ h in
    let (b, h) = raise_if-ok _ _ _ _ h in
    let (c, h) = raise_if-ok _ _ _ _ h in let (d, h) = raise_if-ok _ _ _ _ h in (a, b, c, d)

pub check_partition-given :
    (m : Machine) (path : Text)
    → is_left_blank path ≡ false
    → check_partition m path ≡ check_found m path (find_partition path m.partitions)
unfolding check_partition
check_partition-given m path given = rw given refl

pub check_found-none : (m : Machine) (path : Text) → check_found m path none ≡ err die
unfolding check_found
check_found-none m path = refl

-- The loop's checks of a partition that was given.
pub checked :
    (m : Machine) (path : Text)
    → is_left_blank path ≡ false
    → check_partition m path ≡ ok tt
    → (p : Partition) × (find_partition path m.partitions ≡ some p)
      × (check_found m path (some p) ≡ ok tt)
checked m path given h =
    let opened = sym (check_partition-given m path given) ∙ h in
    elim (Option-cases (find_partition path m.partitions)) [
      | inl missing ↦
          let dies =
            sym (check_found-none m path) ∙ ap (check_found m path) (sym missing) ∙ opened in
          absurd (ground (arith, dies))
      | inr (p, found) ↦ (p, found, ap (check_found m path) (sym found) ∙ opened)
    ]

-- The file system suits the job.
abbrev pub fits : Bool → Option Text → Bool
fits encrypts fstype = if encrypts then is_unencrypted fstype else is_encrypted fstype

pub fits-IsSuited : (b : Bool) (o : Option Text) → fits b o ≡ true → IsSuited b o
unfolding is_unencrypted is_encrypted
fits-IsSuited true none h = absurd (ground (arith, h))
fits-IsSuited true (some t) h = (t, refl, h)
fits-IsSuited false none h = absurd (ground (arith, h))
fits-IsSuited false (some t) h = ap some ((text_eq_iff t (codes "crypto_LUKS")).0 h)

pub not_mounted : (path : Text) (o : Option Text) → is_mounted_at path o ≡ false → o ≢ some path
unfolding is_mounted_at
not_mounted path none h e = none-ne-some _ e
not_mounted path (some p) h e =
    let same = (text_eq_iff path p).1 (sym (some-injective _ _ e)) in ground (arith, h, same)

pub found_path :
    (path : Text) (ps : List Partition) (p : Partition)
    → find_partition path ps ≡ some p
    → p.path ≡ path
unfolding find_partition
found_path path [] p h = absurd (none-ne-some _ h)
found_path path (q ∷ qs) p h =
    let test : Bool → Option Partition = λ b. if b then some q else find_partition path qs in
    elim (Bool-cases (text_eq q.path path)) [
      | inl same ↦
          sym (ap (λ x. x.path) (some-injective _ _ (sym (ap test same) ∙ h)))
          ∙ (text_eq_iff q.path path).0 same
      | inr other ↦ found_path path qs p (sym (ap test other) ∙ h)
    ]

pub internal_path :
    (deck : Bool) (path : Text)
    → deck && not (is_on_nvme_or_card path) ≡ false
    → deck ≡ true
    → IsNvme path ⊎ IsCard path
internal_path deck path h on = is_on_nvme_or_card-shape path (ground (arith, h, on))

pub usable :
    (m : Machine) (encrypts : Bool) (path : Text) (p : Partition)
    → find_partition path m.partitions ≡ some p
    → check_found m path (some p) ≡ ok tt
    → fits encrypts p.fstype ≡ true
    → IsUsable m encrypts path
usable m encrypts path p found h fit =
    let (a, b, c, d) = found_ok m path p h in
    record {
      partition = p;
      listed = found;
      named = found_path path m.partitions p found;
      internal = internal_path m.on_steamdeck path a;
      not_root = not_mounted path m.root_mount b;
      not_home = not_mounted path m.home_mount c;
      not_var = not_mounted path m.var_mount d;
      suits = fits-IsSuited encrypts p.fstype fit;
    }

pub fstype_of-some :
    (m : Machine) (path : Text) (p : Partition)
    → find_partition path m.partitions ≡ some p
    → fstype_of m path ≡ ok p.fstype
unfolding fstype_of
fstype_of-some m path p found = rw found refl
