-- ===== src/Tpm/Validate.antt =====
-- `encrypt_or_decrypt`: what the user may enter, and which of `encrypt` and `decrypt` it starts.
pub mod Usable
pub mod Paths
pub mod Safe
use os_lockdown.Base.{
  ℕ, zero, suc, Bool, true, false, ◌&&◌, ◌||◌, not, Option, none, some, List, [], ◌∷◌, ◌++◌,
  if◌then◌else◌, Text, codes, text_eq, starts_with, drop, length, ltb, leb, ◌==◌, map,
}
use os_lockdown.Base.Sort.{is_in}
use os_lockdown.Tpm.Result.{
  Result, ok, err, die, key_error, type_error, os_error, die_if, or_raise, ◌>>=◌, ◌>>◌,
}

-- A value of `get_partitions()` under its key. lsblk gives no `fstype` for a partition without a file
-- system.
pub record Partition : Type 0 where
  pub path : Text
  pub fstype : Option Text

-- What the program looks up on the machine: `get_partitions()`, `get_esp_partitions()`, the
-- partitions that /proc/mounts has for the three mount points, and where a symbolic link leads, none
-- where `os.readlink` raises.
pub record Machine : Type 0 where
  pub partitions : List Partition
  pub esp_partitions : List Text
  pub on_steamdeck : Bool
  pub root_mount : Option Text
  pub home_mount : Option Text
  pub var_mount : Option Text
  pub link_target : Text → Option Text

-- The partitions that a job works on; a home or var partition that is left blank is empty.
pub record Job : Type 0 where
  pub encrypts : Bool
  pub root_partition : Text
  pub home_partition : Text
  pub var_partition : Text
  pub esp_partition : Text

unfoldable pub find_partition : Text → List Partition → Option Partition
unfolding text_eq
find_partition path [] = none
find_partition path (p ∷ ps) =
    let rest = find_partition path ps in if text_eq p.path path then some p else rest

-- `not text`
unfoldable pub is_left_blank : Text → Bool
is_left_blank [] = true
is_left_blank (c ∷ t) = false

unfoldable pub is_digit : ℕ → Bool
is_digit c = leb 48 c && leb c 57

unfoldable pub skip_digits : Text → Text
unfolding is_digit
skip_digits [] = []
skip_digits (c ∷ t) = let rest = skip_digits t in if is_digit c then rest else c ∷ t

-- `\d+` at the start of a text: what is behind it, where it matches.
unfoldable pub match_digits : Text → Option Text
unfolding skip_digits is_digit
match_digits [] = none
match_digits (c ∷ t) = if is_digit c then some (skip_digits t) else none

unfoldable pub match_word : Text → Option Text → Option Text
unfolding starts_with
match_word w none = none
match_word w (some t) = if starts_with t w then some (drop (length w) t) else none

unfoldable pub match_number : Option Text → Option Text
unfolding match_digits
match_number none = none
match_number (some t) = match_digits t

abbrev pub is_some {ℓ} : {A : Type ℓ} → Option A → Bool
is_some none = false
is_some (some a) = true

-- `re.match(r'^/dev/(nvme\d+n\d+p\d+|mmcblk\d+p\d+)', path)`
unfoldable pub is_on_nvme_or_card : Text → Bool
unfolding match_word match_number
is_on_nvme_or_card path =
    let nvme = match_number (match_word (codes "/dev/nvme") (some path)) in
    let card = match_number (match_word (codes "/dev/mmcblk") (some path)) in
    is_some (match_number (match_word (codes "p") (match_number (match_word (codes "n") nvme))))
    || is_some (match_number (match_word (codes "p") card))

-- `path == get_partition_for_mountpoint(...)`
unfoldable pub is_mounted_at : Text → Option Text → Bool
unfolding text_eq
is_mounted_at path none = false
is_mounted_at path (some p) = text_eq path p

-- `fstype in SUPPORTED_ENCRYPTED_FILESYSTEMS`
unfoldable pub is_encrypted : Option Text → Bool
unfolding text_eq
is_encrypted none = false
is_encrypted (some t) = text_eq t (codes "crypto_LUKS")

-- `fstype in SUPPORTED_UNENCRYPTED_FILESYSTEMS`
unfoldable pub is_unencrypted : Option Text → Bool
unfolding is_in
is_unencrypted none = false
is_unencrypted (some t) = is_in t (codes "ext2" ∷ codes "ext3" ∷ codes "ext4" ∷ codes "btrfs" ∷ [])

-- The file system is supported; where it is not and there is none, the message cannot be made.
unfoldable pub check_fstype : Option Text → Result (Unit {0})
unfolding is_encrypted is_unencrypted
check_fstype none = err type_error
check_fstype (some t) = die_if (not (is_unencrypted (some t) || is_encrypted (some t)))

unfoldable pub check_found : Machine → Text → Option Partition → Result (Unit {0})
check_found m path none = err die
check_found m path (some p) = do
  die_if (m.on_steamdeck && not (is_on_nvme_or_card path))
  die_if (is_mounted_at path m.root_mount)
  die_if (is_mounted_at path m.home_mount)
  die_if (is_mounted_at path m.var_mount)
  check_fstype p.fstype

-- One round of the loop over the three partitions.
unfoldable pub check_partition : Machine → Text → Result (Unit {0})
unfolding is_left_blank
check_partition m path =
    if is_left_blank path then ok tt else check_found m path (find_partition path m.partitions)

-- `get_partitions()[path]['fstype']`
unfoldable pub fstype_of : Machine → Text → Result (Option Text)
fstype_of m path = do p ← or_raise key_error (find_partition path m.partitions); ok p.fstype

-- The two checks of a further partition against root.
unfoldable pub check_with_root : Machine → Option Text → Text → Result (Unit {0})
unfolding is_left_blank fstype_of
check_with_root m root path = if is_left_blank path then ok tt else do
  fstype ← fstype_of m path
  die_if (is_encrypted root && not (is_encrypted fstype))
  die_if (is_unencrypted root && not (is_unencrypted fstype))

unfoldable pub check_esp : Machine → Text → Result (Unit {0})
check_esp m esp = if is_in esp m.esp_partitions then ok tt else do
  target ← or_raise os_error (m.link_target esp)
  die_if (not (is_in target m.esp_partitions))

unfoldable pub choose_job : Option Text → Text → Text → Text → Text → Result Job
choose_job fstype root home var esp =
    if is_encrypted fstype
    then ok (record {
      encrypts = false;
      root_partition = root;
      home_partition = home;
      var_partition = var;
      esp_partition = esp;
    })
    else if is_unencrypted fstype
    then ok (record {
      encrypts = true;
      root_partition = root;
      home_partition = home;
      var_partition = var;
      esp_partition = esp;
    })
    else err die

-- What is behind the check of the AC power; the four texts are what the user enters.
unfoldable pub encrypt_or_decrypt : Machine → Text → Text → Text → Text → Result Job
encrypt_or_decrypt m root home var esp = do
  die_if (is_left_blank root)
  die_if (text_eq home root)
  die_if (text_eq var root)
  check_partition m root
  check_partition m home
  check_partition m var
  fstype ← fstype_of m root
  check_with_root m fstype home
  check_with_root m fstype var
  check_esp m esp
  choose_job fstype root home var esp
