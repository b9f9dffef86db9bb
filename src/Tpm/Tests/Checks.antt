-- ===== src/Tpm/Tests/Checks.antt =====
-- The checks of the power, of the blank passwords and of what the user enters, on small inputs.
use os_lockdown.Base.{
  ℕ, zero, suc, ◌-◌, ◌<◌, ◌≡◌, refl, Bool, true, false, ◌&&◌, ◌||◌, Option, none, some, List, [],
  ◌∷◌, ◌++◌, arith, Text, codes, any, if◌then◌else◌, text_eq,
}
use os_lockdown.Tpm.Result.{ok, err, die}
use os_lockdown.Tpm.Files.{File, Codec, ensure_file_has_desired_contents}
use os_lockdown.Tpm.Files.Desired.{ensure_file_has_desired_contents_lem}
use os_lockdown.Tpm.Power.{Supply, die_if_not_on_ac_power}
use os_lockdown.Tpm.Power.Laws.{is_mains, is_online, die_if_not_on_ac_power_lem}
use os_lockdown.Tpm.Seal.{
  Cryptsetup, remove_blank_password, has_blank_password, ensure_booted_os_is_sealed,
  ensure_no_os_are_unsealed, Listed, Opening, Killer,
}
use os_lockdown.Tpm.PacmanHook.{
  NonRoot, get_non_root_partitions_from_hook, search_value, take_value, ends_here, optional_value,
  contains,
}
use os_lockdown.Base.Lines.{is_space}
use os_lockdown.Base.{starts_with}
use os_lockdown.Tpm.Seal.Removal.{IsCryptsetup, remove_blank_password_lem}
use os_lockdown.Tpm.Seal.Outcome.{outcome}
use os_lockdown.Tpm.Seal.Checks.{
  booted, luks_partitions, ensure_booted_os_is_sealed_lem, ensure_no_os_are_unsealed_lem,
}
use os_lockdown.Tpm.Validate.{
  Machine, encrypt_or_decrypt, is_left_blank, check_partition, check_found, find_partition,
  is_on_nvme_or_card, is_mounted_at, check_fstype, fstype_of, check_with_root, check_esp,
  choose_job,
}
use os_lockdown.Tpm.Validate.Safe.{job_on, IsSafe, encrypt_or_decrypt-IsSafe}

abbrev supplies : List Supply
supplies =
    record { kind = some (codes "Battery\n"); online = none }
    ∷ record { kind = some (codes "Mains\n"); online = some (codes "1\n") }
    ∷ []

die_if_not_on_ac_power_lem_example : die_if_not_on_ac_power false false supplies ≡ (
    if (any is_mains supplies || false) && (any is_online supplies || false)
    then ok tt
    else err die)
die_if_not_on_ac_power_lem_example = die_if_not_on_ac_power_lem false false supplies

-- IGNORE_MISSING_AC_STATE by itself does not let a machine without a mains supply go on.
missing_state_still_dies : die_if_not_on_ac_power true false [] ≡ err die
missing_state_still_dies = die_if_not_on_ac_power_lem true false []

-- A cryptsetup whose state is the number of slots that the blank password opens.
abbrev code_of : ℕ → ℕ
code_of zero = 2
code_of (suc n) = 0

abbrev counted : Cryptsetup ℕ
counted = record { remove_key = λ n. (code_of n, n - 1); open_volume = code_of }

abbrev identity : ℕ → ℕ
identity n = n

code_of_pos : (n : ℕ) → 0 < n → code_of n ≡ 0
code_of_pos zero h = absurd (omega arith)
code_of_pos (suc n) h = refl

code_of_zero : (n : ℕ) → n ≡ 0 → code_of n ≡ 2
code_of_zero zero h = refl
code_of_zero (suc n) h = absurd (omega (arith, h))

counted-IsCryptsetup : IsCryptsetup counted identity
counted-IsCryptsetup = record {
  removes_code = code_of_pos;
  removes_slot = λ n h. omega arith;
  finds_none_code = code_of_zero;
  finds_none_slot = λ n h. omega arith;
  opens = code_of_pos;
  stays_shut = code_of_zero;
}

remove_blank_password_lem_example :
    (s : ℕ) × (remove_blank_password counted 3 2 ≡ ok s)
    × (s ≡ 0)
    × ((n : ℕ) → has_blank_password (record { open_code = code_of s; close_code = n }) ≡ ok false)
remove_blank_password_lem_example =
    remove_blank_password_lem counted identity counted-IsCryptsetup 3 2 (omega arith)

abbrev killer : Killer
killer = record { should_kill_windows_boot_manager = true; has_efibootmgr = true }

-- The home partition has a blank password.
abbrev openings : Text → Opening
openings path = record {
  open_code = if text_eq path (codes "/dev/sda3") then 0 else 2;
  close_code = 0;
}

abbrev hook : Text
hook = codes "Exec = auto --esp /dev/sda1 --home /dev/sda3\n"

abbrev parts : NonRoot
parts = record { esp = codes "/dev/sda1"; home = some (codes "/dev/sda3"); var = none }

hook_names : get_non_root_partitions_from_hook (some hook) ≡ ok parts
unfolding get_non_root_partitions_from_hook search_value take_value ends_here optional_value
    contains starts_with is_space
hook_names = refl

ensure_booted_os_is_sealed_lem_example :
    ensure_booted_os_is_sealed killer openings
      (some (codes "/dev/sda2"))
      (some hook)
      (none ∷ some (some (codes "0x81000000")) ∷ [])
    ≡ outcome killer (booted openings (codes "/dev/sda2") parts)
ensure_booted_os_is_sealed_lem_example =
    ensure_booted_os_is_sealed_lem killer openings (codes "/dev/sda2") hook (codes "0x81000000")
      parts (none ∷ some (some (codes "0x81000000")) ∷ []) hook_names refl

abbrev listed : List Listed
listed =
    record {
      path = codes "/dev/sda1";
      fstype = some (codes "vfat");
      opening = record { open_code = 1; close_code = 0 };
    }
    ∷ record {
      path = codes "/dev/sda2";
      fstype = some (codes "crypto_LUKS");
      opening = record { open_code = 0; close_code = 0 };
    }
    ∷ []

ensure_no_os_are_unsealed_lem_example :
    ensure_no_os_are_unsealed killer listed (none ∷ none ∷ [])
    ≡ outcome killer (luks_partitions listed)
ensure_no_os_are_unsealed_lem_example =
    ensure_no_os_are_unsealed_lem killer listed (none ∷ none ∷ []) tt

abbrev machine : Machine
machine = record {
  partitions =
      record { path = codes "/dev/nvme0n1p4"; fstype = some (codes "btrfs") }
      ∷ record { path = codes "/dev/nvme0n1p8"; fstype = some (codes "ext4") }
      ∷ [];
  esp_partitions = codes "/dev/nvme0n1p1" ∷ [];
  on_steamdeck = true;
  root_mount = some (codes "/dev/sda2");
  home_mount = none;
  var_mount = none;
  link_target = λ path. none;
}

abbrev root : Text
root = codes "/dev/nvme0n1p4"

abbrev home : Text
home = codes "/dev/nvme0n1p8"

abbrev esp : Text
esp = codes "/dev/nvme0n1p1"

starts_encryption : encrypt_or_decrypt machine root home [] esp ≡ ok (job_on true root home [] esp)
unfolding encrypt_or_decrypt text_eq is_left_blank check_partition check_found find_partition
    is_on_nvme_or_card is_mounted_at check_fstype fstype_of check_with_root check_esp choose_job
starts_encryption = refl

encrypt_or_decrypt-IsSafe_example :
    (b : Bool) × (job_on true root home [] esp ≡ job_on b root home [] esp)
    × IsSafe machine b root home [] esp
encrypt_or_decrypt-IsSafe_example =
    encrypt_or_decrypt-IsSafe machine root home [] esp (job_on true root home [] esp)
      starts_encryption

-- A codec for ASCII texts.
abbrev ascii : Codec
ascii = record { encode = λ t. t; decode = λ bytes. bytes }

abbrev old_file : Option File
old_file = some (record { contents = codes "old contents"; mode = none })

ensure_file_has_desired_contents_lem_example :
    (ensure_file_has_desired_contents ascii (codes "new") (some 493) old_file).contents
    ≡ codes "new"
ensure_file_has_desired_contents_lem_example =
    ensure_file_has_desired_contents_lem ascii (codes "new") (some 493) old_file
      (record { same_length = refl; round_trip = refl }) refl

-- The codec of a text whose old characters take two bytes each: one of the four old bytes stays.
old_byte_stays :
    (ensure_file_has_desired_contents
      (record ascii { decode = λ bytes. 233 ∷ 233 ∷ [] })
      (codes "new")
      none
      (some (record { contents = 195 ∷ 169 ∷ 195 ∷ 169 ∷ []; mode = none }))).contents
    ≡ codes "new" ++ (169 ∷ [])
unfolding ensure_file_has_desired_contents
old_byte_stays = refl
