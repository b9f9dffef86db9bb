-- ===== src/Tpm/Tests/Disks.antt =====
-- A Steam Deck whose programs all succeed, with a root partition alone and no blank password.
use os_lockdown.Base.{ℕ, true, false, none, some, [], ◌∷◌, Text, codes}
use os_lockdown.Tpm.Effects.{World, Command, remove_key}
use os_lockdown.Tpm.Effects.Order.{Ends}
use os_lockdown.Tpm.Encrypt.{Finds, Settings, Partitions}
use os_lockdown.Tpm.Decrypt.{Sees, Choices, decrypt}
use os_lockdown.Tpm.Decrypt.Order.{IsUnlocked, decrypt-IsOrdered}

abbrev root : Text
root = codes "/dev/nvme0n1p4"

-- `cryptsetup luksRemoveKey` exits with 2 where no slot has the blank password.
answer : Command → ℕ
answer (remove_key p) = 2
answer c = 0

abbrev world : World
world = record {
  status = λ log c. answer c;
  supplies = λ log. [];
  ignore_missing_ac_state = true;
  ignore_if_on_battery = true;
  partitions = λ log. record { path = root; fstype = some (codes "ext4") } ∷ [];
}

abbrev finds : Finds
finds = record {
  hooks = λ log. none ∷ none ∷ [];
  free_slots = λ log. some 3;
  has_swapfile = λ log. false;
  block_count = λ log p. some 26214400;
  block_size = λ log p. some 4096;
  is_taken = λ log name. false;
  has_key = λ log. false;
  draws = λ log. codes "0badcafe" ∷ [];
  second_stage_esps = λ log. [];
}

abbrev settings : Settings
settings = record {
  use_esp_manifest = true;
  use_second_stage_manifest = true;
  should_kill_windows_boot_manager = true;
  has_efibootmgr = true;
  suffix = none;
  key = none;
  cert = none;
}

abbrev partitions : Partitions
partitions = record { root = root; home = []; var = []; esp = codes "/dev/nvme0n1p1" }

abbrev choices : Choices
choices = record {
  skip_controller_firmware_audit = false;
  use_esp_manifest = true;
  use_second_stage_manifest = true;
  do_mask_steamcl_service = true;
  wait_iterations = 36;
  hook_related_paths = codes "/etc/auto_tpm_unseal" ∷ [];
  steamcl_service_mask_path = codes "/etc/systemd/system/steamos-install-steamcl.service";
}

abbrev sees : Sees
sees = record {
  has_key_file = true;
  has_firmware_audit = false;
  is_steamos = λ log. true;
  keyslots = λ log p. codes "0" ∷ [];
}

decrypt-IsOrdered_example :
    Ends (λ u. IsUnlocked partitions) (decrypt world finds sees choices 1 partitions [])
decrypt-IsOrdered_example = decrypt-IsOrdered world finds sees choices 1 partitions
