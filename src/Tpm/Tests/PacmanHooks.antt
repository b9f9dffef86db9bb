-- ===== src/Tpm/Tests/PacmanHooks.antt =====
-- The pacman hook of an OS with a home partition.
use os_lockdown.Base.{◌≡◌, refl, none, some, Text, codes}
use os_lockdown.Base.Lines.{is_space}
use os_lockdown.Tpm.Result.{ok}
use os_lockdown.Tpm.PacmanHook.{Script, script_cmd, pacman_hook, get_non_root_partitions_from_hook}
use os_lockdown.Tpm.PacmanHook.Named.{no_dashes, is_word, IsValue}
use os_lockdown.Tpm.PacmanHook.Options.{join_words}
use os_lockdown.Tpm.PacmanHook.Written.{IsScript, get_non_root_partitions_from_hook-pacman_hook}

abbrev script : Script
script = record {
  esp_partition = codes "/dev/nvme0n1p1";
  home_partition = some (codes "/dev/nvme0n1p8");
  var_partition = none;
  efi_bin_suffix = none;
  secure_boot_key_arg = none;
  secure_boot_cert_arg = none;
}

abbrev targets : Text
targets = codes "Target = linux-neptune\nTarget = systemd"

abbrev bin_path : Text
bin_path = codes "/usr/bin/auto_tpm_encrypt"

esp-IsValue : IsValue (codes "/dev/nvme0n1p1")
unfolding no_dashes is_word is_space
esp-IsValue = record {
  first = 47;
  others = codes "dev/nvme0n1p1";
  shape = refl;
  plain = refl;
  word = refl;
}

home-IsValue : IsValue (codes "/dev/nvme0n1p8")
unfolding no_dashes is_word is_space
home-IsValue = record {
  first = 47;
  others = codes "dev/nvme0n1p8";
  shape = refl;
  plain = refl;
  word = refl;
}

script-IsScript : IsScript targets bin_path script
unfolding no_dashes
script-IsScript = record {
  targets_plain = refl;
  bin_path_plain = refl;
  esp = esp-IsValue;
  home = home-IsValue;
  var = tt;
  suffix = tt;
  key = tt;
  cert = tt;
}

get_non_root_partitions_from_hook-pacman_hook_example :
    get_non_root_partitions_from_hook
      (some (pacman_hook join_words targets (script_cmd bin_path script)))
    ≡ ok (record { esp = codes "/dev/nvme0n1p1"; home = some (codes "/dev/nvme0n1p8"); var = none })
get_non_root_partitions_from_hook-pacman_hook_example =
    get_non_root_partitions_from_hook-pacman_hook join_words targets bin_path script refl
      script-IsScript
