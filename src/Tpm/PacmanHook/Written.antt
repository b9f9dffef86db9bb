-- ===== src/Tpm/PacmanHook/Written.antt =====
-- The pacman hook that the setup writes is read back.
use os_lockdown.Base.{
  ◌≡◌, refl, sym, ap, ◌∙◌, true, false, some, List, [], ◌∷◌, ◌++◌, append_assoc, append-nil, subst,
  Text, codes, starts_with,
}
use os_lockdown.Tpm.Result.{ok}
use os_lockdown.Tpm.PacmanHook.{
  ends_here, search_value, contains, optional_value, get_non_root_partitions_from_hook, Script,
  option_words, script_cmd, pacman_hook,
}
use os_lockdown.Tpm.PacmanHook.Named.{
  no_dashes, IsValue, contains-plain, search_value-plain, take_value-IsValue,
}
use os_lockdown.Tpm.PacmanHook.Options.{
  behind, join_words, line, IsOption, ends-option, contains-option, search_value-option,
  optional_value-option, esp_hits, home_hits, var_hits,
}

abbrev head_text : Text
head_text = codes "[Trigger]\nOperation = Install\nOperation = Upgrade\nType = Package\n"

abbrev action_text : Text
action_text =
    codes
      "\n\n[Action]\nDescription = Update EFI bin and reseal encryption key\nWhen = PostTransaction\nExec = "

-- The words behind the path of the ESP, from each option on.
cert_words : Script → List Text
cert_words s = option_words (codes "--cert") s.secure_boot_cert_arg

key_words : Script → List Text
key_words s = option_words (codes "--key") s.secure_boot_key_arg ++ cert_words s

suffix_words : Script → List Text
suffix_words s = option_words (codes "--suffix") s.efi_bin_suffix ++ key_words s

var_words : Script → List Text
var_words s = option_words (codes "--var") s.var_partition ++ suffix_words s

home_words : Script → List Text
home_words s = option_words (codes "--home") s.home_partition ++ var_words s

-- What the setup has for the hook: words that the parser can tell apart.
pub record IsScript (targets bin_path : Text) (s : Script) : Type 0 where
  pub targets_plain : no_dashes targets ≡ true
  pub bin_path_plain : no_dashes bin_path ≡ true
  pub esp : IsValue s.esp_partition
  pub home : IsOption s.home_partition
  pub var : IsOption s.var_partition
  pub suffix : IsOption s.efi_bin_suffix
  pub key : IsOption s.secure_boot_key_arg
  pub cert : IsOption s.secure_boot_cert_arg

before_esp : Text → Text → Text → Text
before_esp targets bin_path t = head_text ++ (targets ++ (action_text ++ (bin_path ++ t)))

pacman_hook-shape :
    (shlex_join : List Text → Text) (targets bin_path : Text) (s : Script)
    → shlex_join (script_cmd bin_path s) ≡ join_words (script_cmd bin_path s)
    → pacman_hook shlex_join targets (script_cmd bin_path s)
      ≡ before_esp targets bin_path
          (codes " --setup_auto_tpm_decrypt --esp " ++ (s.esp_partition ++ line (home_words s)))
unfolding pacman_hook before_esp script_cmd join_words behind line home_words var_words suffix_words
    key_words cert_words
pacman_hook-shape shlex_join targets bin_path s unquoted =
    let rest =
      codes " --setup_auto_tpm_decrypt --esp " ++ (s.esp_partition ++ behind (home_words s)) in
    ap (λ t. head_text ++ (targets ++ (action_text ++ (t ++ codes "\n")))) unquoted
    ∙ ap (λ t. head_text ++ (targets ++ (action_text ++ t)))
        (append_assoc bin_path rest (codes "\n"))
    ∙ ap (λ t. before_esp targets bin_path (codes " --setup_auto_tpm_decrypt --esp " ++ t))
        (append_assoc s.esp_partition (behind (home_words s)) (codes "\n"))

module _ (n targets bin_path t : Text) (targets_plain : no_dashes targets ≡ true)
    (bin_path_plain : no_dashes bin_path ≡ true) where
  contains-before_esp :
      contains (45 ∷ 45 ∷ n) (before_esp targets bin_path t) ≡ contains (45 ∷ 45 ∷ n) t
  unfolding before_esp no_dashes
  contains-before_esp =
      contains-plain n head_text _ refl
      ∙ contains-plain n targets _ targets_plain
      ∙ contains-plain n action_text _ refl
      ∙ contains-plain n bin_path t bin_path_plain

  search_value-before_esp :
      search_value (45 ∷ 45 ∷ n) (before_esp targets bin_path t) ≡ search_value (45 ∷ 45 ∷ n) t
  unfolding before_esp no_dashes
  search_value-before_esp =
      search_value-plain n head_text _ refl
      ∙ search_value-plain n targets _ targets_plain
      ∙ search_value-plain n action_text _ refl
      ∙ search_value-plain n bin_path t bin_path_plain

module _ (targets bin_path : Text) (s : Script) (is : IsScript targets bin_path s) where
  text : Text
  text =
      before_esp targets bin_path
        (codes " --setup_auto_tpm_decrypt --esp " ++ (s.esp_partition ++ line (home_words s)))

  ends_suffix : ends_here (line (suffix_words s)) ≡ true
  unfolding suffix_words key_words cert_words line behind ends_here
  ends_suffix = ends-option (codes "suffix") s.efi_bin_suffix (key_words s) (
      ends-option (codes "key") s.secure_boot_key_arg (cert_words s) (
        subst (λ ws. ends_here (line ws) ≡ true) (append-nil (cert_words s))
          (ends-option (codes "cert") s.secure_boot_cert_arg [] refl)))

  no_var : contains (codes "--var") (line (suffix_words s)) ≡ false
  unfolding suffix_words key_words cert_words line behind contains starts_with
  no_var =
      contains-option (codes "var") (codes "--suffix") s.efi_bin_suffix (key_words s) (λ t. refl)
        is.suffix
      ∙ contains-option (codes "var") (codes "--key") s.secure_boot_key_arg (cert_words s)
          (λ t. refl) is.key
      ∙ ap (λ ws. contains (codes "--var") (line ws)) (sym (append-nil (cert_words s)))
      ∙ contains-option (codes "var") (codes "--cert") s.secure_boot_cert_arg [] (λ t. refl) is.cert

  no_home : contains (codes "--home") (line (var_words s)) ≡ false
  unfolding var_words suffix_words key_words cert_words line behind contains starts_with
  no_home =
      contains-option (codes "home") (codes "--var") s.var_partition (suffix_words s) (λ t. refl)
        is.var
      ∙ contains-option (codes "home") (codes "--suffix") s.efi_bin_suffix (key_words s) (λ t. refl)
          is.suffix
      ∙ contains-option (codes "home") (codes "--key") s.secure_boot_key_arg (cert_words s)
          (λ t. refl) is.key
      ∙ ap (λ ws. contains (codes "--home") (line ws)) (sym (append-nil (cert_words s)))
      ∙ contains-option (codes "home") (codes "--cert") s.secure_boot_cert_arg [] (λ t. refl)
          is.cert

  ends_var : ends_here (line (var_words s)) ≡ true
  unfolding var_words
  ends_var = ends-option (codes "var") s.var_partition (suffix_words s) ends_suffix

  ends_home : ends_here (line (home_words s)) ≡ true
  unfolding home_words
  ends_home = ends-option (codes "home") s.home_partition (var_words s) ends_var

  reads_esp : search_value (codes "--esp") text ≡ some s.esp_partition
  unfolding text
  reads_esp =
      search_value-before_esp (codes "esp") targets bin_path _ is.targets_plain is.bin_path_plain
      ∙ esp_hits _ s.esp_partition
          (take_value-IsValue s.esp_partition (line (home_words s)) is.esp ends_home)

  reads_home : optional_value (codes "--home") text ≡ ok s.home_partition
  unfolding text home_words contains search_value starts_with
  reads_home =
      optional_value-option (codes "--home") home_hits (λ t. refl) s.home_partition (var_words s)
        text
        (contains-before_esp (codes "home") targets bin_path _ is.targets_plain is.bin_path_plain
          ∙ contains-plain (codes "home") s.esp_partition _ is.esp.plain)
        (search_value-before_esp (codes "home") targets bin_path _ is.targets_plain
            is.bin_path_plain
          ∙ search_value-plain (codes "home") s.esp_partition _ is.esp.plain)
        is.home no_home ends_var

  reads_var : optional_value (codes "--var") text ≡ ok s.var_partition
  unfolding text home_words var_words contains search_value starts_with
  reads_var =
      optional_value-option (codes "--var") var_hits (λ t. refl) s.var_partition (suffix_words s)
        text
        (contains-before_esp (codes "var") targets bin_path _ is.targets_plain is.bin_path_plain
          ∙ contains-plain (codes "var") s.esp_partition _ is.esp.plain
          ∙ contains-option (codes "var") (codes "--home") s.home_partition (var_words s)
              (λ t. refl) is.home)
        (search_value-before_esp (codes "var") targets bin_path _ is.targets_plain is.bin_path_plain
          ∙ search_value-plain (codes "var") s.esp_partition _ is.esp.plain
          ∙ search_value-option (codes "var") (codes "--home") s.home_partition (var_words s)
              (λ t. refl) is.home)
        is.var no_var ends_suffix

-- Where shlex.join leaves the words as they are, neither the targets, the path of the script nor the
-- value of an option has two dashes side by side or one at the end, and each value that is given is
-- not empty and has no space: of the pacman hook that the setup writes,
-- get_non_root_partitions_from_hook gives the partitions that the setup wrote into it.
pub get_non_root_partitions_from_hook-pacman_hook :
    (shlex_join : List Text → Text) (targets bin_path : Text) (s : Script)
    → shlex_join (script_cmd bin_path s) ≡ join_words (script_cmd bin_path s)
    → IsScript targets bin_path s
    → get_non_root_partitions_from_hook
        (some (pacman_hook shlex_join targets (script_cmd bin_path s)))
      ≡ ok (record { esp = s.esp_partition; home = s.home_partition; var = s.var_partition })
unfolding get_non_root_partitions_from_hook text
get_non_root_partitions_from_hook-pacman_hook shlex_join targets bin_path s unquoted is =
    ap (λ t. get_non_root_partitions_from_hook (some t))
      (pacman_hook-shape shlex_join targets bin_path s unquoted)
    ∙ rw
        (
          reads_esp targets bin_path s is,
          reads_home targets bin_path s is,
          reads_var targets bin_path s is,
        )
        refl
