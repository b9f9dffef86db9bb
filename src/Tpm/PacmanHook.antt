-- ===== src/Tpm/PacmanHook.antt =====
-- The pacman hook that `setup_auto_tpm_decrypt` writes, and the partitions that it names:
-- `get_non_root_partitions_from_hook`.
pub mod Options
pub mod Named
pub mod Written
use os_lockdown.Base.{
  Bool, true, ◌==◌, Option, none, some, option_map, List, [], ◌∷◌, ◌++◌, Text, codes, starts_with,
  drop, length, if◌then◌else◌,
}
use os_lockdown.Base.Lines.{is_space}
use os_lockdown.Tpm.Result.{Result, ok, err, die, or_raise, ◌>>=◌}

pub record NonRoot : Type 0 where
  pub esp : Text
  pub home : Option Text
  pub var : Option Text

-- `\s*(--|\n|$)` matches here.
unfoldable pub ends_here : Text → Bool
ends_here [] = true
ends_here (c ∷ t) =
    let rest = ends_here t in
    if c == 10 then true else if is_space c then rest else starts_with (c ∷ t) (codes "--")

-- `(.+?)\s*(--|\n|$)` at the start: what the group matches.
unfoldable pub take_value : Text → Option Text
take_value [] = none
take_value (c ∷ t) =
    let rest = take_value t in
    if c == 10 then none else if ends_here t then some (c ∷ []) else option_map (λ v. c ∷ v) rest

abbrev pub behind_space : Text → Option Text
behind_space [] = none
behind_space (c ∷ t) = if is_space c then take_value t else none

abbrev pub value_at : Text → Text → Option Text
value_at name t = if starts_with t name then behind_space (drop (length name) t) else none

abbrev pub or_else : Option Text → Option Text → Option Text
or_else none other = other
or_else (some v) other = some v

-- `re.search(name + r'\s(.+?)\s*(--|\n|$)', text)`, its first group.
unfoldable pub search_value : Text → Text → Option Text
search_value name [] = value_at name []
search_value name (c ∷ t) = or_else (value_at name (c ∷ t)) (search_value name t)

-- `name in text`
unfoldable pub contains : Text → Text → Bool
contains name [] = starts_with [] name
contains name (c ∷ t) =
    let rest = contains name t in if starts_with (c ∷ t) name then true else rest

unfoldable pub optional_value : Text → Text → Result (Option Text)
optional_value name text =
    if contains name text
    then (or_raise die (search_value name text) >>= λ v. ok (some v))
    else ok none

unfoldable pub get_non_root_partitions_from_hook : Option Text → Result NonRoot
get_non_root_partitions_from_hook none = err die
get_non_root_partitions_from_hook (some text) = do
  esp ← or_raise die (search_value (codes "--esp") text)
  home ← optional_value (codes "--home") text
  var ← optional_value (codes "--var") text
  ok (record { esp = esp; home = home; var = var })

-- What is behind the first two words of `script_cmd`; a text that is left blank is none.
pub record Script : Type 0 where
  pub esp_partition : Text
  pub home_partition : Option Text
  pub var_partition : Option Text
  pub efi_bin_suffix : Option Text
  pub secure_boot_key_arg : Option Text
  pub secure_boot_cert_arg : Option Text

abbrev pub option_words : Text → Option Text → List Text
option_words name none = []
option_words name (some v) = name ∷ v ∷ []

unfoldable pub script_cmd : Text → Script → List Text
script_cmd bin_path s =
    bin_path
    ∷ codes "--setup_auto_tpm_decrypt"
    ∷ codes "--esp"
    ∷ s.esp_partition
    ∷ (option_words (codes "--home") s.home_partition
        ++ (option_words (codes "--var") s.var_partition
            ++ (option_words (codes "--suffix") s.efi_bin_suffix
                ++ (option_words (codes "--key") s.secure_boot_key_arg
                    ++ option_words (codes "--cert") s.secure_boot_cert_arg))))

-- `PACMAN_HOOK_TEMPLATE` with its two names replaced; `shlex_join` is the library's.
unfoldable pub pacman_hook : (List Text → Text) → Text → List Text → Text
pacman_hook shlex_join targets cmd =
    codes "[Trigger]\nOperation = Install\nOperation = Upgrade\nType = Package\n"
    ++ (targets
        ++ (codes
              "\n\n[Action]\nDescription = Update EFI bin and reseal encryption key\nWhen = PostTransaction\nExec = "
            ++ (shlex_join cmd ++ codes "\n")))
