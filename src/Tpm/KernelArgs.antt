-- ===== src/Tpm/KernelArgs.antt =====
-- The kernel command line of the EFI binary: `kernel_arg_index`, `remove_kernel_arg`, and what
-- `setup_auto_tpm_decrypt` takes from and adds to the words that `shlex.split` gives.
pub mod Remove
pub mod Build
use os_lockdown.Base.{
  ℕ, suc, zero, Bool, true, false, ◌&&◌, ◌||◌, not, Option, none, some, option_map, List, [], ◌∷◌,
  ◌++◌, if◌then◌else◌, Text, codes, text_eq, starts_with, take, drop, length,
}
use os_lockdown.Tpm.Result.{Result, ok, err, out_of_fuel, name_error, or_raise, ◌>>=◌}

-- The index of the first word that passes the test.
unfoldable pub find_index : (Text → Bool) → List Text → Option ℕ
find_index p [] = none
find_index p (x ∷ xs) = let rest = option_map suc (find_index p xs) in if p x then some 0 else rest

unfoldable pub or_else {ℓ} : {A : Type ℓ} → Option A → Option A → Option A
or_else none o = o
or_else (some a) o = some a

-- `a.startswith(arg+'=')`
unfoldable pub assigns : Text → Text → Bool
unfolding starts_with
assigns arg a = starts_with a (arg ++ codes "=")

-- None stands for the ValueError.
unfoldable pub kernel_arg_index : List Text → Text → Option ℕ
unfolding or_else find_index text_eq assigns
kernel_arg_index args arg =
    or_else (find_index (λ a. text_eq a arg) args) (find_index (assigns arg) args)

-- `del args[i]`
unfoldable pub delete : List Text → ℕ → List Text
delete args i = take i args ++ drop (suc i) args

-- One turn of the loop: the ValueError ends it.
unfoldable pub remove_turn :
    Option ℕ → List Text → (List Text → Option (List Text)) → Option (List Text)
unfolding delete
remove_turn none args again = some args
remove_turn (some i) args again = again (delete args i)

-- The loop of `remove_kernel_arg` on fuel: none when the fuel runs out.
unfoldable pub remove_kernel_arg : ℕ → List Text → Text → Option (List Text)
unfolding kernel_arg_index remove_turn
remove_kernel_arg zero args arg = none
remove_kernel_arg (suc fuel) args arg =
    remove_turn (kernel_arg_index args arg) args (λ rest. remove_kernel_arg fuel rest arg)

-- The settings, the machine and the partitions that the command line depends on; `timeout` is
-- `str(RD_LUKS_TIMEOUT)`.
pub record KernelSetup : Type 0 where
  pub on_steamdeck : Bool
  pub on_steamos : Bool
  pub show_kernel_messages : Bool
  pub enable_iommu : Bool
  pub disable_gpt_auto : Bool
  pub use_systemd_init : Bool
  pub root_uuid : Text
  pub home_uuid : Option Text
  pub var_uuid : Option Text
  pub timeout : Option Text
  pub try_empty_password : Bool
  pub no_read_workqueue : Bool

unfoldable pub remove : Text → List Text → Result (List Text)
unfolding remove_kernel_arg
remove arg args = or_raise out_of_fuel (remove_kernel_arg (suc (length args)) args arg)

unfoldable pub remove_if : Bool → Text → List Text → Result (List Text)
unfolding remove
remove_if test arg args = if test then remove arg args else ok args

-- The arguments that the setup replaces are taken away.
unfoldable pub take_away : KernelSetup → List Text → Result (List Text)
take_away s args = do
  args ← remove (codes "rd.luks") args
  args ← remove_if s.on_steamdeck (codes "fbcon") args
  args ← remove_if s.on_steamos (codes "module_blacklist") args
  args ← remove_if s.show_kernel_messages (codes "quiet") args
  args ← remove_if s.show_kernel_messages (codes "splash") args
  args ← remove_if s.show_kernel_messages (codes "plymouth.ignore-serial-consoles") args
  args ← remove_if (s.enable_iommu && s.on_steamos) (codes "amd_iommu") args
  ok args

abbrev pub only_if : Bool → List Text → List Text
only_if true args = args
only_if false args = []

abbrev pub luks_name : Text → Text → Text
luks_name uuid name = codes "rd.luks.name=" ++ uuid ++ codes "=" ++ name

abbrev pub luks_names : Option Text → Text → List Text
luks_names none name = []
luks_names (some uuid) name = luks_name uuid name ∷ []

-- `','.join(words)`
unfoldable pub join_commas : List Text → Text
join_commas [] = []
join_commas (w ∷ []) = w
join_commas (w ∷ v ∷ ws) = w ++ codes "," ++ join_commas (v ∷ ws)

abbrev pub timeouts : Option Text → List Text
timeouts none = []
timeouts (some t) = (codes "timeout=" ++ t) ∷ []

abbrev pub luks_options : KernelSetup → List Text
luks_options s =
    timeouts s.timeout
    ++ only_if s.try_empty_password (codes "try-empty-password" ∷ [])
    ++ only_if s.no_read_workqueue (codes "no-read-workqueue" ∷ [])

abbrev pub is_given : Option Text → Bool
is_given none = false
is_given (some t) = true

-- The arguments for the encrypted partitions under a systemd initramfs.
unfoldable pub systemd_args : KernelSetup → List Text
unfolding join_commas
systemd_args s =
    luks_name s.root_uuid (codes "tpm_encrypted_root")
      ∷ codes "root=/dev/mapper/tpm_encrypted_root"
      ∷ luks_names s.home_uuid (codes "tpm_encrypted_home")
    ++ luks_names s.var_uuid (codes "tpm_encrypted_var")
    ++ only_if (is_given s.timeout || s.try_empty_password || s.no_read_workqueue)
        ((codes "rd.luks.options=" ++ join_commas (luks_options s)) ∷ [])

-- The words from which `shlex.join` makes the command line. Without `use_systemd_init` the name
-- `blkid_root_stats` is looked up, which no statement binds.
unfoldable pub kernel_args : KernelSetup → List Text → Result (List Text)
kernel_args s given = do
  args ← take_away s given
  let args = args ++ only_if s.on_steamdeck (codes "fbcon=rotate:1" ∷ [])
  let args = args ++ only_if s.disable_gpt_auto (codes "systemd.gpt_auto=no" ∷ [])
  if s.use_systemd_init then ok (args ++ systemd_args s) else err name_error
