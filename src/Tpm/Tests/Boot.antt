-- ===== src/Tpm/Tests/Boot.antt =====
-- The kernel command line, the EFI binary's layout, the TPM handle and the PCR bank on small inputs.
use os_lockdown.Base.{
  ◌≡◌, refl, true, false, not, none, some, List, [], ◌∷◌, ◌++◌, arith, Text, codes, keep,
  if◌then◌else◌,
}
use os_lockdown.Base.Sort.{is_in, sorted}
use os_lockdown.Tpm.Result.{ok, err, name_error}
use os_lockdown.Tpm.KernelArgs.{
  KernelSetup, remove_kernel_arg, kernel_args, only_if, systemd_args, take_away, remove, remove_if,
}
use os_lockdown.Tpm.KernelArgs.Remove.{names_arg, remove_kernel_arg_lem}
use os_lockdown.Tpm.KernelArgs.Build.{is_one_of, removed_args, kernel_args_lem}
use os_lockdown.Tpm.Image.{Layout, layout, stub_end, section_ends, max, align_up, place}
use os_lockdown.Tpm.Image.Laws.{IsPlaced, layout_lem}
use os_lockdown.Tpm.Hooks.{update_hooks, remove_others, ensure_first, ensure_behind, ensure_before}
use os_lockdown.Tpm.Hooks.Order.{IsUpdated, update_hooks-IsUpdated}
use os_lockdown.Tpm.Slots.{
  free_tpm_address, hash_algorithm, in_use_addresses, possible_addresses, first_or_die,
}
use os_lockdown.Base.{map}
use os_lockdown.Tpm.Slots.{lower}
use os_lockdown.Tpm.Slots.Address.{IsFirstFree, free_tpm_address-IsFirstFree}
use os_lockdown.Tpm.Slots.Bank.{IsLast, hash_algorithm-IsLast}

abbrev given : List Text
given =
    codes "quiet"
    ∷ codes "rd.luks=0"
    ∷ codes "rw"
    ∷ codes "quiet"
    ∷ codes "fbcon=rotate:0"
    ∷ codes "quietly"
    ∷ []

remove_kernel_arg_lem_example :
    remove_kernel_arg 7 given (codes "quiet")
    ≡ some (keep (λ a. not (names_arg (codes "quiet") a)) given)
remove_kernel_arg_lem_example = remove_kernel_arg_lem 7 given (codes "quiet") (omega arith)

removed_quiet :
    remove_kernel_arg 7 given (codes "quiet")
    ≡ some (codes "rd.luks=0" ∷ codes "rw" ∷ codes "fbcon=rotate:0" ∷ codes "quietly" ∷ [])
unfolding remove_kernel_arg
removed_quiet = refl

abbrev setup : KernelSetup
setup = record {
  on_steamdeck = true;
  on_steamos = false;
  show_kernel_messages = true;
  enable_iommu = true;
  disable_gpt_auto = true;
  use_systemd_init = true;
  root_uuid = codes "ab12";
  home_uuid = none;
  var_uuid = some (codes "cd34");
  timeout = none;
  try_empty_password = false;
  no_read_workqueue = true;
}

kernel_args_lem_example : kernel_args setup given ≡ (
    if setup.use_systemd_init
    then ok (
        ((keep (λ a. not (is_one_of (removed_args setup) a)) given
            ++ only_if setup.on_steamdeck (codes "fbcon=rotate:1" ∷ []))
          ++ only_if setup.disable_gpt_auto (codes "systemd.gpt_auto=no" ∷ []))
        ++ systemd_args setup)
    else err name_error)
kernel_args_lem_example = kernel_args_lem setup given

steamdeck_args :
    kernel_args setup given
    ≡ ok (
        codes "rw"
        ∷ codes "quietly"
        ∷ codes "fbcon=rotate:1"
        ∷ codes "systemd.gpt_auto=no"
        ∷ codes "rd.luks.name=ab12=tpm_encrypted_root"
        ∷ codes "root=/dev/mapper/tpm_encrypted_root"
        ∷ codes "rd.luks.name=cd34=tpm_encrypted_var"
        ∷ codes "rd.luks.options=no-read-workqueue"
        ∷ [])
unfolding kernel_args take_away remove remove_if systemd_args
steamdeck_args = refl

layout_lem_example :
    (l : Layout) × (layout ((100, 4096) ∷ (5000, 8192) ∷ []) 4096 300 90 70000 ≡ ok l)
    × IsPlaced ((100, 4096) ∷ (5000, 8192) ∷ []) 4096 300 90 70000 l
layout_lem_example = layout_lem (100, 4096) ((5000, 8192) ∷ []) 4096 300 90 70000 (omega arith)

placed :
    layout ((100, 4096) ∷ (5000, 8192) ∷ []) 4096 300 90 70000
    ≡ ok (record {
      osrel_offset = 16384;
      kernel_args_offset = 20480;
      kernel_offset = 24576;
      initramfs_offset = 98304;
    })
unfolding layout stub_end section_ends max place align_up
placed = refl

abbrev handles : Text
handles = codes "- 0x81000000 - 0x81000001 - 0x810000FF"

chosen_address : free_tpm_address handles ≡ ok (codes "0x81000002")
unfolding free_tpm_address possible_addresses in_use_addresses first_or_die sorted is_in
chosen_address = refl

free_tpm_address-IsFirstFree_example : IsFirstFree (map lower handles) (codes "0x81000002")
free_tpm_address-IsFirstFree_example =
    free_tpm_address-IsFirstFree handles (codes "0x81000002") chosen_address

hash_algorithm-IsLast_example :
    (a : Text) × (hash_algorithm (codes "sha1" ∷ codes "sha384" ∷ []) ≡ ok a)
    × IsLast a ((codes "sha1" ∷ codes "sha384" ∷ []) ++ (codes "sha1" ∷ codes "sha256" ∷ []))
hash_algorithm-IsLast_example = hash_algorithm-IsLast (codes "sha1" ∷ codes "sha384" ∷ [])

abbrev old_hooks : List Text
old_hooks = codes "base" ∷ codes "udev" ∷ codes "block" ∷ codes "filesystems" ∷ []

update_hooks-IsUpdated_example :
    (out : List Text) × (update_hooks true old_hooks ≡ ok out) × IsUpdated true old_hooks out
update_hooks-IsUpdated_example = update_hooks-IsUpdated true old_hooks

new_hooks :
    update_hooks true old_hooks
    ≡ ok (
        codes "base"
        ∷ codes "systemd"
        ∷ codes "autodetect"
        ∷ codes "modconf"
        ∷ codes "block"
        ∷ codes "auto_tpm_encrypt"
        ∷ codes "sd-encrypt"
        ∷ codes "filesystems"
        ∷ [])
unfolding update_hooks remove_others ensure_first ensure_behind ensure_before
new_hooks = refl
