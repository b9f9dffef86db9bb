-- ===== src/Tpm/Hooks.antt =====
-- The HOOKS line of /etc/mkinitcpio.conf: which hooks `make_initfs_via_mkinitcpio` takes away, and
-- where it inserts those that are missing.
pub mod Order
use os_lockdown.Base.{
  ℕ, zero, suc, Bool, true, false, Option, none, some, option_map, List, [], ◌∷◌, ◌++◌,
  if◌then◌else◌, Text, codes, text_eq, take, drop,
}
use os_lockdown.Base.Sort.{is_in}
use os_lockdown.Tpm.Result.{Result, ok, value_error, or_raise, ◌>>=◌}

-- `hooks.index(hook)`, none for the ValueError.
unfoldable pub index : Text → List Text → Option ℕ
unfolding text_eq
index hook [] = none
index hook (h ∷ hs) =
    let rest = option_map suc (index hook hs) in if text_eq hook h then some 0 else rest

-- `hooks.insert(i, hook)`
unfoldable pub insert_at : ℕ → Text → List Text → List Text
insert_at i hook hooks = take i hooks ++ (hook ∷ drop i hooks)

-- `hooks.remove(hook)` where it is there: the first one goes.
unfoldable pub remove_hook : Text → List Text → List Text
unfolding text_eq
remove_hook hook [] = []
remove_hook hook (h ∷ hs) =
    let rest = remove_hook hook hs in if text_eq hook h then hs else h ∷ rest

-- `hook`, inserted behind `anchor` where it is missing.
unfoldable pub ensure_behind : Text → Text → List Text → Result (List Text)
unfolding index insert_at is_in
ensure_behind hook anchor hooks =
    if is_in hook hooks
    then ok hooks
    else (or_raise value_error (index anchor hooks) >>= λ i. ok (insert_at (suc i) hook hooks))

-- `hook`, inserted before `anchor` where it is missing.
unfoldable pub ensure_before : Text → Text → List Text → Result (List Text)
unfolding index insert_at is_in
ensure_before hook anchor hooks =
    if is_in hook hooks
    then ok hooks
    else (or_raise value_error (index anchor hooks) >>= λ i. ok (insert_at i hook hooks))

unfoldable pub ensure_first : Text → List Text → List Text
unfolding is_in
ensure_first hook hooks = if is_in hook hooks then hooks else hook ∷ hooks

-- The flag is USE_SYSTEMD_INIT.
abbrev pub device_manager : Bool → Text
device_manager true = codes "systemd"
device_manager false = codes "udev"

abbrev pub encryption_hook : Bool → Text
encryption_hook true = codes "sd-encrypt"
encryption_hook false = codes "encrypt"

unfoldable pub remove_others : Bool → List Text → List Text
unfolding remove_hook
remove_others true hooks = remove_hook (codes "encrypt") (remove_hook (codes "udev") hooks)
remove_others false hooks = remove_hook (codes "sd-encrypt") (remove_hook (codes "systemd") hooks)

-- From the words between the parentheses of the old line to those of the new one.
unfoldable pub update_hooks : Bool → List Text → Result (List Text)
update_hooks use_systemd_init hooks = do
  let hooks = ensure_first (codes "base") (remove_others use_systemd_init hooks)
  hooks ← ensure_behind (device_manager use_systemd_init) (codes "base") hooks
  hooks ← ensure_behind (codes "autodetect") (device_manager use_systemd_init) hooks
  hooks ← ensure_behind (codes "modconf") (codes "autodetect") hooks
  hooks ← ensure_behind (codes "block") (codes "modconf") hooks
  hooks ← ensure_behind (encryption_hook use_systemd_init) (codes "block") hooks
  ensure_before (codes "auto_tpm_encrypt") (encryption_hook use_systemd_init) hooks
