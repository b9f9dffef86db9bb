-- ===== src/Tpm/Seal.antt =====
-- The blank password on the encrypted partitions: `remove_blank_password`, `has_blank_password`, and
-- the two checks `ensure_booted_os_is_sealed` and `ensure_no_os_are_unsealed`.
pub mod Outcome
pub mod Removal
pub mod Checks
use os_lockdown.Base.{
  ℕ, zero, suc, ◌≡◌, Bool, true, false, ◌&&◌, ◌||◌, not, Option, none, some, List, [], ◌∷◌, ◌++◌,
  Text, codes, if◌then◌else◌, ◌==◌, text_eq,
}
use os_lockdown.Tpm.Validate.{is_encrypted}
use os_lockdown.Tpm.PacmanHook.{get_non_root_partitions_from_hook}
use os_lockdown.Tpm.Encrypt.{existing_address}
use os_lockdown.Tpm.Result.{
  Result, ok, err, die, die_if, called_process_error, out_of_fuel, ◌>>=◌, ◌>>◌, or_raise,
}

abbrev pub success : ℕ
success = 0

abbrev pub passphrase_not_found : ℕ
passphrase_not_found = 2

abbrev pub device_in_use : ℕ
device_in_use = 5

-- cryptsetup on one partition, given the blank password: the exit code of `luksRemoveKey` with the
-- partition behind it, and that of `open`.
pub record Cryptsetup (S : Type 0) : Type 0 where
  pub remove_key : S → ℕ × S
  pub open_volume : S → ℕ

module _ {S : Type 0} (cryptsetup : Cryptsetup S) where
  unfoldable pub remove_blank_password : ℕ → S → Result S
  remove_blank_password zero s = err out_of_fuel
  remove_blank_password (suc fuel) s =
      let (code, s') = cryptsetup.remove_key s in
      let again = remove_blank_password fuel s' in
      if code == success then again else if code == passphrase_not_found then ok s' else err die

-- The exit codes of `cryptsetup open` with the blank password, and of `cryptsetup close` behind it.
pub record Opening : Type 0 where
  pub open_code : ℕ
  pub close_code : ℕ

-- The volume that was opened is closed again.
unfoldable pub has_blank_password : Opening → Result Bool
has_blank_password o =
    if o.open_code == success
    then (if o.close_code == success then ok true else err called_process_error)
    else if o.open_code == device_in_use
    then ok true
    else if o.open_code == passphrase_not_found
    then ok false
    else err die

-- The names of the partitions in question that have a blank password; a partition is its name, and
-- what opening it gives.
unfoldable pub with_blank_password : List (Text × Opening) → Result (List Text)
unfolding has_blank_password
with_blank_password [] = ok []
with_blank_password (p ∷ ps) = do
  blank ← has_blank_password p.1
  rest ← with_blank_password ps
  ok (if blank then p.0 ∷ rest else rest)

-- What a check returns, and whether it called `maybe_kill_windows_boot_manager`.
pub record Report : Type 0 where
  pub passed : Bool
  pub called_kill_windows : Bool

-- What `maybe_kill_windows_boot_manager` goes by.
pub record Killer : Type 0 where
  pub should_kill_windows_boot_manager : Bool
  pub has_efibootmgr : Bool

abbrev pub kill_windows : Killer → Result (Unit {0})
kill_windows k = die_if (k.should_kill_windows_boot_manager && not k.has_efibootmgr)

unfoldable pub report : Killer → List Text → Result Report
report k [] = ok (record { passed = true; called_kill_windows = false })
report k (x ∷ xs) =
    kill_windows k >>= λ u. ok (record { passed = false; called_kill_windows = true })

unfoldable pub given_partition : (Text → Opening) → Text → Option Text → List (Text × Opening)
given_partition openings name none = []
given_partition openings name (some path) = (name, openings path) ∷ []

-- `if not existing_address: die(...)`
abbrev pub die_if_no_address : Option Text → Result (Unit {0})
die_if_no_address none = err die
die_if_no_address (some address) = ok tt

-- `root_path` is that of the stats for the mount point /, `hook` the text of the pacman hook, none
-- where it is missing, and `hooks` are the addresses in the hooks that unseal.
unfoldable pub ensure_booted_os_is_sealed :
    Killer
    → (Text → Opening)
    → Option Text
    → Option Text
    → List (Option (Option Text))
    → Result Report
ensure_booted_os_is_sealed k openings root_path hook hooks = do
  root ← or_raise die root_path
  parts ← get_non_root_partitions_from_hook hook
  address ← existing_address hooks
  die_if_no_address address
  blank ← with_blank_password (
      (codes "root", openings root)
      ∷ (given_partition openings (codes "home") parts.home
          ++ given_partition openings (codes "var") parts.var))
  report k blank

-- A partition as `get_partitions` lists it, with what opening it gives.
pub record Listed : Type 0 where
  pub path : Text
  pub fstype : Option Text
  pub opening : Opening

unfoldable pub encrypted_partitions : List Listed → List (Text × Opening)
encrypted_partitions [] = []
encrypted_partitions (p ∷ ps) =
    let rest = encrypted_partitions ps in
    if is_encrypted p.fstype then (p.path, p.opening) ∷ rest else rest

-- Without an address in the hooks, a warning is printed.
unfoldable pub ensure_no_os_are_unsealed :
    Killer → List Listed → List (Option (Option Text)) → Result Report
ensure_no_os_are_unsealed k partitions hooks = do
  blank ← with_blank_password (encrypted_partitions partitions)
  address ← existing_address hooks
  report k blank
