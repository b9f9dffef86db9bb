-- ===== src/Tpm/Seal/Checks.antt =====
-- What the two checks report, for every exit code of cryptsetup.
use os_lockdown.Base.{
  ◌≡◌, refl, ap, ◌∙◌, Bool, false, Option, none, some, List, [], ◌∷◌, ◌++◌, Text, codes, text_eq,
  Bool-cases, inl, inr, keep, map,
}
use os_lockdown.Tpm.Result.{ok}
use os_lockdown.Tpm.Validate.{is_encrypted}
use os_lockdown.Tpm.Encrypt.{existing_address}
use os_lockdown.Tpm.PacmanHook.{NonRoot, get_non_root_partitions_from_hook}
use os_lockdown.Tpm.Seal.{
  Opening, Killer, given_partition, Listed, ensure_booted_os_is_sealed, encrypted_partitions,
  ensure_no_os_are_unsealed,
}
use os_lockdown.Tpm.Seal.Outcome.{outcome, report-outcome}

-- The hook files that are there up to the first one with an address: this one.
abbrev pub IsAddressed : Text → List (Option (Option Text)) → Type 0
IsAddressed a [] = ⊥
IsAddressed a (none ∷ files) = IsAddressed a files
IsAddressed a (some none ∷ files) = ⊥
IsAddressed a (some (some b) ∷ files) = b ≡ a

addressed :
    (a : Text) (hooks : List (Option (Option Text)))
    → IsAddressed a hooks
    → existing_address hooks ≡ ok (some a)
unfolding existing_address
addressed a [] h = elim h [ ]
addressed a (none ∷ files) h = addressed a files h
addressed a (some none ∷ files) h = elim h [ ]
addressed a (some (some b) ∷ files) h = ap (λ x. ok (some x)) h

-- No hook file that is there is without an address.
abbrev pub HasAddresses : List (Option (Option Text)) → Type 0
HasAddresses [] = Unit
HasAddresses (none ∷ files) = HasAddresses files
HasAddresses (some none ∷ files) = ⊥
HasAddresses (some (some a) ∷ files) = HasAddresses files

some_or_no_address :
    (hooks : List (Option (Option Text)))
    → HasAddresses hooks
    → (a : Option Text) × (existing_address hooks ≡ ok a)
unfolding existing_address
some_or_no_address [] h = (none, refl)
some_or_no_address (none ∷ files) h = some_or_no_address files h
some_or_no_address (some none ∷ files) h = elim h [ ]
some_or_no_address (some (some a) ∷ files) h = (some a, refl)

-- The partitions of the booted OS.
pub booted : (Text → Opening) → Text → NonRoot → List (Text × Opening)
booted openings root parts =
    (codes "root", openings root)
    ∷ (given_partition openings (codes "home") parts.home
        ++ given_partition openings (codes "var") parts.var)

-- Where the stats of root are there, the pacman hook names the partitions, and the first of the
-- other hooks has an address: the check of the booted OS ends as its first partition does that
-- cannot be tried, with an unexpected exit code of cryptsetup or a volume that is not closed again.
-- Where all can be tried, it passes where none of them has a blank password; where one has, it does
-- not, and asks for Windows' boot entry to be deleted, which ends in `die` for want of efibootmgr.
pub ensure_booted_os_is_sealed_lem :
    (k : Killer) (openings : Text → Opening) (root hook address : Text) (parts : NonRoot)
    (hooks : List (Option (Option Text)))
    → get_non_root_partitions_from_hook (some hook) ≡ ok parts
    → IsAddressed address hooks
    → ensure_booted_os_is_sealed k openings (some root) (some hook) hooks
      ≡ outcome k (booted openings root parts)
unfolding ensure_booted_os_is_sealed booted
ensure_booted_os_is_sealed_lem k openings root hook address parts hooks named addressed_ =
    rw (named, addressed address hooks addressed_) (report-outcome k (booted openings root parts))

pub is_luks : Listed → Bool
is_luks p = elim p.fstype [ none ↦ false | some t ↦ text_eq t (codes "crypto_LUKS") ]

-- The LUKS partitions among those listed.
pub luks_partitions : List Listed → List (Text × Opening)
luks_partitions ps = map (λ p. (p.path, p.opening)) (keep is_luks ps)

is_encrypted-is_luks : (p : Listed) → is_encrypted p.fstype ≡ is_luks p
unfolding is_encrypted is_luks
is_encrypted-is_luks p =
    elim p.fstype
      as (λ o.
        is_encrypted o ≡ elim o [ none ↦ false | some t ↦ text_eq t (codes "crypto_LUKS") ]) [
          | none ↦ refl
          | some t ↦ refl
        ]

encrypted_partitions-luks_partitions :
    (ps : List Listed) → encrypted_partitions ps ≡ luks_partitions ps
unfolding encrypted_partitions luks_partitions
encrypted_partitions-luks_partitions [] = refl
encrypted_partitions-luks_partitions (p ∷ ps) =
    let rest = encrypted_partitions-luks_partitions ps in
    let same = is_encrypted-is_luks p in
    elim (Bool-cases (is_luks p)) [
      | inl luks ↦
          let encrypted = same ∙ luks in
          rw (encrypted, luks) (ap (λ es. (p.path, p.opening) ∷ es) rest)
      | inr other ↦ let plain = same ∙ other in rw (plain, other) rest
    ]

-- Where no hook file that is there is without an address: the check of every OS ends as the first
-- LUKS partition does that cannot be tried, with an unexpected exit code of cryptsetup or a volume
-- that is not closed again. Where all can be tried, it passes where no LUKS partition has a blank
-- password; where one has, it does not, and asks for Windows' boot entry to be deleted, which ends
-- in `die` for want of efibootmgr.
pub ensure_no_os_are_unsealed_lem :
    (k : Killer) (ps : List Listed) (hooks : List (Option (Option Text)))
    → HasAddresses hooks
    → ensure_no_os_are_unsealed k ps hooks ≡ outcome k (luks_partitions ps)
unfolding ensure_no_os_are_unsealed
ensure_no_os_are_unsealed_lem k ps hooks h =
    let (a, found) = some_or_no_address hooks h in
    rw found (report-outcome k (encrypted_partitions ps))
    ∙ ap (outcome k) (encrypted_partitions-luks_partitions ps)
