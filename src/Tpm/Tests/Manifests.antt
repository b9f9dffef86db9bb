-- ===== src/Tpm/Tests/Manifests.antt =====
-- The ESP manifests on a small ESP.
use os_lockdown.Base.{
  ℕ, ◌≡◌, refl, true, false, Option, none, some, List, [], ◌∷◌, ◌++◌, Text, codes, leb, arith,
  starts_with, ends_with, text_eq,
}
use os_lockdown.Tpm.Result.{ok, ◌>>=◌}
use os_lockdown.Tpm.Manifest.{
  walk_entries, file_entries, dir_entries, entry, join_path, puts, put, load_esp_manifests, checked,
  get_last_esp_manifest, times, at_latest, find, all_in, latest, manifest_eq, value_eq, Folder,
  Manifest, Stored, members, Floats, capture_current_esp_manifest, update_esp_manifest_if_changed,
  esp_matches_manifest,
}
use os_lockdown.Tpm.Manifest.Latest.{IsFloats}
use os_lockdown.Tpm.Manifest.Recorded.{matches-update, IsEarlier, IsBefore}

-- Times that are whole seconds, each printed as one character.
read_time : Text → Option ℕ
read_time [] = none
read_time (c ∷ []) = some c
read_time (c ∷ d ∷ t) = none

abbrev floats : Floats ℕ
floats = record { parse = read_time; print = λ t. t ∷ []; leb = leb }

floats-IsFloats : IsFloats floats
unfolding read_time
floats-IsFloats = record { parse-print = λ t. refl; total = λ t u h. ground (arith, h) }

abbrev hash_file : Text → Text
hash_file path = codes "#" ++ path

abbrev walk : List Folder
walk =
    record { root = codes "/esp"; dirs = codes "EFI" ∷ []; files = [] }
    ∷ record { root = codes "/esp/EFI"; dirs = []; files = codes "a.efi" ∷ [] }
    ∷ []

abbrev now_there : Manifest
now_there = (codes "EFI", none) ∷ (codes "EFI/a.efi", some (codes "#/esp/EFI/a.efi")) ∷ []

-- The file holds an older manifest, without the loader.
abbrev file : Stored
file = members ((50 ∷ [], some ((codes "EFI", none) ∷ [])) ∷ [])

file-IsEarlier : IsEarlier floats floats-IsFloats 60 (some file)
unfolding IsEarlier IsBefore
file-IsEarlier = (
  record {
    manifest = (codes "EFI", none) ∷ [];
    is_value = refl;
    key = record { stamp = 50; is_printed = refl; holds = refl };
  },
  tt,
)

walk-captures : capture_current_esp_manifest hash_file (codes "/esp") walk ≡ ok now_there
unfolding capture_current_esp_manifest walk_entries file_entries dir_entries entry starts_with
    ends_with text_eq join_path puts put
walk-captures = refl

matches-update_example :
    (after : Option Stored) × (update_esp_manifest_if_changed floats hash_file
        (codes "/esp")
        walk
        60
        (some file)
      ≡ ok after)
    × (esp_matches_manifest floats hash_file (codes "/esp") walk after ≡ ok true)
matches-update_example =
    matches-update floats floats-IsFloats hash_file (codes "/esp") walk 60 (some file) now_there
      walk-captures file-IsEarlier

-- A time that is set back: the manifest that was recorded is not the last.
set_back :
    (update_esp_manifest_if_changed floats hash_file (codes "/esp") walk 40 (some file)
      >>= esp_matches_manifest floats hash_file (codes "/esp") walk)
    ≡ ok false
unfolding capture_current_esp_manifest walk_entries file_entries dir_entries entry starts_with
    ends_with text_eq join_path puts put load_esp_manifests checked get_last_esp_manifest times
    at_latest find all_in latest manifest_eq value_eq update_esp_manifest_if_changed
    esp_matches_manifest read_time
set_back = refl
