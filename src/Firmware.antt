-- ===== src/Firmware.antt =====
-- AutoTpmEncrypt/firmware_audit.py: the comparison of a controller's flash with the known firmwares.
pub mod Laws
mod Tests
use os_lockdown.Base.{
  ℕ, zero, suc, ◌+◌, ◌-◌, Bool, true, false, ◌&&◌, not, List, [], ◌∷◌, if◌then◌else◌, ◌==◌, ltb,
  length, drop, starts_with, any,
}

-- `data.count(bytes([b]))`
unfoldable pub count : ℕ → List ℕ → ℕ
count b [] = 0
count b (c ∷ cs) = let rest = count b cs in if c == b then suc rest else rest

unfoldable pub fw_blob_matches_app_fw : List ℕ → List ℕ → Bool
unfolding count starts_with
fw_blob_matches_app_fw fw_blob app_fw =
    let delta = length app_fw - length fw_blob in
    if not (starts_with app_fw fw_blob)
    then false
    else if ltb 0 delta && not (count 0xff (drop (length app_fw - delta) app_fw) == delta)
    then false
    else true

-- What `verify_firmware` asserts of the firmware that it downloads.
unfoldable pub is_known_firmware : List (List ℕ) → List ℕ → Bool
unfolding fw_blob_matches_app_fw
is_known_firmware all_firmwares downloaded =
    any (λ firmware. fw_blob_matches_app_fw firmware downloaded) all_firmwares
