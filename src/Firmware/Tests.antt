-- ===== src/Firmware/Tests.antt =====
-- The audit on a firmware of two bytes.
use os_lockdown.Base.{ℕ, ◌≡◌, refl, true, false, List, [], ◌∷◌, ◌++◌, ◌-◌, ◌↔◌, length, replicate}
use os_lockdown.Firmware.{fw_blob_matches_app_fw, is_known_firmware}
use os_lockdown.Firmware.Laws.{fw_blob_matches_app_fw_iff}

abbrev firmware : List ℕ
firmware = 7 ∷ 8 ∷ []

abbrev flash : List ℕ
flash = 7 ∷ 8 ∷ 0xff ∷ 0xff ∷ []

fw_blob_matches_app_fw_iff_example :
    (fw_blob_matches_app_fw firmware flash ≡ true)
    ↔ (flash ≡ firmware ++ replicate (length flash - length firmware) 0xff)
fw_blob_matches_app_fw_iff_example = fw_blob_matches_app_fw_iff firmware flash

erased_behind : fw_blob_matches_app_fw firmware flash ≡ true
erased_behind = fw_blob_matches_app_fw_iff_example.1 refl

known : is_known_firmware ((1 ∷ []) ∷ (7 ∷ 8 ∷ []) ∷ []) (7 ∷ 8 ∷ 0xff ∷ []) ≡ true
unfolding is_known_firmware
known = refl

code_behind : is_known_firmware ((1 ∷ []) ∷ (7 ∷ 8 ∷ []) ∷ []) (7 ∷ 8 ∷ 9 ∷ 0xff ∷ []) ≡ false
unfolding is_known_firmware
code_behind = refl
