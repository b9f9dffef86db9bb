-- ===== src/Nvdata/Tests.antt =====
-- Runs of nvdata_tool/nvdata_tool.py on a flash of 48 bytes: a record and a blank one from 16 on.
use os_lockdown.Base.{
  ℕ, ◌≡◌, ◌≢◌, refl, true, false, none, some, String, List, [], ◌∷◌, ◌++◌, arith, replicate,
}
use os_lockdown.Nvdata.Result.{ok, err, nothing_to_do, nvram_count, no_nvdata}
use os_lockdown.Nvdata.Crc.{crc8}
use os_lockdown.Nvdata.Crc.Laws.{register, crc8-eq-register, crc8_detects_single_byte}
use os_lockdown.Nvdata.Scan.{scan, record_size, check_area}
use os_lockdown.Nvdata.Scan.Laws.{IsRun, last_of, scan-finds}
use os_lockdown.Nvdata.Edit.{edit, to_bytes}
use os_lockdown.Nvdata.Edit.Whole.{IsEdited, edit_lem}
use os_lockdown.Nvdata.Command.{
  World, status, finished, original_bin, updated_bin, start, find_nvdata, proceed, show_status,
  update, main,
}
use os_lockdown.Nvdata.Command.Laws.{main_leaves_flash}
use os_lockdown.Nvdata.Command.Twice.{main_twice}

abbrev old_record : List ℕ
old_record = 0x50 ∷ 0 ∷ 0 ∷ 0 ∷ 2 ∷ 0 ∷ 0 ∷ 0 ∷ 4 ∷ 0 ∷ 0 ∷ 0 ∷ 0 ∷ 0 ∷ 0 ∷ 169 ∷ []

abbrev new_record : List ℕ
new_record = 0x50 ∷ 0 ∷ 0 ∷ 0 ∷ 3 ∷ 0 ∷ 0 ∷ 0 ∷ 4 ∷ 0 ∷ 0 ∷ 0 ∷ 0 ∷ 0 ∷ 0 ∷ 182 ∷ []

abbrev flash_with : List ℕ → List ℕ
flash_with r = replicate 16 7 ++ (r ++ replicate 16 0xff)

abbrev world : World
world = record {
  has_flashrom = true;
  log_has_vb2 = some true;
  areas = (16, 32) ∷ [];
  read_works = true;
  write_works = true;
  updated_in = λ dir. false;
  flash = flash_with old_record;
}

abbrev enable : List String
enable = "-e" ∷ "--work-dir" ∷ "w" ∷ "--rm" ∷ []

crc_of_digits : crc8 (0x31 ∷ 0x32 ∷ 0x33 ∷ []) ≡ 0xc0
unfolding crc8
crc_of_digits = refl

enable_run :
    main enable world ≡ ok (finished (updated_bin ∷ original_bin ∷ []), flash_with new_record)
unfolding main start find_nvdata record_size check_area scan proceed update edit crc8 to_bytes
enable_run = refl

status_run : main ("--status" ∷ []) world ≡ ok (status 0 0 [], flash_with old_record)
unfolding main start find_nvdata record_size check_area scan proceed show_status
status_run = refl

two_areas : main enable (record world { areas = (16, 32) ∷ (64, 32) ∷ [] }) ≡ err nvram_count
unfolding main start
two_areas = refl

blank_area : main enable (record world { flash = replicate 48 0xff }) ≡ err no_nvdata
unfolding main start find_nvdata record_size check_area scan proceed
blank_area = refl

crc8-eq-register_example : crc8 old_record ≡ register 0 old_record
crc8-eq-register_example = crc8-eq-register old_record (omega arith)

crc8_detects_single_byte_example : crc8 (1 ∷ 2 ∷ 3 ∷ []) ≢ crc8 (1 ∷ 7 ∷ 3 ∷ [])
crc8_detects_single_byte_example =
    crc8_detects_single_byte (1 ∷ []) (3 ∷ []) 2 7 (omega arith) (omega arith) (omega arith)
      (omega arith) (omega arith)

scan-finds_example :
    (n : ℕ) × IsRun (flash_with old_record) 16 16 2 n
    × (scan 3 (flash_with old_record) 16 48 16 none ≡ some (last_of 16 16 n none))
scan-finds_example = scan-finds (flash_with old_record) 16 3 2 16 (omega arith) (omega arith)

edit_lem_example :
    (fw : List ℕ) × (edit enable 16 16 (flash_with old_record) ≡ ok fw)
    × IsEdited enable true 16 (flash_with old_record) fw
    × (edit enable 16 16 fw ≡ ok fw)
edit_lem_example = edit_lem enable 16 16 (flash_with old_record) (omega arith) (omega arith)

main_leaves_flash_example : flash_with old_record ≡ flash_with old_record
main_leaves_flash_example =
    main_leaves_flash ("--status" ∷ []) world (status 0 0 []) (flash_with old_record) refl
      status_run

main_twice_example :
    main enable (record world { flash = flash_with new_record }) ≡ err nothing_to_do
main_twice_example =
    main_twice enable world 16 32 (finished (updated_bin ∷ original_bin ∷ []))
      (flash_with new_record) (omega arith) refl (omega arith) refl enable_run
