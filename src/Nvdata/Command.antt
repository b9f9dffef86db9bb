-- ===== src/Nvdata/Command.antt =====
-- `main` of nvdata_tool/nvdata_tool.py. The programs and files that it reaches are in `World`;
-- the pattern search in the firmware log, by Python's `re`, is there as its result.
pub mod Laws
pub mod Find
pub mod Twice
use Prim.Native.Nat.{bit_and}
use mathlib.Core.List.{reverse}
use os_lockdown.Base.{
  ℕ, suc, ◌+◌, Bool, true, false, not, ◌||◌, String, Option, none, some, List, [], ◌∷◌, ◌++◌,
  if◌then◌else◌, ◌=ₛ◌, text_eq,
}
use os_lockdown.Nvdata.Result.{
  Error, Result, ok, err, flashrom_missing, log_missing, unsupported_firmware, nvram_count,
  read_failed, no_nvdata, nothing_to_do, updated_exists, write_failed, out_of_fuel, ◌>>=◌, ◌>>◌,
  or_raise, byte_at,
}
use os_lockdown.Nvdata.Scan.{record_size, check_area, scan}
use os_lockdown.Nvdata.Edit.{has, edit, to_bytes}

-- What a run finds: the program `flashrom` and whether its calls succeed, the test of the
-- firmware log for "\nvb2" (`none`: there is no log), the distinct RW_NVRAM areas that the log
-- names, whether a directory holds an updated.bin, and the contents of the flash.
pub record World : Type 0 where
  pub has_flashrom : Bool
  pub log_has_vb2 : Option Bool
  pub areas : List (ℕ × ℕ)
  pub read_works : Bool
  pub write_works : Bool
  pub updated_in : String → Bool
  pub flash : List ℕ

pub data CreatedPath : Type 0 where
  temporary_dir original_bin updated_bin : CreatedPath

-- What a run shows at its end. `finished` and `status` name the paths that were removed.
pub data Report : Type 0 where
  usage dumped : Report
  status : ℕ → ℕ → List CreatedPath → Report
  finished : List CreatedPath → Report

abbrev pub guard : Bool → Error → Result (Unit {0})
guard true e = ok tt
guard false e = err e

-- `args[args.index('--work-dir')+1]`; `none` stands for a new temporary directory.
abbrev pub work_dir : List String → Option String
work_dir [] = none
work_dir (a ∷ []) = none
work_dir (a ∷ b ∷ args) = if a =ₛ "--work-dir" then some b else work_dir (b ∷ args)

-- `if len(pair) != 1: raise`
abbrev pub single_area : List (ℕ × ℕ) → Result (ℕ × ℕ)
single_area [] = err nvram_count
single_area (p ∷ []) = ok p
single_area (p ∷ q ∷ r) = err nvram_count

abbrev pub updated_bin_exists : World → Option String → Bool
updated_bin_exists w none = false
updated_bin_exists w (some dir) = w.updated_in dir

-- The paths created up to the dump of the flash.
abbrev pub created_before : Option String → List CreatedPath
created_before none = temporary_dir ∷ original_bin ∷ []
created_before (some dir) = original_bin ∷ []

-- `--rm` removes what was created, the last first.
abbrev pub cleanup : List String → List CreatedPath → List CreatedPath
cleanup args created = if has "--rm" args || has "-r" args then reverse created else []

-- The size of a record, and where the current one starts.
unfoldable pub find_nvdata : ℕ → ℕ → List ℕ → Result (ℕ × Option ℕ)
find_nvdata offset bufsize fw = do
  size ← record_size fw offset
  size ← check_area bufsize size
  last ← or_raise out_of_fuel (scan (suc bufsize) fw size (offset + bufsize) offset none)
  ok (size, last)

-- `--status`: the two flags of the current record.
unfoldable pub show_status : List String → World → ℕ → Result (Report × List ℕ)
show_status args w last = do
  dev ← byte_at w.flash (last + 0x04)
  misc ← byte_at w.flash (last + 0x08)
  ok (
    status (bit_and dev 0x01) (bit_and misc 0x02) (cleanup args (created_before (work_dir args))),
    w.flash,
  )

-- The other branch: the flags, the checksum, the comparison, and the write.
unfoldable pub update : List String → World → ℕ → ℕ → Result (Report × List ℕ)
update args w size last = do
  fw ← edit args size last w.flash
  fw ← to_bytes fw
  guard (not (text_eq fw w.flash)) nothing_to_do
  guard (not (updated_bin_exists w (work_dir args))) updated_exists
  guard w.write_works write_failed
  ok (finished (cleanup args (created_before (work_dir args) ++ updated_bin ∷ [])), fw)

abbrev pub act : List String → World → ℕ → Option ℕ → Result (Report × List ℕ)
act args w size none = err no_nvdata
act args w size (some last) =
    if has "--status" args || has "-s" args
    then show_status args w last
    else update args w size last

-- From the return for `--dump` on.
unfoldable pub proceed : List String → World → ℕ × Option ℕ → Result (Report × List ℕ)
proceed args w (size, last) =
    if has "--dump" args then ok (dumped, w.flash) else act args w size last

unfoldable pub start : World → Result (ℕ × ℕ)
start w = do
  guard w.has_flashrom flashrom_missing
  vb2 ← or_raise log_missing w.log_has_vb2
  guard vb2 unsupported_firmware
  area ← single_area w.areas
  guard w.read_works read_failed
  ok area

abbrev pub asks_for_help : List String → Bool
asks_for_help [] = true
asks_for_help (a ∷ args) = has "--help" (a ∷ args) || has "-h" (a ∷ args)

-- The report and the contents of the flash after the run.
unfoldable pub main : List String → World → Result (Report × List ℕ)
main args w =
    if asks_for_help args
    then ok (usage, w.flash)
    else do area ← start w; found ← find_nvdata area.0 area.1 w.flash; proceed args w found
