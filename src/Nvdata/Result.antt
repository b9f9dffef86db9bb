-- ===== src/Nvdata/Result.antt =====
-- The exceptions that a run of nvdata_tool/nvdata_tool.py may end with.
use os_lockdown.Base.{ℕ, List, get_elem?}
pub use os_lockdown.Base.Outcome.{Outcome, ok, err, ◌>>=◌, ◌>>◌, or_raise, raise_if, >>=-ok}

pub data Error : Type 0 where
  flashrom_missing log_missing unsupported_firmware nvram_count read_failed index_error : Error
  bad_header area_size no_nvdata value_error nothing_to_do updated_exists write_failed : Error
  out_of_fuel : Error

abbrev pub Result {ℓ} : Type ℓ → Type ℓ
Result A = Outcome Error A

-- `fw[i]`
abbrev pub byte_at : List ℕ → ℕ → Result ℕ
byte_at fw i = or_raise index_error (get_elem? fw i)
