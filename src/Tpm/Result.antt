-- ===== src/Tpm/Result.antt =====
-- How a run of AutoTpmEncrypt/auto_tpm_encrypt.py ends early: `die`, or an exception that nothing
-- catches. Fuel of the model that runs out is an error of its own.
use os_lockdown.Base.{Bool}
pub use os_lockdown.Base.Outcome.{
  Outcome, ok, err, ◌>>=◌, ◌>>◌, or_raise, raise_if, raise_if-ok, >>=-ok, >>-ok, ok-injective,
}

pub data Error : Type 0 where
  die name_error value_error key_error os_error type_error called_process_error assertion_error
        out_of_fuel :
      Error

abbrev pub Result {ℓ} : Type ℓ → Type ℓ
Result A = Outcome Error A

-- `if b: die(...)`
abbrev pub die_if : Bool → Result (Unit {0})
die_if = raise_if die

abbrev pub returned {ℓ} : {A : Type ℓ} → A → Result A
returned a = ok a
