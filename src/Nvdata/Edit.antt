-- ===== src/Nvdata/Edit.antt =====
-- The edit of `main` in nvdata_tool/nvdata_tool.py: the flags that the options name, and the
-- checksum of the record.
pub mod Laws
pub mod Seal
pub mod Whole
pub mod Blank
use Prim.Native.Nat.{bit_and, bit_or}
use os_lockdown.Base.{
  ℕ, ◌+◌, ◌-◌, Bool, true, false, ◌||◌, String, List, [], ◌∷◌, ltb, ◌==◌, if◌then◌else◌, any, set,
  length, ◌=ₛ◌,
}
use os_lockdown.Nvdata.Result.{Result, ok, err, index_error, value_error, ◌>>=◌, byte_at}
use os_lockdown.Nvdata.Crc.{crc8}
use os_lockdown.Nvdata.Scan.{slice}

-- `name in args`
abbrev pub has : String → List String → Bool
has name args = any (λ a. a =ₛ name) args

-- `fw[i] = v`
unfoldable pub put_byte : ℕ → ℕ → List ℕ → Result (List ℕ)
put_byte i v fw = if ltb i (length fw) then ok (set fw i v) else err index_error

-- `fw[i] |= flag`
unfoldable pub set_bits : ℕ → ℕ → List ℕ → Result (List ℕ)
unfolding put_byte
set_bits i flag fw = do b ← byte_at fw i; put_byte i (bit_or b flag) fw

-- `fw[i] &= ~flag`
unfoldable pub clear_bits : ℕ → ℕ → List ℕ → Result (List ℕ)
unfolding put_byte
clear_bits i flag fw = do b ← byte_at fw i; put_byte i (b - bit_and b flag) fw

-- `VB2_NV_OFFS_DEV`, `VB2_NV_DEV_FLAG_EXTERNAL`
unfoldable pub edit_usb_boot : List String → ℕ → List ℕ → Result (List ℕ)
unfolding set_bits clear_bits
edit_usb_boot args last fw =
    if has "--enable-usb-boot" args || has "-e" args
    then set_bits (last + 0x04) 0x01 fw
    else if has "--disable-usb-boot" args || has "-d" args
    then clear_bits (last + 0x04) 0x01 fw
    else ok fw

-- `VB2_NV_OFFS_MISC`, `VB2_NV_MISC_BOOT_ON_AC_DETECT`
unfoldable pub edit_boot_on_ac_detect : List String → ℕ → List ℕ → Result (List ℕ)
unfolding set_bits clear_bits
edit_boot_on_ac_detect args last fw =
    if has "--enable-boot-on-ac-detect" args
    then set_bits (last + 0x08) 0x02 fw
    else if has "--disable-boot-on-ac-detect" args
    then clear_bits (last + 0x08) 0x02 fw
    else ok fw

-- The checksum: in byte 15 of a record of 16 bytes; else in byte 63, with byte 15 set to 0xFF.
unfoldable pub seal : ℕ → ℕ → List ℕ → Result (List ℕ)
unfolding put_byte
seal size last fw = if size == 16 then put_byte (last + 0x0f) (crc8 (slice last 0x0f fw)) fw else do
  fw ← put_byte (last + 0x0f) 0xff fw
  put_byte (last + 0x3f) (crc8 (slice last 0x3f fw)) fw

unfoldable pub edit : List String → ℕ → ℕ → List ℕ → Result (List ℕ)
unfolding edit_usb_boot edit_boot_on_ac_detect seal
edit args size last fw = do
  fw ← edit_usb_boot args last fw
  fw ← edit_boot_on_ac_detect args last fw
  seal size last fw

abbrev pub all_bytes : List ℕ → Bool
all_bytes [] = true
all_bytes (b ∷ fw) = if ltb b 256 then all_bytes fw else false

-- `bytes(fw)`, which refuses a number that is no byte.
unfoldable pub to_bytes : List ℕ → Result (List ℕ)
to_bytes fw = if all_bytes fw then ok fw else err value_error
