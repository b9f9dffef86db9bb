-- ===== src/Nvdata/Edit/Laws.antt =====
-- The edit by nvdata_tool/nvdata_tool.py of a record that lies within the flash, step by step.
use Prim.Native.Nat.{bit_and, bit_or}
use os_lockdown.Base.{
  ℕ, ◌+◌, ◌-◌, ◌≤◌, ◌<◌, ◌≡◌, refl, sym, ap, ◌⊎◌, inl, inr, true, false, Bool, ◌||◌, ◌&&◌, String,
  some, List, arith, length, get_elem?, lt_get_elem?, set, set_same, take-set_ge, drop-set_ge, drop,
  leb, ◌==◌, if◌then◌else◌,
}
use os_lockdown.Base.Bits.{all_below, all_below_sound}
use os_lockdown.Nvdata.Result.{ok}
use os_lockdown.Nvdata.Scan.{slice}
use os_lockdown.Nvdata.Edit.{
  has, put_byte, set_bits, clear_bits, edit_usb_boot, edit_boot_on_ac_detect,
}

-- What the options ask for, and the value that a flag byte gets.
pub data Change : Type 0 where
  turn_on turn_off leave : Change

abbrev pub choose : Bool → Bool → Change
choose on off = if on then Change.turn_on else if off then Change.turn_off else Change.leave

abbrev pub usb_change : List String → Change
usb_change args =
    choose (has "--enable-usb-boot" args || has "-e" args)
      (has "--disable-usb-boot" args || has "-d" args)

abbrev pub ac_change : List String → Change
ac_change args =
    choose (has "--enable-boot-on-ac-detect" args) (has "--disable-boot-on-ac-detect" args)

abbrev pub apply : Change → ℕ → ℕ → ℕ
apply turn_on flag b = bit_or b flag
apply turn_off flag b = b - bit_and b flag
apply leave flag b = b

-- The place of the checksum, in a record of 16 bytes and in one of 64.
abbrev pub crc_place : Bool → ℕ
crc_place true = 0x0f
crc_place false = 0x3f

byte_ok : ℕ → ℕ → Bool
byte_ok flag b =
    leb (bit_or b flag) 255
    && leb (b - bit_and b flag) 255
    && bit_or (bit_or b flag) flag == bit_or b flag
    && (b - bit_and b flag) - bit_and (b - bit_and b flag) flag == b - bit_and b flag

usb_table : all_below 256 (byte_ok 0x01) ≡ true
unfolding all_below byte_ok
usb_table = refl

ac_table : all_below 256 (byte_ok 0x02) ≡ true
unfolding all_below byte_ok
ac_table = refl

byte_ok_flags : (flag b : ℕ) → (flag ≡ 1) ⊎ (flag ≡ 2) → b < 256 → byte_ok flag b ≡ true
byte_ok_flags flag b (inl e) h = rw e (all_below_sound 256 (byte_ok 1) b h usb_table)
byte_ok_flags flag b (inr e) h = rw e (all_below_sound 256 (byte_ok 2) b h ac_table)

pub apply_laws :
    (c : Change) (flag b : ℕ)
    → (flag ≡ 1) ⊎ (flag ≡ 2)
    → b < 256
    → (apply c flag b < 256) × (apply c flag (apply c flag b) ≡ apply c flag b)
unfolding byte_ok
apply_laws turn_on flag b f h = ground (arith, byte_ok_flags flag b f h)
apply_laws turn_off flag b f h = ground (arith, byte_ok_flags flag b f h)
apply_laws leave flag b f h = (h, refl)

pub put_byte_lt : (i v : ℕ) (fw : List ℕ) → i < length fw → put_byte i v fw ≡ ok (set fw i v)
unfolding put_byte
put_byte_lt i v fw h = ground arith

change-eq-set :
    (on off : Bool) (i flag b : ℕ) (fw : List ℕ)
    → get_elem? fw i ≡ some b
    → (if on then set_bits i flag fw else if off then clear_bits i flag fw else ok fw)
      ≡ ok (set fw i (apply (choose on off) flag b))
unfolding set_bits clear_bits
change-eq-set true off i flag b fw h = rw (h, put_byte_lt i _ fw (lt_get_elem? fw i b h))
change-eq-set false true i flag b fw h = rw (h, put_byte_lt i _ fw (lt_get_elem? fw i b h))
change-eq-set false false i flag b fw h = ap ok (sym (set_same fw i b h))

pub edit_usb_boot-eq-set :
    (args : List String) (last b : ℕ) (fw : List ℕ)
    → get_elem? fw (last + 0x04) ≡ some b
    → edit_usb_boot args last fw ≡ ok (set fw (last + 0x04) (apply (usb_change args) 0x01 b))
unfolding edit_usb_boot
edit_usb_boot-eq-set args last b fw h =
    change-eq-set (has "--enable-usb-boot" args || has "-e" args)
      (has "--disable-usb-boot" args || has "-d" args) (last + 0x04) 0x01 b fw h

pub edit_boot_on_ac_detect-eq-set :
    (args : List String) (last b : ℕ) (fw : List ℕ)
    → get_elem? fw (last + 0x08) ≡ some b
    → edit_boot_on_ac_detect args last fw
      ≡ ok (set fw (last + 0x08) (apply (ac_change args) 0x02 b))
unfolding edit_boot_on_ac_detect
edit_boot_on_ac_detect-eq-set args last b fw h =
    change-eq-set (has "--enable-boot-on-ac-detect" args) (has "--disable-boot-on-ac-detect" args)
      (last + 0x08) 0x02 b fw h

-- Writing at or behind the end of a slice leaves the slice alone.
pub slice-set_ge :
    (fw : List ℕ) (offset n i v : ℕ)
    → offset + n ≤ i
    → slice offset n (set fw i v) ≡ slice offset n fw
slice-set_ge fw offset n i v h =
    rw (drop-set_ge fw offset i (i - offset) v (omega arith))
      (take-set_ge (drop offset fw) n (i - offset) v (omega arith))
