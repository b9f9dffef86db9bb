-- ===== src/Nvdata/Edit/Blank.antt =====
-- Sealed records of nvdata_tool/nvdata_tool.py and blank ones.
use mathlib.Core.Option.{some-injective}
use os_lockdown.Base.{
  ℕ, ◌+◌, ◌≡◌, ◌≢◌, sym, ◌∙◌, ap, some, Bool, true, false, List, arith, get_elem?, take, drop,
  replicate, text_eq_iff, Bool-cases, inl, inr,
}
use os_lockdown.Base.Slices.{get_elem?-drop, get_elem?-take, take-take}
use os_lockdown.Nvdata.Crc.{crc8}
use os_lockdown.Nvdata.Scan.{slice, is_blank}
use os_lockdown.Nvdata.Edit.Laws.{crc_place}
use os_lockdown.Nvdata.Edit.Seal.{IsSealed}

abbrev pub record_bytes : Bool → ℕ
record_bytes true = 16
record_bytes false = 64

blank_checksum : (v1 : Bool) → crc8 (replicate (crc_place v1) 0xff) ≢ 0xff
unfolding crc8
blank_checksum true = omega arith
blank_checksum false = omega arith

blank_bytes :
    (v1 : Bool) (last : ℕ) (fw : List ℕ)
    → slice last (record_bytes v1) fw ≡ replicate (record_bytes v1) 0xff
    → (get_elem? fw (last + crc_place v1) ≡ some 0xff)
      × (slice last (crc_place v1) fw ≡ replicate (crc_place v1) 0xff)
blank_bytes true last fw h = (
  sym (get_elem?-drop fw last 15)
      ∙ sym (get_elem?-take (drop last fw) 16 15 (omega arith))
      ∙ ap (λ l. get_elem? l 15) h,
  sym (take-take (drop last fw) 15 16 (omega arith)) ∙ ap (take 15) h,
)
blank_bytes false last fw h = (
  sym (get_elem?-drop fw last 63)
      ∙ sym (get_elem?-take (drop last fw) 64 63 (omega arith))
      ∙ ap (λ l. get_elem? l 63) h,
  sym (take-take (drop last fw) 63 64 (omega arith)) ∙ ap (take 63) h,
)

pub sealed_not_blank :
    (v1 : Bool) (last : ℕ) (fw : List ℕ)
    → IsSealed v1 last fw
    → is_blank (record_bytes v1) (slice last (record_bytes v1) fw) ≡ false
unfolding is_blank
sealed_not_blank v1 last fw s =
    elim (Bool-cases (is_blank (record_bytes v1) (slice last (record_bytes v1) fw))) [
      | inr filled ↦ filled
      | inl blank ↦
          let (at_end, below) = blank_bytes v1 last fw ((text_eq_iff _ _).0 blank) in
          absurd (
            blank_checksum v1
              (ap crc8 (sym below) ∙ sym (some-injective _ _ (sym at_end ∙ s.checksum))))
    ]
