-- ===== src/Nvdata/Edit/Whole.antt =====
-- The whole edit of nvdata_tool/nvdata_tool.py: the flags, then the checksum.
use os_lockdown.Base.{
  ℕ, ◌+◌, ◌<◌, ◌≡◌, ◌≢◌, refl, sym, ◌∙◌, ap, inl, inr, true, false, some, String, List, arith,
  All-set, All-get_elem?, length, length-set, get_elem?, get_elem?-set_self, get_elem?-set_ne,
  get_elem?_lt, lt_get_elem?, set, set_same, ◌==◌, Bool,
}
use mathlib.Core.Option.{some-injective}
use os_lockdown.Nvdata.Result.{ok}
use os_lockdown.Nvdata.Crc.Laws.{AllBytes}
use os_lockdown.Nvdata.Edit.{edit, seal}
use os_lockdown.Nvdata.Edit.Laws.{
  usb_change, ac_change, apply, apply_laws, crc_place, edit_usb_boot-eq-set,
  edit_boot_on_ac_detect-eq-set,
}
use os_lockdown.Nvdata.Edit.Seal.{IsSealed, IsKept, seal_lem, seal-IsSealed}

pub record IsEdited (args : List String) (v1 : Bool) (last : ℕ) (fw fw' : List ℕ) : Type 0 where
  pub same_length : length fw' ≡ length fw
  pub bytes : AllBytes fw'
  pub is_sealed : IsSealed v1 last fw'
  pub usb_boot :
      (b : ℕ)
      → get_elem? fw (last + 0x04) ≡ some b
      → get_elem? fw' (last + 0x04) ≡ some (apply (usb_change args) 0x01 b)
  pub boot_on_ac_detect :
      (b : ℕ)
      → get_elem? fw (last + 0x08) ≡ some b
      → get_elem? fw' (last + 0x08) ≡ some (apply (ac_change args) 0x02 b)
  pub others :
      (j : ℕ)
      → j ≢ last + 0x04
      → j ≢ last + 0x08
      → j ≢ last + 0x0f
      → j ≢ last + crc_place v1
      → get_elem? fw' j ≡ get_elem? fw j

pub crc_place_late : (v1 : Bool) → 0x0f < crc_place v1 + 1
crc_place_late true = omega arith
crc_place_late false = omega arith

module _ (args : List String) (size last : ℕ) (fw : List ℕ) (bs : AllBytes fw) (b4 b8 : ℕ)
    (h4 : get_elem? fw (last + 0x04) ≡ some b4) (h8 : get_elem? fw (last + 0x08) ≡ some b8) where
  new4 : ℕ
  new4 = apply (usb_change args) 0x01 b4

  new8 : ℕ
  new8 = apply (ac_change args) 0x02 b8

  flagged : List ℕ
  flagged = set (set fw (last + 0x04) new4) (last + 0x08) new8

  edit-eq-seal : edit args size last fw ≡ seal size last flagged
  unfolding edit flagged new4 new8
  edit-eq-seal = rw (
    edit_usb_boot-eq-set args last b4 fw h4,
    edit_boot_on_ac_detect-eq-set args last b8 (set fw (last + 0x04) new4)
        (get_elem?-set_ne fw (last + 0x04) (last + 0x08) new4 (omega arith) ∙ h8),
  )

  flagged-AllBytes : AllBytes flagged
  unfolding flagged new4 new8
  flagged-AllBytes =
      All-set _ _ (last + 0x08) _
        (All-set _ fw (last + 0x04) _ bs
          (apply_laws _ 0x01 b4 (inl refl) (All-get_elem? _ fw _ b4 bs h4)).0)
        (apply_laws _ 0x02 b8 (inr refl) (All-get_elem? _ fw _ b8 bs h8)).0

  length-flagged : length flagged ≡ length fw
  unfolding flagged
  length-flagged = length-set _ (last + 0x08) new8 ∙ length-set fw (last + 0x04) new4

  flagged_usb : get_elem? flagged (last + 0x04) ≡ some new4
  unfolding flagged
  flagged_usb =
      get_elem?-set_ne _ (last + 0x08) (last + 0x04) new8 (omega arith)
      ∙ get_elem?-set_self fw (last + 0x04) new4 (lt_get_elem? fw _ b4 h4)

  flagged_ac : get_elem? flagged (last + 0x08) ≡ some new8
  unfolding flagged
  flagged_ac =
      get_elem?-set_self _ (last + 0x08) new8
        (omega (arith, length-set fw (last + 0x04) new4, lt_get_elem? fw (last + 0x08) b8 h8))

  flagged_others :
      (j : ℕ) → j ≢ last + 0x04 → j ≢ last + 0x08 → get_elem? flagged j ≡ get_elem? fw j
  unfolding flagged
  flagged_others j p q =
      get_elem?-set_ne _ (last + 0x08) j new8 (λ e. q (sym e))
      ∙ get_elem?-set_ne fw (last + 0x04) j new4 (λ e. p (sym e))

  edited :
      {v1 : Bool} {fw' : List ℕ}
      → IsSealed v1 last fw'
      → IsKept v1 last flagged fw'
      → IsEdited args v1 last fw fw'
  unfolding new4 new8
  edited {v1} sealed kept = record {
    same_length = kept.same_length ∙ length-flagged;
    bytes = kept.bytes;
    is_sealed = sealed;
    usb_boot = λ b h.
        rw (some-injective _ _ (sym h ∙ h4)) (
          kept.others (last + 0x04) (omega arith) (omega (arith, crc_place_late v1)) ∙ flagged_usb);
    boot_on_ac_detect = λ b h.
        rw (some-injective _ _ (sym h ∙ h8))
          (kept.others (last + 0x08) (omega arith) (omega (arith, crc_place_late v1)) ∙ flagged_ac);
    others = λ j p q r t. kept.others j r t ∙ flagged_others j p q;
  }

-- A second edit by the same options leaves an edited flash as it is.
edit-IsEdited :
    (args : List String) (size last b4 b8 : ℕ) (fw fw' : List ℕ)
    → AllBytes fw
    → get_elem? fw (last + 0x04) ≡ some b4
    → get_elem? fw (last + 0x08) ≡ some b8
    → IsEdited args (size == 16) last fw fw'
    → edit args size last fw' ≡ ok fw'
unfolding flagged new4 new8
edit-IsEdited args size last b4 b8 fw fw' bs h4 h8 d =
    let n4 = apply (usb_change args) 0x01 b4 in
    let n8 = apply (ac_change args) 0x02 b8 in
    let g4 : get_elem? fw' (last + 0x04) ≡ some n4 = d.usb_boot b4 h4 in
    let g8 : get_elem? fw' (last + 0x08) ≡ some n8 = d.boot_on_ac_detect b8 h8 in
    let i4 = (apply_laws (usb_change args) 0x01 b4 (inl refl) (All-get_elem? _ fw _ b4 bs h4)).1 in
    let i8 = (apply_laws (ac_change args) 0x02 b8 (inr refl) (All-get_elem? _ fw _ b8 bs h8)).1 in
    let same4 : set fw' (last + 0x04) (apply (usb_change args) 0x01 n4) ≡ fw' =
      rw i4 (set_same fw' (last + 0x04) n4 g4) in
    let same8 : set fw' (last + 0x08) (apply (ac_change args) 0x02 n8) ≡ fw' =
      rw i8 (set_same fw' (last + 0x08) n8 g8) in
    edit-eq-seal args size last fw' d.bytes n4 n8 g4 g8
    ∙ ap (seal size last)
        (ap (λ l. set l (last + 0x08) (apply (ac_change args) 0x02 n8)) same4 ∙ same8)
    ∙ seal-IsSealed size last fw' d.bytes d.is_sealed

-- Where the record lies within a flash of bytes, the edit raises nothing: the flags are as the
-- options ask, the checksum is that of the record as written, no byte outside the two flag bytes,
-- byte 15 and the checksum changes, and a second edit by the same options changes nothing at all.
pub edit_lem :
    (args : List String) (size last : ℕ) (fw : List ℕ)
    → AllBytes fw
    → last + crc_place (size == 16) < length fw
    → (fw' : List ℕ) × (edit args size last fw ≡ ok fw')
      × IsEdited args (size == 16) last fw fw'
      × (edit args size last fw' ≡ ok fw')
edit_lem args size last fw bs room =
    let late = crc_place_late (size == 16) in
    let (b4, h4) = get_elem?_lt fw (last + 0x04) (omega arith) in
    let (b8, h8) = get_elem?_lt fw (last + 0x08) (omega arith) in
    let mid = flagged args size last fw bs b4 b8 h4 h8 in
    let (fw', e, sealed, kept) =
      seal_lem size last mid (flagged-AllBytes args size last fw bs b4 b8 h4 h8)
        (rw (length-flagged args size last fw bs b4 b8 h4 h8) room) in
    let d = edited args size last fw bs b4 b8 h4 h8 sealed kept in
    (
      fw',
      edit-eq-seal args size last fw bs b4 b8 h4 h8 ∙ e,
      d,
      edit-IsEdited args size last b4 b8 fw fw' bs h4 h8 d,
    )
