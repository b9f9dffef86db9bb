-- ===== src/Nvdata/Edit/Seal.antt =====
-- The reserved byte and the checksum that nvdata_tool/nvdata_tool.py writes into a record.
use os_lockdown.Base.{
  ℕ, ◌+◌, ◌<◌, ◌≡◌, ◌≢◌, refl, sym, ◌∙◌, ap, true, false, some, List, arith, All-set, All-take,
  All-drop, length, length-set, get_elem?, get_elem?-set_self, get_elem?-set_ne, lt_get_elem?, set,
  set_same, drop, ◌==◌, Bool,
}
use os_lockdown.Nvdata.Result.{ok}
use os_lockdown.Nvdata.Crc.{crc8}
use os_lockdown.Nvdata.Crc.Laws.{AllBytes, crc8-lt}
use os_lockdown.Nvdata.Scan.{slice}
use os_lockdown.Nvdata.Edit.{seal}
use os_lockdown.Nvdata.Edit.Laws.{crc_place, put_byte_lt, slice-set_ge}

pub record IsSealed (v1 : Bool) (last : ℕ) (fw : List ℕ) : Type 0 where
  pub checksum : get_elem? fw (last + crc_place v1) ≡ some (crc8 (slice last (crc_place v1) fw))
  pub reserved : v1 ≡ false → get_elem? fw (last + 0x0f) ≡ some 0xff

pub record IsKept (v1 : Bool) (last : ℕ) (fw fw' : List ℕ) : Type 0 where
  pub same_length : length fw' ≡ length fw
  pub bytes : AllBytes fw'
  pub others :
      (j : ℕ) → j ≢ last + 0x0f → j ≢ last + crc_place v1 → get_elem? fw' j ≡ get_elem? fw j

AllBytes-slice : (offset n : ℕ) (fw : List ℕ) → AllBytes fw → AllBytes (slice offset n fw)
AllBytes-slice offset n fw h = All-take _ n (drop offset fw) (All-drop _ offset fw h)

module _ (last place : ℕ) where
  -- The checksum of the `place` bytes from `last`, written behind them.
  abbrev stamp : List ℕ → List ℕ
  stamp fw = set fw (last + place) (crc8 (slice last place fw))

  stamp_checksum :
      (fw : List ℕ)
      → last + place < length fw
      → get_elem? (stamp fw) (last + place) ≡ some (crc8 (slice last place (stamp fw)))
  stamp_checksum fw h =
      get_elem?-set_self fw (last + place) (crc8 (slice last place fw)) h
      ∙ ap (λ l. some (crc8 l)) (sym (slice-set_ge fw last place (last + place) _ (omega arith)))

  stamp-AllBytes : (fw : List ℕ) → AllBytes fw → AllBytes (stamp fw)
  stamp-AllBytes fw h = All-set _ fw (last + place) _ h (crc8-lt _ (AllBytes-slice last place fw h))

module _ (last : ℕ) (fw : List ℕ) (bs : AllBytes fw) where
  IsKept-stamp : (v1 : Bool) → IsKept v1 last fw (stamp last (crc_place v1) fw)
  IsKept-stamp v1 = record {
    same_length = length-set fw (last + crc_place v1) _;
    bytes = stamp-AllBytes last (crc_place v1) fw bs;
    others = λ j _ ne. get_elem?-set_ne fw (last + crc_place v1) j _ (λ e. ne (sym e));
  }

abbrev reserve : ℕ → List ℕ → List ℕ
reserve last fw = set fw (last + 0x0f) 0xff

IsKept-v2 :
    (last : ℕ) (fw : List ℕ)
    → AllBytes fw
    → IsKept false last fw (stamp last 0x3f (reserve last fw))
IsKept-v2 last fw bs =
    let mid = reserve last fw in
    let k = IsKept-stamp last mid (All-set _ fw (last + 0x0f) 0xff bs (omega arith)) false in
    record {
      same_length = k.same_length ∙ length-set fw (last + 0x0f) 0xff;
      bytes = k.bytes;
      others = λ j p q. k.others j p q ∙ get_elem?-set_ne fw (last + 0x0f) j 0xff (λ e. p (sym e));
    }

module _ (size last : ℕ) (fw : List ℕ) (bs : AllBytes fw) where
  seal_cases :
      (v1 : Bool)
      → (size == 16) ≡ v1
      → last + crc_place v1 < length fw
      → (fw' : List ℕ) × (seal size last fw ≡ ok fw') × IsSealed v1 last fw' × IsKept v1 last fw fw'
  unfolding seal
  seal_cases true e room = (
    stamp last 0x0f fw,
    rw e (put_byte_lt (last + 0x0f) _ fw room),
    record { checksum = stamp_checksum last 0x0f fw room; reserved = λ f. cc },
    IsKept-stamp last fw bs true,
  )
  seal_cases false e room =
      let mid = reserve last fw in
      let room' : last + 0x3f < length mid = omega (arith, length-set fw (last + 0x0f) 0xff) in
      (
        stamp last 0x3f mid,
        rw (
          e,
          put_byte_lt (last + 0x0f) 0xff fw (omega arith),
          put_byte_lt (last + 0x3f) _ mid room',
        ),
        record {
          checksum = stamp_checksum last 0x3f mid room';
          reserved = λ _.
              get_elem?-set_ne mid (last + 0x3f) (last + 0x0f) _ (omega arith)
              ∙ get_elem?-set_self fw (last + 0x0f) 0xff (omega arith);
        },
        IsKept-v2 last fw bs,
      )

  seal_stable : (v1 : Bool) → (size == 16) ≡ v1 → IsSealed v1 last fw → seal size last fw ≡ ok fw
  unfolding seal
  seal_stable true e s =
      rw (e, put_byte_lt _ _ fw (lt_get_elem? fw _ _ s.checksum))
        (ap ok (set_same fw _ _ s.checksum))
  seal_stable false e s =
      rw
        (
          e,
          put_byte_lt (last + 0x0f) 0xff fw (lt_get_elem? fw _ _ (s.reserved refl)),
          set_same fw (last + 0x0f) 0xff (s.reserved refl),
          put_byte_lt (last + 0x3f) _ fw (lt_get_elem? fw _ _ s.checksum),
        )
        (ap ok (set_same fw _ _ s.checksum))

-- Sealing succeeds where the record lies within the flash.
pub seal_lem :
    (size last : ℕ) (fw : List ℕ)
    → AllBytes fw
    → last + crc_place (size == 16) < length fw
    → (fw' : List ℕ) × (seal size last fw ≡ ok fw')
      × IsSealed (size == 16) last fw'
      × IsKept (size == 16) last fw fw'
seal_lem size last fw bs room = seal_cases size last fw bs (size == 16) refl room

pub seal-IsSealed :
    (size last : ℕ) (fw : List ℕ)
    → AllBytes fw
    → IsSealed (size == 16) last fw
    → seal size last fw ≡ ok fw
seal-IsSealed size last fw bs s = seal_stable size last fw bs (size == 16) refl s
