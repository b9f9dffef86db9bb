-- ===== src/Nvdata/Command/Twice.antt =====
-- `main` of nvdata_tool/nvdata_tool.py run again after an update.
use os_lockdown.Base.{
  ℕ, zero, suc, ◌+◌, ◌*◌, ◌/◌, ◌%◌, ◌≤◌, ◌<◌, ◌≡◌, refl, sym, ◌∙◌, ◌⊎◌, inl, inr, false, ◌||◌,
  Option, none, some, String, List, [], ◌∷◌, arith, length, get_elem?, text_eq_iff, ◌==◌,
}
use mathlib.Core.Path.{subst}
use os_lockdown.Nvdata.Result.{ok, err, nothing_to_do}
use os_lockdown.Nvdata.Crc.Laws.{AllBytes}
use os_lockdown.Nvdata.Scan.{slice, is_blank, record_size}
use os_lockdown.Nvdata.Scan.Laws.{last_of, IsRun}
use os_lockdown.Nvdata.Scan.Rescan.{IsRun-edited}
use os_lockdown.Nvdata.Edit.{edit}
use os_lockdown.Nvdata.Edit.Laws.{crc_place}
use os_lockdown.Nvdata.Edit.Blank.{record_bytes, sealed_not_blank}
use os_lockdown.Nvdata.Edit.Whole.{IsEdited, edit_lem, crc_place_late}
use os_lockdown.Nvdata.Command.{
  World, Report, start, find_nvdata, proceed, update, asks_for_help, main,
}
use os_lockdown.Nvdata.Command.Find.{
  record_size_cases, whole_area, find_nvdata-run, find_nvdata-IsFound,
}
use os_lockdown.Nvdata.Command.Laws.{reads_only, main-eq-proceed, to_bytes-AllBytes, update_reduced}

record_bytes_size : (size : ℕ) → (size ≡ 16) ⊎ (size ≡ 64) → record_bytes (size == 16) ≡ size
record_bytes_size size (inl e) = rw e
record_bytes_size size (inr e) = rw e

crc_place-lt :
    (size : ℕ) → (size ≡ 16) ⊎ (size ≡ 64) → (15 < size) × (crc_place (size == 16) < size)
crc_place-lt size (inl e) = rw e (omega arith)
crc_place-lt size (inr e) = rw e (omega arith)

record_size-congr :
    (fw out : List ℕ) (offset : ℕ)
    → get_elem? out offset ≡ get_elem? fw offset
    → record_size out offset ≡ record_size fw offset
unfolding record_size
record_size-congr fw out offset e = rw e

update_again :
    (args : List String) (w : World) (size last : ℕ) (out : List ℕ)
    → AllBytes out
    → edit args size last out ≡ ok out
    → update args (record w { flash = out }) size last ≡ err nothing_to_do
unfolding update
update_again args w size last out bs e =
    rw (e, to_bytes-AllBytes out bs, (text_eq_iff out out).1 refl)

-- The record that the run of `suc m` records ends with, edited within the flash `fw`.
module _ (args : List String) (fw out : List ℕ) (offset bufsize size m : ℕ)
    (header : record_size fw offset ≡ ok size) (exact : bufsize % size ≡ 0)
    (run : IsRun fw size offset (bufsize / size) (suc m))
    (edited : IsEdited args (size == 16) (offset + m * size) fw out) where
  outside_kept :
      (j : ℕ)
      → (j < offset + m * size) ⊎ (offset + m * size + size ≤ j)
      → get_elem? out j ≡ get_elem? fw j
  outside_kept j h =
      let places = crc_place-lt size (record_size_cases fw offset size header) in
      edited.others j (omega arith) (omega arith) (omega arith) (omega arith)

  header_kept : record_size out offset ≡ ok size
  header_kept =
      record_size-congr fw out offset (
        edited.others offset (omega arith) (omega arith) (omega arith)
          (omega (arith, crc_place_late (size == 16))))
      ∙ header

  find_nvdata_again : find_nvdata offset bufsize out ≡ ok (size, some (offset + m * size))
  find_nvdata_again =
      find_nvdata-run out offset bufsize size (suc m) header_kept exact
        (IsRun-edited fw out size offset (bufsize / size) m outside_kept filled run)
    where
      sizes : (size ≡ 16) ⊎ (size ≡ 64)
      sizes = record_size_cases fw offset size header

      filled : is_blank size (slice (offset + m * size) size out) ≡ false
      filled =
          subst (λ b. is_blank b (slice (offset + m * size) b out) ≡ false)
            (record_bytes_size size sizes)
            (sealed_not_blank (size == 16) (offset + m * size) out edited.is_sealed)

proceed-update :
    (args : List String) (w : World) (size last : ℕ)
    → reads_only args ≡ false
    → proceed args w (size, some last) ≡ update args w size last
unfolding proceed
proceed-update args w size last h = ground arith

proceed-none :
    (args : List String) (w : World) (size : ℕ) (r : Report) (out : List ℕ)
    → reads_only args ≡ false
    → proceed args w (size, none) ≡ ok (r, out)
    → ⊥
unfolding proceed
proceed-none args w size r out asked h = ground arith

start-area :
    (w : World) (offset bufsize : ℕ) (area : ℕ × ℕ)
    → w.areas ≡ (offset, bufsize) ∷ []
    → start w ≡ ok area
    → area ≡ (offset, bufsize)
unfolding start
start-area w offset bufsize area e h = ground arith

start-flash : (w : World) (out : List ℕ) → start (record w { flash = out }) ≡ start w
unfolding start
start-flash w out = refl

main_from_update :
    (args : List String) (w : World) (offset bufsize size last : ℕ)
    → asks_for_help args ≡ false
    → reads_only args ≡ false
    → start w ≡ ok (offset, bufsize)
    → find_nvdata offset bufsize w.flash ≡ ok (size, some last)
    → main args w ≡ update args w size last
unfolding main
main_from_update args w offset bufsize size last help ro started found =
    rw (help, started, found, proceed-update args w size last ro)

-- The whole second run, from what the first run found and wrote.
main_again :
    (args : List String) (w : World) (offset bufsize size m : ℕ) (r : Report) (out : List ℕ)
    → AllBytes w.flash
    → offset + bufsize ≤ length w.flash
    → asks_for_help args ≡ false
    → reads_only args ≡ false
    → start w ≡ ok (offset, bufsize)
    → record_size w.flash offset ≡ ok size
    → bufsize % size ≡ 0
    → IsRun w.flash size offset (bufsize / size) (suc m)
    → update args w size (offset + m * size) ≡ ok (r, out)
    → main args (record w { flash = out }) ≡ err nothing_to_do
main_again args w offset bufsize size m r out bs room help ro started header exact run e =
    let sizes = record_size_cases w.flash offset size header in
    let whole = whole_area bufsize size sizes exact in
    let places = crc_place-lt size sizes in
    let fits : m * size + size ≤ bufsize / size * size = grind (arith, run.within) in
    let (fw', e1, edited, e2) = edit_lem args size (offset + m * size) w.flash bs (omega arith) in
    let (same, _) = update_reduced args w size (offset + m * size) fw' edited.bytes e1 r out e in
    rw same (
      main_from_update args (record w { flash = fw' }) offset bufsize size (offset + m * size) help
        ro (start-flash w fw' ∙ started)
        (find_nvdata_again args w.flash fw' offset bufsize size m header exact run edited)
      ∙ update_again args w size (offset + m * size) fw' edited.bytes e2)

-- Where the flash holds bytes and the area that the log names lies within it: after a run that has
-- written the flash, the same command on the flash as written raises "nothing to do".
pub main_twice :
    (args : List String) (w : World) (offset bufsize : ℕ) (r : Report) (out : List ℕ)
    → AllBytes w.flash
    → w.areas ≡ (offset, bufsize) ∷ []
    → offset + bufsize ≤ length w.flash
    → (asks_for_help args || reads_only args) ≡ false
    → main args w ≡ ok (r, out)
    → main args (record w { flash = out }) ≡ err nothing_to_do
main_twice args w offset bufsize r out bs one room writes h =
    let help : asks_for_help args ≡ false = ground arith in
    let ro : reads_only args ≡ false = ground arith in
    let (area, (size, last), started, found, e) = main-eq-proceed args w r out help h in
    let here = start-area w offset bufsize area one started in
    let found' = find_nvdata-IsFound w.flash offset bufsize size last (rw here at found) in
    go size last help ro (rw here at started) found'.0 found'.1 found'.2.0 found'.2.1 found'.2.2 e
  where
    go :
        (size : ℕ) (last : Option ℕ)
        → asks_for_help args ≡ false
        → reads_only args ≡ false
        → start w ≡ ok (offset, bufsize)
        → record_size w.flash offset ≡ ok size
        → bufsize % size ≡ 0
        → (n : ℕ) → IsRun w.flash size offset (bufsize / size) n
        → last ≡ last_of size offset n none
        → proceed args w (size, last) ≡ ok (r, out)
        → main args (record w { flash = out }) ≡ err nothing_to_do
    go size last help ro started header exact zero run place e =
        absurd (proceed-none args w size r out ro (rw place at e))
    go size last help ro started header exact (suc m) run place e =
        main_again args w offset bufsize size m r out bs room help ro started header exact run
          (sym (proceed-update args w size (offset + m * size) ro) ∙ rw place at e)
