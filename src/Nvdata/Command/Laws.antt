-- ===== src/Nvdata/Command/Laws.antt =====
-- What a run of the command leaves in the flash.
use os_lockdown.Base.{
  ℕ, ◌≡◌, refl, inl, inr, Bool, true, false, ◌||◌, Option, none, some, String, List, [], ◌∷◌, arith,
  text_eq, Bool-cases,
}
use os_lockdown.Nvdata.Result.{ok, >>=-ok}
use os_lockdown.Nvdata.Crc.Laws.{AllBytes}
use os_lockdown.Nvdata.Edit.{has, edit, all_bytes, to_bytes}
use os_lockdown.Nvdata.Command.{
  World, Report, start, find_nvdata, show_status, update, asks_for_help, main, proceed,
}

all_bytes-AllBytes : (fw : List ℕ) → AllBytes fw → all_bytes fw ≡ true
all_bytes-AllBytes [] h = refl
all_bytes-AllBytes (b ∷ fw) h = ground (arith, h.0, all_bytes-AllBytes fw h.1)

pub to_bytes-AllBytes : (fw : List ℕ) → AllBytes fw → to_bytes fw ≡ ok fw
unfolding to_bytes
to_bytes-AllBytes fw h = rw (all_bytes-AllBytes fw h)

pub update_reduced :
    (args : List String) (w : World) (size last : ℕ) (fw : List ℕ)
    → AllBytes fw
    → edit args size last w.flash ≡ ok fw
    → (r : Report) (out : List ℕ) → update args w size last ≡ ok (r, out)
    → (out ≡ fw) × (text_eq fw w.flash ≡ false)
unfolding update
update_reduced args w size last fw bs e r out h = ground (arith, to_bytes-AllBytes fw bs)

show_status_flash :
    (args : List String) (w : World) (last : ℕ) (r : Report) (out : List ℕ)
    → show_status args w last ≡ ok (r, out)
    → out ≡ w.flash
unfolding show_status
show_status_flash args w last r out h = ground arith

abbrev pub reads_only : List String → Bool
reads_only args = has "--dump" args || has "--status" args || has "-s" args

proceed_leaves_flash :
    (args : List String) (w : World) (size : ℕ) (last : Option ℕ) (r : Report) (out : List ℕ)
    → reads_only args ≡ true
    → proceed args w (size, last) ≡ ok (r, out)
    → out ≡ w.flash
unfolding proceed
proceed_leaves_flash args w size none r out asked h = ground arith
proceed_leaves_flash args w size (some last) r out asked h =
    ground (arith, show_status_flash args w last r out)

-- A successful run that does more than show the usage has found a record's size and place.
pub main-eq-proceed :
    (args : List String) (w : World) (r : Report) (out : List ℕ)
    → asks_for_help args ≡ false
    → main args w ≡ ok (r, out)
    → (area : ℕ × ℕ) × (found : ℕ × Option ℕ) × (start w ≡ ok area)
      × (find_nvdata area.0 area.1 w.flash ≡ ok found)
      × (proceed args w found ≡ ok (r, out))
unfolding main
main-eq-proceed args w r out asked h =
    let (area, started, h1) = >>=-ok (start w) _ _ (rw asked at h) in
    let (found, e, h2) = >>=-ok (find_nvdata area.0 area.1 w.flash) _ _ h1 in
    (area, found, started, e, h2)

main_help :
    (args : List String) (w : World) (r : Report) (out : List ℕ)
    → asks_for_help args ≡ true
    → main args w ≡ ok (r, out)
    → out ≡ w.flash
unfolding main
main_help args w r out asked h = let e = rw asked at h in cc

-- A run with --help, --dump or --status, or with no arguments at all, leaves the flash as it was.
pub main_leaves_flash :
    (args : List String) (w : World) (r : Report) (out : List ℕ)
    → (asks_for_help args || reads_only args) ≡ true
    → main args w ≡ ok (r, out)
    → out ≡ w.flash
main_leaves_flash args w r out asked h = elim (Bool-cases (asks_for_help args)) [
  | inl help ↦ main_help args w r out help h
  | inr more ↦
      let (area, found, _, _, e) = main-eq-proceed args w r out more h in
      proceed_leaves_flash args w found.0 found.1 r out (rw more at asked) e
]
