-- ===== src/Lizard/Bounds/Alt.antt =====
-- The two screens of LizardShell.py that take each other's place.
use os_lockdown.Base.{sym, subst, true, Option, none, some, both_branches}
use os_lockdown.Lizard.State.{Rows, State, Size}
use os_lockdown.Lizard.Layout.{redraw_if_terminal_resized}
use os_lockdown.Lizard.Escape.CarryOut.{other_rows, enable_alt, disable_alt}
use os_lockdown.Lizard.Bounds.{IsSized, IsSizedAlt, HasSize, IsTurned}
use os_lockdown.Lizard.Bounds.Sizes.{new_screen-IsSized}
use os_lockdown.Lizard.Bounds.Reads.{same_size}

pub kept-IsTurned :
    (size : Size) (s : State) → IsTurned size s → IsTurned size (redraw_if_terminal_resized size s)
kept-IsTurned size s t = subst (IsTurned size) (sym (same_size size s t.fits)) t

module _ (size : Size) (s : State) (t : IsTurned size s) where
  -- Other rows on the screen and behind it.
  with_screens :
      (rows : Rows) (alt : Option Rows)
      → IsSized s.view.width s.view.height rows
      → IsSizedAlt s.view.width s.view.height alt
      → HasSize size s.view.width s.view.height rows alt
  with_screens rows alt sized alt_sized = record {
    large_enough = t.fits.large_enough;
    same_width = t.fits.same_width;
    same_height = t.fits.same_height;
    rows = sized;
    alt_rows = alt_sized;
  }

  other_rows-IsSized :
      (alt : Option Rows)
      → IsSizedAlt s.view.width s.view.height alt
      → IsSized s.view.width s.view.height (other_rows (record s.view { alt_screen = alt }))
  other_rows-IsSized none sized = new_screen-IsSized s.view
  other_rows-IsSized (some rows) sized = sized

  pub enable_alt-IsTurned : IsTurned size (enable_alt size s)
  unfolding enable_alt
  enable_alt-IsTurned =
      let v = s.view in
      let other = other_rows-IsSized v.alt_screen t.fits.alt_rows in
      both_branches
        (λ w.
          IsTurned size (
            redraw_if_terminal_resized size
              (record s { view = record w { using_alt_buf = true } })))
        v.using_alt_buf (record v { alt_screen = some (other_rows v) })
        (record v { alt_screen = some v.screen; screen = other_rows v })
        (kept-IsTurned size _ (record {
          fits = with_screens v.screen (some (other_rows v)) t.fits.rows other;
          on_key = t.on_key;
          y_low = t.y_low;
        }))
        (kept-IsTurned size _ (record {
          fits = with_screens (other_rows v) (some v.screen) other t.fits.rows;
          on_key = t.on_key;
          y_low = t.y_low;
        }))

  pub disable_alt-IsTurned : IsTurned size (disable_alt size s)
  unfolding disable_alt
  disable_alt-IsTurned =
      let v = s.view in
      let other = other_rows-IsSized v.alt_screen t.fits.alt_rows in
      both_branches (IsTurned size) v.using_alt_buf _ s
        (kept-IsTurned size _ (record {
          fits = with_screens (other_rows v) (some v.screen) other t.fits.rows;
          on_key = t.on_key;
          y_low = t.y_low;
        }))
        t
