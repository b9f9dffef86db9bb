-- ===== src/Lizard/Bounds/Start.antt =====
-- The screen of LizardShell.py as the first redraw leaves it.
use os_lockdown.Base.{suc, ◌-◌, ◌<◌, ◌≡◌, refl, false, some, [], arith, length, ◌==◌}
use os_lockdown.Lizard.State.{State, Size, redraw_screen}
use os_lockdown.Lizard.Layout.{
  keyboard_layout, is_too_small, redraw_if_terminal_resized, redraw_keyboard,
}
use os_lockdown.Lizard.Worker.{init, start}
use os_lockdown.Lizard.Bounds.{IsBounded}
use os_lockdown.Lizard.Bounds.Sizes.{fit_rows-IsSized}

-- A size that is large enough is not the one before the first redraw.
new_width : (size : Size) → is_too_small size ≡ false → (size.columns == 0) ≡ false
unfolding is_too_small
new_width size h = ground (arith, h)

has_width : (size : Size) → is_too_small size ≡ false → 0 < size.columns
unfolding is_too_small
has_width size h = ground (arith, h)

has_height :
    (size : Size) → is_too_small size ≡ false → 0 < size.lines - suc (length keyboard_layout)
unfolding is_too_small
has_height size h = ground (arith, h)

redrawn-IsBounded :
    (size : Size)
    → is_too_small size ≡ false
    → IsBounded size (redraw_if_terminal_resized size init)
unfolding redraw_if_terminal_resized redraw_screen redraw_keyboard init
redrawn-IsBounded size large =
    rw (large, new_width size large)
      (record {
        fits = record {
          large_enough = large;
          same_width = refl;
          same_height = refl;
          rows = fit_rows-IsSized size.columns (size.lines - suc (length keyboard_layout)) [];
          alt_rows = tt;
        };
        on_key = record { row = _; found = refl; on_row = omega arith; caps_shifts = refl };
        x_bound = has_width size large;
        y_bound = has_height size large;
      })

-- The first redraw of a terminal that is large enough.
pub start-IsBounded :
    (size : Size)
    → is_too_small size ≡ false
    → (s : State) × (start size ≡ some s) × IsBounded size s
unfolding start
start-IsBounded size large =
    (redraw_if_terminal_resized size init, rw large refl, redrawn-IsBounded size large)
