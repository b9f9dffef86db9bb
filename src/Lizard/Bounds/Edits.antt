-- ===== src/Lizard/Bounds/Edits.antt =====
-- The escape sequences of LizardShell.py that blank, cut and fill rows of the screen.
use os_lockdown.Base.{
  ◌-◌, ◌≡◌, none, some, List, ◌++◌, Text, arith, length, length-append, length-take,
  length-replicate, take, drop, replicate,
}
use os_lockdown.Base.Outcome.{ok, ◌>>=◌, Holds, Holds->>=}
use os_lockdown.Base.Ints.{ℤ, pos, negsuc, add, slice_to, count_from, turns, update_at, int}
use os_lockdown.Lizard.State.{
  Cell, Rows, State, Real, Size, blank_row, index_error, new_default_char, redraw_screen,
  move_real_cursor, new_screen,
}
use os_lockdown.Lizard.Keyboard.{Result}
use os_lockdown.Lizard.Escape.{to_int, write_blanks, with_rows, blank_cells}
use os_lockdown.Lizard.Escape.CarryOut.{
  erase_to_end, erase_to_start, erase_characters, erase_rows_below, clear_screen, scroll_rows_up,
}
use os_lockdown.Lizard.Bounds.{
  IsSized, HasSize, IsWithin, IsFromLast, IsBounded, IsTurned, IsValueError,
}
use os_lockdown.Lizard.Bounds.Sizes.{fit_rows-IsSized, update_row-IsSized, blank_cells-IsSized}
use os_lockdown.Lizard.Bounds.Reads.{has_rows, row-IsFromLast, or_raise-Holds}

module _ (size : Size) (s : State) (b : IsBounded size s) where
  y_low : IsFromLast s.view.screen_y
  y_low = row-IsFromLast s.view.height s.view.screen_y b.y_bound

  pub resized :
      (rows : Rows)
      → IsSized s.view.width s.view.height rows
      → HasSize size s.view.width s.view.height rows s.view.alt_screen
  resized rows sized = record {
    large_enough = b.fits.large_enough;
    same_width = b.fits.same_width;
    same_height = b.fits.same_height;
    rows = sized;
    alt_rows = b.fits.alt_rows;
  }

  -- Where the rows alone change.
  rows-IsTurned :
      (m : Result Rows) (draw : Rows → Real)
      → Holds IsValueError (IsSized s.view.width s.view.height) m
      → Holds IsValueError
          (IsTurned size)
          (m >>= λ rows. ok (with_rows rows (record s { real = draw rows })))
  rows-IsTurned m draw h =
      Holds->>= IsValueError (IsSized s.view.width s.view.height) (IsTurned size) m
        (λ rows. ok (with_rows rows (record s { real = draw rows }))) h
        (λ rows sized. record { fits = resized rows sized; on_key = b.on_key; y_low = y_low })

  redrawn-IsTurned : (rows : Rows) → IsTurned size (redraw_screen (with_rows rows s))
  unfolding redraw_screen
  redrawn-IsTurned rows = record {
    fits = resized _ (fit_rows-IsSized s.view.width s.view.height rows);
    on_key = b.on_key;
    y_low = y_low;
  }

  pub erase_rows_below-IsTurned : IsTurned size (erase_rows_below s)
  unfolding erase_rows_below
  erase_rows_below-IsTurned = redrawn-IsTurned (slice_to s.view.screen_y s.view.screen)

  pub clear_screen-IsTurned : IsTurned size (clear_screen s)
  unfolding clear_screen
  clear_screen-IsTurned = redrawn-IsTurned (new_screen s.view)

  pub scroll_rows_up-IsTurned :
      (args : Text) → Holds IsValueError (IsTurned size) (scroll_rows_up args s)
  unfolding scroll_rows_up
  scroll_rows_up-IsTurned args =
      Holds->>= IsValueError (λ n. Unit {0}) (IsTurned size) (to_int args)
        (λ n. ok (
          redraw_screen
            (with_rows (drop n s.view.screen ++ replicate n (blank_row s.view.width)) s)))
        (or_raise-Holds (int args))
        (λ n h. redrawn-IsTurned (drop n s.view.screen ++ replicate n (blank_row s.view.width)))

  erase_to_end_row :
      (x : ℤ)
      → IsWithin s.view.width x
      → (row : List Cell) → length row ≡ s.view.width
      → length (slice_to x row ++ replicate (count_from s.view.width x) new_default_char)
        ≡ s.view.width
  erase_to_end_row (pos i) h row same = omega (
    arith,
    h,
    same,
    length-append (take i row) (replicate (s.view.width - i) new_default_char),
    length-take i row,
    length-replicate (s.view.width - i) new_default_char,
  )
  erase_to_end_row (negsuc i) h row same = absurd h

  pub erase_to_end-IsTurned : Holds IsValueError (IsTurned size) (erase_to_end s)
  unfolding erase_to_end
  erase_to_end-IsTurned =
      let x = s.view.screen_x in
      let rest = count_from s.view.width x in
      let written = write_blanks rest s.real in
      rows-IsTurned
        (update_at index_error s.view.screen_y
          (λ row. ok (slice_to x row ++ replicate rest new_default_char)) s.view.screen)
        (λ rows. move_real_cursor x s.view.screen_y (record written { real_x = none }))
        (update_row-IsSized s.view.width s.view.height
          (λ row. ok (slice_to x row ++ replicate rest new_default_char)) s.view.screen
          s.view.screen_y b.fits.rows (has_rows size s.view b.fits) b.y_bound
          (erase_to_end_row x b.x_bound))

  blank_start-IsSized :
      (x : ℤ)
      → IsWithin s.view.width x
      → Holds IsValueError
          (IsSized s.view.width s.view.height)
          (blank_cells (turns x) (pos 0) s.view.screen_y s.view.screen)
  blank_start-IsSized (pos i) h =
      blank_cells-IsSized s.view.width s.view.height i 0 s.view.screen s.view.screen_y b.fits.rows
        (has_rows size s.view b.fits) (omega (arith, h)) b.y_bound
  blank_start-IsSized (negsuc i) h = absurd h

  blank_rest-IsSized :
      (x : ℤ)
      → IsWithin s.view.width x
      → Holds IsValueError
          (IsSized s.view.width s.view.height)
          (blank_cells (count_from s.view.width x) x s.view.screen_y s.view.screen)
  blank_rest-IsSized (pos i) h =
      blank_cells-IsSized s.view.width s.view.height (s.view.width - i) i s.view.screen
        s.view.screen_y b.fits.rows (has_rows size s.view b.fits) (omega (arith, h)) b.y_bound
  blank_rest-IsSized (negsuc i) h = absurd h

  pub erase_to_start-IsTurned : Holds IsValueError (IsTurned size) (erase_to_start s)
  unfolding erase_to_start
  erase_to_start-IsTurned =
      let x = s.view.screen_x in
      let written = write_blanks (turns x) (move_real_cursor (pos 0) s.view.screen_y s.real) in
      rows-IsTurned (blank_cells (turns x) (pos 0) s.view.screen_y s.view.screen)
        (λ rows. record written { real_x = some x }) (blank_start-IsSized x b.x_bound)

  pub erase_characters-IsTurned : Holds IsValueError (IsTurned size) (erase_characters s)
  unfolding erase_characters
  erase_characters-IsTurned =
      let x = s.view.screen_x in
      let y = s.view.screen_y in
      let rest = count_from s.view.width x in
      let written = write_blanks rest (move_real_cursor (add x 1) y s.real) in
      rows-IsTurned (blank_cells rest x y s.view.screen) (λ rows. move_real_cursor x y written)
        (blank_rest-IsSized x b.x_bound)
