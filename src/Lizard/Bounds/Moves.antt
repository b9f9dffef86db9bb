-- ===== src/Lizard/Bounds/Moves.antt =====
-- The escape sequences of LizardShell.py that move the cursor.
use os_lockdown.Base.{ℕ, Text}
use os_lockdown.Base.Outcome.{ok, ◌>>=◌, Holds, Holds->>=}
use os_lockdown.Base.Ints.{ℤ, minus, add, subtract}
use os_lockdown.Lizard.State.{State, Size}
use os_lockdown.Lizard.Keyboard.{Result, to_screen_cursor}
use os_lockdown.Lizard.Escape.{int_or, place, write_blanks}
use os_lockdown.Lizard.Escape.CarryOut.{
  int_before, point_or_origin, or_zero, or_last, or_edge, move_to_column, move_to_row,
  move_to_point, move_right, delete_characters, move_up, move_down, move_right_to_edge, move_left,
}
use os_lockdown.Lizard.Bounds.{IsFromLast, IsBounded, IsTurned, IsValueError}
use os_lockdown.Lizard.Bounds.Reads.{
  row-IsFromLast, minus-IsFromLast, or_zero-IsFromLast, int_or-Holds, int_before-Holds,
  point_or_origin-Holds, add-IsFromLast, or_last-IsFromLast,
}

module _ (size : Size) (s : State) (b : IsBounded size s) where
  y_low : IsFromLast s.view.screen_y
  y_low = row-IsFromLast s.view.height s.view.screen_y b.y_bound

  pub bounded-IsTurned : IsTurned size s
  bounded-IsTurned = record { fits = b.fits; on_key = b.on_key; y_low = y_low }

  -- Where the cursor alone moves, the rows stay.
  moved-IsTurned {ℓ} :
      {A : Type ℓ} (P : A → Type 0) (m : Result A) (x y : A → ℤ)
      → Holds IsValueError P m
      → ((a : A) → P a → IsFromLast (y a))
      → Holds IsValueError (IsTurned size) (m >>= λ a. ok (to_screen_cursor (place (x a) (y a) s)))
  moved-IsTurned P m x y h low =
      Holds->>= IsValueError P (IsTurned size) m (λ a. ok (to_screen_cursor (place (x a) (y a) s)))
        h (λ a p. record { fits = b.fits; on_key = b.on_key; y_low = low a p })

  pub move_to_column-IsTurned :
      (args : Text) → Holds IsValueError (IsTurned size) (move_to_column args s)
  unfolding move_to_column
  move_to_column-IsTurned args =
      moved-IsTurned IsFromLast (int_before args) (λ x. x) (λ x. s.view.screen_y)
        (int_before-Holds args) (λ x h. y_low)

  pub move_to_row-IsTurned : (args : Text) → Holds IsValueError (IsTurned size) (move_to_row args s)
  unfolding move_to_row
  move_to_row-IsTurned args =
      moved-IsTurned IsFromLast (int_before args) (λ y. s.view.screen_x) (λ y. y)
        (int_before-Holds args) (λ y h. h)

  pub move_to_point-IsTurned :
      (args : Text) → Holds IsValueError (IsTurned size) (move_to_point args s)
  unfolding move_to_point
  move_to_point-IsTurned args =
      Holds->>= IsValueError (λ yx. Unit {0}) (IsTurned size) (point_or_origin args)
        (λ yx. ok (place (minus yx.1 1) (minus yx.0 1) s)) (point_or_origin-Holds args)
        (λ yx h. record { fits = b.fits; on_key = b.on_key; y_low = minus-IsFromLast yx.0 })

  pub delete_characters-IsTurned :
      (args : Text) → Holds IsValueError (IsTurned size) (delete_characters args s)
  unfolding delete_characters
  delete_characters-IsTurned args =
      Holds->>= IsValueError (λ n. Unit {0}) (IsTurned size) (int_or 1 args)
        (λ n. ok (
          to_screen_cursor
            (record (to_screen_cursor s) { real = write_blanks n (to_screen_cursor s).real })))
        (int_or-Holds 1 args) (λ n h. record { fits = b.fits; on_key = b.on_key; y_low = y_low })

  -- The moves by a count.
  counted-IsTurned :
      (args : Text) (x y : ℕ → ℤ)
      → ((n : ℕ) → IsFromLast (y n))
      → Holds IsValueError
          (IsTurned size)
          (int_or 1 args >>= λ n. ok (to_screen_cursor (place (x n) (y n) s)))
  counted-IsTurned args x y low =
      moved-IsTurned (λ n. Unit {0}) (int_or 1 args) x y (int_or-Holds 1 args) (λ n h. low n)

  pub move_right-IsTurned : (args : Text) → Holds IsValueError (IsTurned size) (move_right args s)
  unfolding move_right
  move_right-IsTurned args =
      counted-IsTurned args (add s.view.screen_x) (λ n. s.view.screen_y) (λ n. y_low)

  pub move_right_to_edge-IsTurned :
      (args : Text) → Holds IsValueError (IsTurned size) (move_right_to_edge args s)
  unfolding move_right_to_edge
  move_right_to_edge-IsTurned args =
      counted-IsTurned args (λ n. or_edge (add s.view.screen_x n) s.view.width)
        (λ n. s.view.screen_y) (λ n. y_low)

  pub move_left-IsTurned : (args : Text) → Holds IsValueError (IsTurned size) (move_left args s)
  unfolding move_left
  move_left-IsTurned args =
      counted-IsTurned args (λ n. or_zero (subtract s.view.screen_x n)) (λ n. s.view.screen_y)
        (λ n. y_low)

  pub move_up-IsTurned : (args : Text) → Holds IsValueError (IsTurned size) (move_up args s)
  unfolding move_up
  move_up-IsTurned args =
      counted-IsTurned args (λ n. s.view.screen_x) (λ n. or_zero (subtract s.view.screen_y n))
        (λ n. or_zero-IsFromLast (subtract s.view.screen_y n))

  pub move_down-IsTurned : (args : Text) → Holds IsValueError (IsTurned size) (move_down args s)
  unfolding move_down
  move_down-IsTurned args =
      counted-IsTurned args (λ n. s.view.screen_x)
        (λ n. or_last (add s.view.screen_y n) s.view.height)
        (λ n.
          or_last-IsFromLast (add s.view.screen_y n) s.view.height
            (add-IsFromLast s.view.screen_y n y_low))
