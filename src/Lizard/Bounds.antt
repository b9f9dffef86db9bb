-- ===== src/Lizard/Bounds.antt =====
-- The screen of LizardShell.py as its operations need it: rows of one length, and a cursor on them.
pub mod Sizes
pub mod Reads
pub mod Moves
pub mod Edits
pub mod Handler
pub mod Alt
pub mod Chars
pub mod Worker
pub mod Start
use os_lockdown.Base.{
  ℕ, zero, suc, ◌+◌, ◌-◌, ◌≤◌, ◌<◌, ◌≡◌, refl, sym, ap, Bool, true, false, Option, none, some, List,
  arith, length, All,
}
use os_lockdown.Base.Ints.{ℤ, pos, negsuc}
use os_lockdown.Lizard.State.{
  Cell, Rows, Screen, State, Size, Error, index_error, value_error, type_error, out_of_fuel,
}
use os_lockdown.Lizard.Keyboard.Safe.{IsOnKey}
use os_lockdown.Lizard.Layout.{keyboard_layout, is_too_small}

pub record IsSized (width height : ℕ) (rows : Rows) : Type 0 where
  pub row_count : length rows ≡ height
  pub row_length : All (λ row. length row ≡ width) rows

abbrev pub IsSizedAlt : ℕ → ℕ → Option Rows → Type 0
IsSizedAlt width height none = Unit
IsSizedAlt width height (some rows) = IsSized width height rows

-- 0 ≤ x < n
abbrev pub IsWithin : ℕ → ℤ → Type 0
IsWithin n (pos i) = i < n
IsWithin n (negsuc i) = ⊥

-- −1 ≤ y
abbrev pub IsFromLast : ℤ → Type 0
IsFromLast (pos i) = Unit
IsFromLast (negsuc i) = i ≡ 0

-- −1 ≤ y < n
abbrev pub IsRow : ℕ → ℤ → Type 0
IsRow n (pos i) = i < n
IsRow n (negsuc i) = i ≡ 0

-- The screen has the terminal's size.
pub record HasSize (size : Size) (width height : ℕ) (screen : Rows) (alt : Option Rows)
    : Type 0 where
  pub large_enough : is_too_small size ≡ false
  pub same_width : size.columns ≡ width
  pub same_height : size.lines - suc (length keyboard_layout) ≡ height
  pub rows : IsSized width height screen
  pub alt_rows : IsSizedAlt width height alt

abbrev pub Fits : Size → Screen → Type 0
Fits size v = HasSize size v.width v.height v.screen v.alt_screen

-- The cursor is on the screen, or in the row above it; the keyboard's is on a key.
pub record IsBounded (size : Size) (s : State) : Type 0 where
  pub fits : Fits size s.view
  pub on_key : IsOnKey s.keys
  pub x_bound : IsWithin s.view.width s.view.screen_x
  pub y_bound : IsRow s.view.height s.view.screen_y

-- The same before the cursor is wrapped.
pub record IsTurned (size : Size) (s : State) : Type 0 where
  pub fits : Fits size s.view
  pub on_key : IsOnKey s.keys
  pub y_low : IsFromLast s.view.screen_y

abbrev pub IsValueError : Error → Type 0
IsValueError index_error = ⊥
IsValueError value_error = Unit
IsValueError type_error = ⊥
IsValueError out_of_fuel = ⊥
