-- ===== src/Lizard/State.antt =====
-- The state of LizardShell.py, and what it writes to the terminal that it runs in.
use os_lockdown.Base.{
  ℕ, ◌-◌, Bool, false, Option, none, some, List, [], ◌∷◌, ◌++◌, ◌==◌, map, Text, ltb, if◌then◌else◌,
  length, take, replicate,
}
use os_lockdown.Base.Ints.{ℤ, pos, int_eq}

-- A character of the screen; it is empty where a byte was not ASCII.
pub record Cell : Type 0 where
  pub char : Text
  pub fg_color : ℕ
  pub bg_color : ℕ

abbrev pub Rows : Type 0
Rows = List (List Cell)

pub record Screen : Type 0 where
  pub width : ℕ
  pub height : ℕ
  pub screen : Rows
  pub screen_x : ℤ
  pub screen_y : ℤ
  pub fg_color : ℕ
  pub bg_color : ℕ
  pub alt_screen : Option Rows
  pub using_alt_buf : Bool

pub record Keys : Type 0 where
  pub key_x : ℕ
  pub key_y : ℕ
  pub ctrl_enabled : Bool
  pub shift_enabled : Bool
  pub caps_enabled : Bool

-- What is written to the real terminal: the escape sequences that the program makes, and text.
pub data Output : Type 0 where
  cursor_to : ℤ → ℤ → Output
  style : ℕ → Output
  reset : Output
  show_cursor : Bool → Output
  written : Text → Output

-- What the program knows of the real terminal, and what it has written to it, the last first.
pub record Real : Type 0 where
  pub real_x : Option ℤ
  pub real_y : Option ℤ
  pub real_fg_color : Option ℕ
  pub real_bg_color : Option ℕ
  pub stdout : List Output

-- `sent` is what goes to the shell.
pub record State : Type 0 where
  pub view : Screen
  pub keys : Keys
  pub real : Real
  pub sent : Text

-- What `os.get_terminal_size` gives.
pub record Size : Type 0 where
  pub columns : ℕ
  pub lines : ℕ

pub data Error : Type 0 where
  index_error value_error type_error out_of_fuel : Error

abbrev pub default_fg_color : ℕ
default_fg_color = 32

abbrev pub default_bg_color : ℕ
default_bg_color = 40

abbrev pub key_highlight_bg_color : ℕ
key_highlight_bg_color = 42

abbrev pub ctrl_toggled_bg_color : ℕ
ctrl_toggled_bg_color = 47

infixl 4 ◌▷◌
abbrev pub ◌▷◌ {ℓ κ} : {A : Type ℓ} {B : Type κ} → A → (A → B) → B
a ▷ f = f a

abbrev pub new_default_char : Cell
new_default_char = record {
  char = 32 ∷ [];
  fg_color = default_fg_color;
  bg_color = default_bg_color;
}

abbrev pub blank_row : ℕ → List Cell
blank_row width = replicate width new_default_char

abbrev pub new_screen : Screen → Rows
new_screen s = replicate s.height (blank_row s.width)

-- `sys.stdout.write`
abbrev pub write : Output → Real → Real
write o r = record r { stdout = o ∷ r.stdout }

abbrev is_at : Option ℤ → ℤ → Bool
is_at none i = false
is_at (some j) i = int_eq i j

abbrev pub real_is_at : ℤ → Option ℤ → Bool
real_is_at i o = is_at o i

unfoldable pub move_real_cursor : ℤ → ℤ → Real → Real
move_real_cursor x y r =
    if (if real_is_at x r.real_x then real_is_at y r.real_y else false)
    then r
    else record r { stdout = cursor_to x y ∷ r.stdout; real_x = some x; real_y = some y }

abbrev is_color : Option ℕ → ℕ → Bool
is_color none c = false
is_color (some d) c = d == c

unfoldable pub set_real_color : ℕ → Real → Real
set_real_color color r =
    if ltb color 40
    then if is_color r.real_fg_color color
      then r
      else record r { stdout = style color ∷ r.stdout; real_fg_color = some color }
    else if is_color r.real_bg_color color
    then r
    else record r { stdout = style color ∷ r.stdout; real_bg_color = some color }

unfoldable pub reset_real_color : Real → Real
reset_real_color r = record r {
  stdout = reset ∷ r.stdout;
  real_fg_color = none;
  real_bg_color = none;
}

-- The rows that `redraw_screen` keeps, cut or filled to the size.
unfoldable pub fit_row : ℕ → List Cell → List Cell
fit_row width row = take width row ++ replicate (width - length row) new_default_char

unfoldable pub fit_rows : ℕ → ℕ → Rows → Rows
unfolding fit_row
fit_rows width height rows =
    let kept = map (fit_row width) (take height rows) in
    kept ++ replicate (height - length kept) (blank_row width)

unfoldable pub paint_cell : Cell → Real → Real
unfolding set_real_color
paint_cell c r = r ▷ set_real_color c.fg_color ▷ set_real_color c.bg_color ▷ write (written c.char)

unfoldable pub paint_row : List Cell → Real → Real
unfolding paint_cell
paint_row [] r = r
paint_row (c ∷ cs) r = paint_row cs (paint_cell c r)

unfoldable pub paint_rows : Rows → Real → Real
unfolding paint_row
paint_rows [] r = r
paint_rows (row ∷ rows) r = paint_rows rows (paint_row row r)

unfoldable pub redraw_screen : State → State
unfolding fit_rows paint_rows move_real_cursor
redraw_screen s =
    let rows = fit_rows s.view.width s.view.height s.view.screen in
    let painted =
      s.real ▷ move_real_cursor (pos 0) (pos 0) ▷ paint_rows rows ▷ write (written (10 ∷ [])) in
    record s {
      view = record s.view { screen = rows };
      real = record painted { real_x = some (pos 0); real_y = some (pos s.view.height) };
    }
