-- ===== src/Lizard/Worker.antt =====
-- `screen_worker` of LizardShell.py: a byte of the shell's output at a time.
use os_lockdown.Base.{
  ℕ, zero, suc, Bool, true, false, ◌&&◌, Option, none, some, List, [], ◌∷◌, ◌++◌, ◌==◌, Text, ltb,
  leb, if◌then◌else◌, drop,
}
use os_lockdown.Base.Outcome.{ok, err, ◌>>=◌}
use os_lockdown.Base.Ints.{pos, minus, add, subtract, is_negative, at_least, item}
use os_lockdown.Lizard.State.{
  Cell, Screen, State, Size, index_error, out_of_fuel, ◌▷◌, written, write, blank_row,
  move_real_cursor, set_real_color, redraw_screen, default_fg_color, default_bg_color,
}
use os_lockdown.Lizard.Layout.{is_too_small, redraw_if_terminal_resized}
use os_lockdown.Lizard.Keyboard.{Result, to_screen_cursor}
use os_lockdown.Lizard.Escape.{put_cell, place, with_rows}
use os_lockdown.Lizard.Escape.CarryOut.{handle_escape_sequence}

-- `init`, up to the size, which is −1 each way there: a screen without rows.
unfoldable pub init : State
init = record {
  view = record {
    width = 0;
    height = 0;
    screen = [];
    screen_x = pos 0;
    screen_y = pos 0;
    fg_color = default_fg_color;
    bg_color = default_bg_color;
    alt_screen = none;
    using_alt_buf = false;
  };
  keys = record {
    key_x = 0;
    key_y = 0;
    ctrl_enabled = false;
    shift_enabled = false;
    caps_enabled = false;
  };
  real = record {
    real_x = none;
    real_y = none;
    real_fg_color = none;
    real_bg_color = none;
    stdout = [];
  };
  sent = [];
}

-- The first redraw, where the terminal is large enough: no size that is taken is 0 or −1.
unfoldable pub start : Size → Option State
start size = if is_too_small size then none else some (redraw_if_terminal_resized size init)

-- `os.read(...).decode(errors='ignore')` of one byte
abbrev pub decode : ℕ → Text
decode b = if ltb b 128 then b ∷ [] else []

-- `c.isprintable()`, which holds of the empty text
abbrev pub is_printable : Text → Bool
is_printable [] = true
is_printable (c ∷ t) = leb 32 c && ltb c 127

abbrev pub blank_char : Cell → Cell
blank_char c = record c { char = 32 ∷ [] }

unfoldable pub backspace : State → Result State
backspace s =
    let x = s.view.screen_x in
    let y = s.view.screen_y in
    item index_error s.view.screen y >>= λ row. item index_error row x >>= λ c.
    put_cell x y blank_char s.view.screen >>= λ rows.
    let drawn =
      s.real
      ▷ move_real_cursor x y
      ▷ set_real_color c.fg_color
      ▷ set_real_color c.bg_color
      ▷ write (written (32 ∷ [])) in
    ok (to_screen_cursor (place (subtract x 1) y (with_rows rows (record s { real = drawn }))))

abbrev pub set_char : Text → Screen → Cell → Cell
set_char t v c = record c { char = t; fg_color = v.fg_color; bg_color = v.bg_color }

unfoldable pub print_char : Text → State → Result State
print_char t s =
    let x = s.view.screen_x in
    let y = s.view.screen_y in
    put_cell x y (set_char t s.view) s.view.screen >>= λ rows.
    let drawn =
      s.real
      ▷ move_real_cursor x y
      ▷ set_real_color s.view.fg_color
      ▷ set_real_color s.view.bg_color
      ▷ write (written t) in
    ok (place (add x 1) y (with_rows rows (record s { real = drawn })))

-- The branches on the byte that was read; it gives the bytes left.
unfoldable pub take_char : Size → ℕ → List ℕ → State → Result (State × List ℕ)
take_char size b bs s =
    let c = decode b in
    if b == 27
    then handle_escape_sequence size bs s
    else if b == 10
    then ok (place (pos 0) (add s.view.screen_y 1) s, bs)
    else if b == 13
    then ok (place (pos 0) s.view.screen_y s, bs)
    else if b == 8
    then (backspace s >>= λ t. ok (t, bs))
    else if is_printable c
    then (print_char c s >>= λ t. ok (t, bs))
    else ok (s, bs)

-- The column is brought back into the screen; past its end the next row begins.
unfoldable pub wrap_column : State → State
wrap_column s =
    if is_negative s.view.screen_x
    then place (pos 0) s.view.screen_y s
    else if at_least s.view.screen_x s.view.width
    then place (pos 0) (add s.view.screen_y 1) s
    else s

abbrev pub note_cursor : Text → State → State
note_cursor [] s = s
note_cursor (c ∷ t) s =
    if is_printable (c ∷ t)
    then record s {
      real = record s.real { real_x = some s.view.screen_x; real_y = some s.view.screen_y };
    }
    else s

-- Past the last row, the screen moves up by one row.
unfoldable pub wrap_row : Text → State → State
wrap_row c s =
    let v = s.view in
    if at_least v.screen_y v.height
    then redraw_screen (record s {
      view = record v {
        screen_y = minus v.height 1;
        screen = drop 1 v.screen ++ (blank_row v.width ∷ []);
      };
    })
    else note_cursor c s

-- A turn of the loop.
unfoldable pub screen_turn : Size → ℕ → List ℕ → State → Result (State × List ℕ)
screen_turn size b bs s = take_char size b bs (redraw_if_terminal_resized size s) >>= λ taken.
    ok (wrap_row (decode b) (wrap_column taken.0), taken.1)

-- The loop on what the shell prints while the terminal keeps its size.
unfoldable pub screen_worker : ℕ → Size → List ℕ → State → Result State
screen_worker fuel size [] s = ok s
screen_worker zero size (b ∷ bs) s = err out_of_fuel
screen_worker (suc fuel) size (b ∷ bs) s =
    screen_turn size b bs s >>= λ turned. screen_worker fuel size turned.1 turned.0
