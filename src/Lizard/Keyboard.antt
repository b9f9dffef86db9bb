-- ===== src/Lizard/Keyboard.antt =====
-- A turn of `keyboard_worker` in LizardShell.py: the arrows move over the keys, Enter presses one.
pub mod Safe
pub mod Modes
pub mod Press
pub mod Turn
pub mod Typed
pub mod Arrows
pub mod Reach
use os_lockdown.Base.{
  ℕ, zero, suc, ◌+◌, ◌-◌, Bool, true, false, not, ◌&&◌, ◌||◌, Option, none, some, List, [], ◌∷◌,
  ◌++◌, ◌==◌, Text, codes, text_eq, ltb, leb, if◌then◌else◌, length, get_elem?,
}
use os_lockdown.Base.Outcome.{Outcome, ok, err, ◌>>=◌, or_raise}
use os_lockdown.Base.Ints.{ℤ, pos, negsuc, minus}
use os_lockdown.Lizard.State.{
  Keys, State, Size, Error, index_error, type_error, out_of_fuel, ◌▷◌, move_real_cursor,
}
use os_lockdown.Lizard.Layout.{
  keyboard_layout, Mapped, int_key, str_key, mapable_keys, lookup, shifted_key, redraw_keyboard,
  redraw_if_terminal_resized, draw_current,
}

abbrev pub Result {ℓ} : Type ℓ → Type ℓ
Result A = Outcome Error A

-- `KEYBOARD_LAYOUT[state['key_y']]`
abbrev pub current_row : Keys → Result (List Text)
current_row keys = or_raise index_error (get_elem? keyboard_layout keys.key_y)

abbrev pub current_key : Keys → Result Text
current_key keys = current_row keys >>= λ row. or_raise index_error (get_elem? row keys.key_x)

unfoldable pub redraw_current_key : Bool → State → Result State
redraw_current_key selected s = current_row s.keys >>= λ row.
    or_raise index_error (get_elem? row s.keys.key_x) >>= λ key.
    ok (record s { real = draw_current s.view.height selected s.keys row key s.real })

-- `os.write(state['wrapper_fd'], ...)`
abbrev pub send : Text → State → State
send t s = record s { sent = s.sent ++ t }

-- `move_real_cursor(state, state['screen_x'], state['screen_y'])`
abbrev pub to_screen_cursor : State → State
to_screen_cursor s = record s { real = move_real_cursor s.view.screen_x s.view.screen_y s.real }

unfoldable pub toggle_ctrl : State → Result State
toggle_ctrl s =
    redraw_current_key true
      (record s { keys = record s.keys { ctrl_enabled = not s.keys.ctrl_enabled } })
    >>= λ drawn. ok (to_screen_cursor drawn)

unfoldable pub toggle_shift : State → State
toggle_shift s =
    let shift = not s.keys.shift_enabled in
    record s {
      keys = record s.keys {
        shift_enabled = shift;
        caps_enabled = if shift then s.keys.caps_enabled else false;
      };
    }
    ▷ redraw_keyboard
    ▷ to_screen_cursor

unfoldable pub toggle_caps : State → State
toggle_caps s =
    let caps = not s.keys.caps_enabled in
    record s { keys = record s.keys { caps_enabled = caps; shift_enabled = caps } }
    ▷ redraw_keyboard
    ▷ to_screen_cursor

abbrev pub mapped_text : Mapped → Text
mapped_text (int_key c) = c ∷ []
mapped_text (str_key t) = t

-- `ord(key)`
abbrev pub ord : Text → Result ℕ
ord [] = err type_error
ord (c ∷ []) = ok c
ord (c ∷ d ∷ t) = err type_error

unfoldable pub type_with_ctrl : Text → State → Result State
type_with_ctrl key s =
    redraw_current_key true (record s { keys = record s.keys { ctrl_enabled = false } })
    >>= λ drawn. ord key >>= λ c. ok (
        if ltb 96 c && ltb c 123
        then send ((c - 96) ∷ []) (to_screen_cursor drawn)
        else to_screen_cursor drawn)

unfoldable pub type_shifted : ℕ → State → State
type_shifted c s =
    if s.keys.caps_enabled
    then send (c ∷ []) s
    else redraw_keyboard
        (send (c ∷ []) (record s { keys = record s.keys { shift_enabled = false } }))

unfoldable pub type_key : Text → State → Result State
type_key key s =
    if s.keys.ctrl_enabled
    then type_with_ctrl key s
    else if s.keys.shift_enabled
    then elim (shifted_key key) [ none ↦ ok (send key s) | some c ↦ ok (type_shifted c s) ]
    else ok (send key s)

unfoldable pub press_key : Text → State → Result State
press_key key s =
    if text_eq key (codes "Backspace")
    then ok (send (8 ∷ []) s)
    else if text_eq key (codes "Ctrl")
    then toggle_ctrl s
    else if text_eq key (codes "Shift")
    then ok (toggle_shift s)
    else if text_eq key (codes "Caps")
    then ok (toggle_caps s)
    else elim (lookup mapable_keys key) [
      | some mapped ↦ ok (send (mapped_text mapped) s)
      | none ↦ type_key key s
    ]

unfoldable pub press : State → Result State
press s = current_key s.keys >>= λ key. press_key key s

-- Where an arrow leads to in one direction, in a row or a column of `n` keys.
unfoldable pub wrap_key : ℕ → ℤ → ℕ
wrap_key n (pos i) = if leb n i then 0 else i
wrap_key n (negsuc i) = n - 1

-- The four arrows, before the cursor is brought back onto the keyboard.
abbrev moved_y : ℕ → ℕ → ℤ
moved_y c y = if c == 65 then minus y 1 else if c == 66 then pos (suc y) else pos y

abbrev moved_x : ℕ → ℕ → ℤ
moved_x c x = if c == 67 then pos (suc x) else if c == 68 then minus x 1 else pos x

unfoldable pub move_key : ℕ → Keys → Result Keys
unfolding wrap_key
move_key c keys =
    let y = wrap_key (length keyboard_layout) (moved_y c keys.key_y) in
    or_raise index_error (get_elem? keyboard_layout y) >>= λ row.
    ok (record keys { key_y = y; key_x = wrap_key (length row) (moved_x c keys.key_x) })

unfoldable pub arrow : ℕ → State → Result State
arrow c s = redraw_current_key false s >>= λ faded. move_key c faded.keys >>= λ keys.
    redraw_current_key true (record faded { keys = keys }) >>= λ drawn. ok (to_screen_cursor drawn)

abbrev pub is_arrow : ℕ → Bool
is_arrow c = leb 65 c && leb c 68

-- What follows ESC and `[`, and what follows ESC. A read that finds nothing waits, so the turn gets no
-- further.
unfoldable pub read_arrow : Text → State → Result (State × Text)
read_arrow [] s = ok (s, [])
read_arrow (c ∷ t) s = if is_arrow c then (arrow c s >>= λ moved. ok (moved, t)) else ok (s, t)

unfoldable pub read_escape : Text → State → Result (State × Text)
read_escape [] s = ok (s, [])
read_escape (c ∷ t) s = if c == 91 then read_arrow t s else ok (s, t)

-- The branches on the character that was read; it gives what is left.
unfoldable pub take_key : ℕ → Text → State → Result (State × Text)
take_key c t s =
    if c == 10
    then (press s >>= λ pressed. ok (pressed, t))
    else if c == 27
    then read_escape t s
    else ok (s, t)

-- A turn, from what is there to be read; it gives what is left.
unfoldable pub keyboard_turn : Size → Text → State → Result (State × Text)
keyboard_turn size [] s = ok (s, [])
keyboard_turn size (c ∷ t) s = take_key c t (redraw_if_terminal_resized size s)

-- The loop on what is typed while the terminal keeps its size.
unfoldable pub keyboard_worker : ℕ → Size → Text → State → Result State
keyboard_worker fuel size [] s = ok s
keyboard_worker zero size (c ∷ t) s = err out_of_fuel
keyboard_worker (suc fuel) size (c ∷ t) s =
    keyboard_turn size (c ∷ t) s >>= λ turned. keyboard_worker fuel size turned.1 turned.0
