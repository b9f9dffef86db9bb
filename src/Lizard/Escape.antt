-- ===== src/Lizard/Escape.antt =====
-- `handle_escape_sequence` of LizardShell.py: the sequence is read, told apart by its last character,
-- and carried out on the screen.
pub mod CarryOut
use os_lockdown.Base.{
  ℕ, zero, suc, ◌+◌, ◌-◌, Bool, true, false, not, ◌&&◌, ◌||◌, Option, none, some, List, [], ◌∷◌,
  ◌++◌, ◌==◌, String, Text, codes, text_eq, ltb, leb, if◌then◌else◌, length, get_elem?, drop,
  replicate, map,
}
use os_lockdown.Base.Outcome.{Outcome, ok, err, ◌>>=◌, or_raise}
use os_lockdown.Base.Ints.{
  ℤ, pos, negsuc, minus, add, subtract, is_negative, at_least, count_from, turns, slice_to,
  update_at, is_digit, int, split,
}
use os_lockdown.Lizard.State.{
  Cell, Rows, Screen, State, Real, Size, Error, index_error, value_error, type_error, ◌▷◌, written,
  show_cursor, write, new_default_char, blank_row, new_screen, move_real_cursor, redraw_screen,
  default_fg_color, default_bg_color,
}
use os_lockdown.Lizard.Layout.{redraw_if_terminal_resized}
use os_lockdown.Lizard.Keyboard.{Result, to_screen_cursor, send}

-- `buf`, which begins with `[`: `buf[1:-1]` and `buf[-1]`.
pub record Sequence : Type 0 where
  pub args : Text
  pub final : ℕ

-- What the loop reads on: a digit, `;`, `?`, `!`, `>`, or a byte that does not decode.
abbrev pub goes_on : ℕ → Bool
goes_on c = is_digit c || (c == 59 || (c == 63 || (c == 33 || c == 62)))

abbrev pub is_ascii : ℕ → Bool
is_ascii b = ltb b 128

abbrev pub with_arg : ℕ → Option (Sequence × List ℕ) → Option (Sequence × List ℕ)
with_arg c none = none
with_arg c (some r) = some (record { args = c ∷ r.0.args; final = r.0.final }, r.1)

-- The loop, from the character behind `[` on: the sequence and the bytes left, or none where the
-- bytes end before it does.
unfoldable pub read_args : List ℕ → Option (Sequence × List ℕ)
read_args [] = none
read_args (b ∷ bs) =
    let rest = read_args bs in
    if not (is_ascii b)
    then rest
    else if goes_on b
    then with_arg b rest
    else some (record { args = []; final = b }, bs)

-- One constructor for each branch that tells sequences apart.
pub data Command : Type 0 where
  to_column to_row to_point right erase_chars delete_chars scroll_up up down right_to_edge left
        scroll_region styles :
      Text → Command
  toggle_cursor : Bool → Command
  erase_right erase_left erase_below clear alt_on alt_off attributes ignored : Command

abbrev pub is_text : Text → String → Bool
is_text t s = text_eq t (codes s)

unfoldable pub dispatch : Sequence → Command
unfolding text_eq
dispatch q =
    let args = q.args in
    let c = q.final in
    if c == 71
    then to_column args
    else if c == 100
    then to_row args
    else if c == 72
    then to_point args
    else if c == 67
    then right args
    else if c == 104 && is_text args "?25"
    then toggle_cursor true
    else if c == 108 && is_text args "?25"
    then toggle_cursor false
    else if c == 75 && (is_text args "" || is_text args "0")
    then erase_right
    else if c == 75 && is_text args "1"
    then erase_left
    else if c == 88
    then erase_chars args
    else if c == 74 && (is_text args "" || is_text args "0")
    then erase_below
    else if c == 74 && is_text args "2"
    then clear
    else if c == 80
    then delete_chars args
    else if c == 83
    then scroll_up args
    else if c == 65
    then up args
    else if c == 66
    then down args
    else if c == 67
    then right_to_edge args
    else if c == 68
    then left args
    else if c == 114
    then scroll_region args
    else if c == 104 && is_text args "?1049"
    then alt_on
    else if c == 108 && is_text args "?1049"
    then alt_off
    else if c == 99 && (is_text args ">" || is_text args ">0")
    then attributes
    else if c == 109
    then styles args
    else ignored

-- `int(t)`
abbrev pub to_int : Text → Result ℕ
to_int t = or_raise value_error (int t)

-- `int(buf[1:-1]) if len(buf) > 2 else n`
abbrev pub int_or : ℕ → Text → Result ℕ
int_or n [] = ok n
int_or n (c ∷ t) = to_int (c ∷ t)

-- `a, b = map(int, t.split(';'))`
abbrev pub two_ints : List Text → Result (ℕ × ℕ)
two_ints (a ∷ b ∷ []) = to_int a >>= λ m. to_int b >>= λ n. ok (m, n)
two_ints [] = err value_error
two_ints (a ∷ []) = err value_error
two_ints (a ∷ b ∷ c ∷ ts) = err value_error

abbrev pub point : Text → Result (ℕ × ℕ)
point t = two_ints (split 59 t)

abbrev pub put_cell : ℤ → ℤ → (Cell → Cell) → Rows → Result Rows
put_cell x y f rows =
    update_at index_error y (λ row. update_at index_error x (λ c. ok (f c)) row) rows

-- `n` cells from column `x` on are blanked, one after the other.
unfoldable pub blank_cells : ℕ → ℤ → ℤ → Rows → Result Rows
blank_cells zero x y rows = ok rows
blank_cells (suc n) x y rows =
    put_cell x y (λ c. new_default_char) rows >>= λ blanked. blank_cells n (add x 1) y blanked

abbrev pub place : ℤ → ℤ → State → State
place x y s = record s { view = record s.view { screen_x = x; screen_y = y } }

abbrev pub with_rows : Rows → State → State
with_rows rows s = record s { view = record s.view { screen = rows } }

-- `sys.stdout.write(' '*n)`
abbrev pub write_blanks : ℕ → Real → Real
write_blanks n = write (written (replicate n 32))
