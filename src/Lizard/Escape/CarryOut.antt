-- ===== src/Lizard/Escape/CarryOut.antt =====
-- What each branch of `handle_escape_sequence` does to the screen, and the handler as a whole.
use os_lockdown.Base.{
  ℕ, true, false, ◌&&◌, none, some, List, [], ◌∷◌, ◌++◌, ◌==◌, Text, codes, ltb, if◌then◌else◌,
  drop, replicate,
}
use os_lockdown.Base.Outcome.{ok, err, ◌>>=◌}
use os_lockdown.Base.Ints.{
  ℤ, pos, minus, add, subtract, is_negative, at_least, count_from, turns, slice_to, update_at,
  split,
}
use os_lockdown.Lizard.State.{
  Rows, Screen, State, Size, index_error, ◌▷◌, show_cursor, write, new_default_char, blank_row,
  new_screen, move_real_cursor, redraw_screen, default_fg_color, default_bg_color,
}
use os_lockdown.Lizard.Layout.{redraw_if_terminal_resized}
use os_lockdown.Lizard.Keyboard.{Result, to_screen_cursor, send}
use os_lockdown.Lizard.Escape.{
  read_args, Command, to_column, to_row, to_point, right, erase_chars, delete_chars, scroll_up, up,
  down, right_to_edge, left, scroll_region, styles, toggle_cursor, erase_right, erase_left,
  erase_below, clear, alt_on, alt_off, attributes, ignored, dispatch, to_int, int_or, point,
  blank_cells, place, with_rows, write_blanks,
}

-- `int(buf[1:-1])-1 if len(buf) > 2 else 0`
abbrev pub int_before : Text → Result ℤ
int_before [] = ok (pos 0)
int_before (c ∷ t) = to_int (c ∷ t) >>= λ n. ok (minus n 1)

unfoldable pub move_to_column : Text → State → Result State
move_to_column args s = int_before args >>= λ x. ok (to_screen_cursor (place x s.view.screen_y s))

unfoldable pub move_to_row : Text → State → Result State
move_to_row args s = int_before args >>= λ y. ok (to_screen_cursor (place s.view.screen_x y s))

-- `x, y = 1, 1` for `[H`
abbrev pub point_or_origin : Text → Result (ℕ × ℕ)
point_or_origin [] = ok (1, 1)
point_or_origin (c ∷ t) = point (c ∷ t)

unfoldable pub move_to_point : Text → State → Result State
move_to_point args s = point_or_origin args >>= λ yx. ok (place (minus yx.1 1) (minus yx.0 1) s)

unfoldable pub move_right : Text → State → Result State
move_right args s =
    int_or 1 args >>= λ n. ok (to_screen_cursor (place (add s.view.screen_x n) s.view.screen_y s))

unfoldable pub erase_to_end : State → Result State
erase_to_end s =
    let x = s.view.screen_x in
    let y = s.view.screen_y in
    let rest = count_from s.view.width x in
    update_at index_error y (λ row. ok (slice_to x row ++ replicate rest new_default_char))
      s.view.screen
    >>= λ rows.
        let written = write_blanks rest s.real in
        ok
          (to_screen_cursor (with_rows rows (record s { real = record written { real_x = none } })))

unfoldable pub erase_to_start : State → Result State
unfolding blank_cells
erase_to_start s =
    let x = s.view.screen_x in
    let y = s.view.screen_y in
    blank_cells (turns x) (pos 0) y s.view.screen >>= λ rows.
    let written = s.real ▷ move_real_cursor (pos 0) y ▷ write_blanks (turns x) in
    ok (with_rows rows (record s { real = record written { real_x = some x } }))

unfoldable pub erase_characters : State → Result State
unfolding blank_cells
erase_characters s =
    let x = s.view.screen_x in
    let y = s.view.screen_y in
    let rest = count_from s.view.width x in
    blank_cells rest x y s.view.screen >>= λ rows.
    let written = s.real ▷ move_real_cursor (add x 1) y ▷ write_blanks rest in
    ok (to_screen_cursor (with_rows rows (record s { real = written })))

unfoldable pub erase_rows_below : State → State
erase_rows_below s = redraw_screen (with_rows (slice_to s.view.screen_y s.view.screen) s)

unfoldable pub clear_screen : State → State
clear_screen s = redraw_screen (with_rows (new_screen s.view) s)

unfoldable pub delete_characters : Text → State → Result State
delete_characters args s = int_or 1 args >>= λ n.
    let placed = to_screen_cursor s in
    ok (to_screen_cursor (record placed { real = write_blanks n placed.real }))

unfoldable pub scroll_rows_up : Text → State → Result State
scroll_rows_up args s = to_int args >>= λ n.
    let rows = drop n s.view.screen ++ replicate n (blank_row s.view.width) in
    ok (redraw_screen (with_rows rows s))

-- `a - n`, and 0 below it.
abbrev pub or_zero : ℤ → ℤ
or_zero i = if is_negative i then pos 0 else i

unfoldable pub move_up : Text → State → Result State
move_up args s = int_or 1 args >>= λ n.
    ok (to_screen_cursor (place s.view.screen_x (or_zero (subtract s.view.screen_y n)) s))

abbrev pub or_last : ℤ → ℕ → ℤ
or_last i height = if at_least i height then minus height 1 else i

unfoldable pub move_down : Text → State → Result State
move_down args s = int_or 1 args >>= λ n.
    let y = or_last (add s.view.screen_y n) s.view.height in
    ok (to_screen_cursor (place s.view.screen_x y s))

abbrev pub or_edge : ℤ → ℕ → ℤ
or_edge i width = if at_least i width then pos width else i

unfoldable pub move_right_to_edge : Text → State → Result State
move_right_to_edge args s = int_or 1 args >>= λ n.
    let x = or_edge (add s.view.screen_x n) s.view.width in
    ok (to_screen_cursor (place x s.view.screen_y s))

unfoldable pub move_left : Text → State → Result State
move_left args s = int_or 1 args >>= λ n.
    ok (to_screen_cursor (place (or_zero (subtract s.view.screen_x n)) s.view.screen_y s))

-- The ValueError of the arguments is caught.
unfoldable pub set_scroll_region : Text → State → State
set_scroll_region args s = elim (point args) [
  | ok region ↦ to_screen_cursor (place s.view.screen_x (pos region.0) s)
  | err raised ↦ s
]

-- The other screen, which is a new one the first time.
abbrev pub other_rows : Screen → Rows
other_rows v = elim v.alt_screen [ none ↦ new_screen v | some rows ↦ rows ]

unfoldable pub enable_alt : Size → State → State
enable_alt size s =
    let v = s.view in
    let swapped =
      if v.using_alt_buf
      then record v { alt_screen = some (other_rows v) }
      else record v { alt_screen = some v.screen; screen = other_rows v } in
    redraw_if_terminal_resized size (record s { view = record swapped { using_alt_buf = true } })

unfoldable pub disable_alt : Size → State → State
disable_alt size s =
    let v = s.view in
    if v.using_alt_buf
    then redraw_if_terminal_resized size (record s {
      view = record v { alt_screen = some v.screen; screen = other_rows v; using_alt_buf = false };
    })
    else s

abbrev pub add_color : ℕ → Screen → Screen
add_color c v =
    if ltb 29 c && ltb c 40
    then record v { fg_color = c }
    else if ltb 39 c && ltb c 50
    then record v { bg_color = c }
    else v

unfoldable pub add_colors : List ℕ → Screen → Screen
add_colors [] v = v
add_colors (c ∷ cs) v = add_colors cs (add_color c v)

-- `list(map(int, ts))`
unfoldable pub ints : List Text → Result (List ℕ)
ints [] = ok []
ints (t ∷ ts) = to_int t >>= λ n. ints ts >>= λ ns. ok (n ∷ ns)

unfoldable pub apply_styles : List ℕ → Screen → Screen
unfolding add_colors
apply_styles [] v = v
apply_styles (c ∷ cs) v =
    if c == 0
    then record v { fg_color = default_fg_color; bg_color = default_bg_color }
    else if c == 1
    then add_colors cs v
    else v

-- Where a ValueError is caught, `colors[0]` is None and no branch is taken.
unfoldable pub set_styles : Text → State → State
unfolding ints apply_styles
set_styles args s = elim (ints (split 59 args)) [
  | ok colors ↦ record s { view = apply_styles colors s.view }
  | err raised ↦ s
]

unfoldable pub carry_out : Size → Command → State → Result State
carry_out size (to_column args) s = move_to_column args s
carry_out size (to_row args) s = move_to_row args s
carry_out size (to_point args) s = move_to_point args s
carry_out size (right args) s = move_right args s
carry_out size (toggle_cursor shown) s = ok (record s { real = write (show_cursor shown) s.real })
carry_out size erase_right s = erase_to_end s
carry_out size erase_left s = erase_to_start s
carry_out size (erase_chars args) s = erase_characters s
carry_out size erase_below s = ok (erase_rows_below s)
carry_out size clear s = ok (clear_screen s)
carry_out size (delete_chars args) s = delete_characters args s
carry_out size (scroll_up args) s = scroll_rows_up args s
carry_out size (up args) s = move_up args s
carry_out size (down args) s = move_down args s
carry_out size (right_to_edge args) s = move_right_to_edge args s
carry_out size (left args) s = move_left args s
carry_out size (scroll_region args) s = ok (set_scroll_region args s)
carry_out size alt_on s = ok (enable_alt size s)
carry_out size alt_off s = ok (disable_alt size s)
carry_out size attributes s = ok (send (27 ∷ codes "[>0;0;0c") s)
carry_out size (styles args) s = ok (set_styles args s)
carry_out size ignored s = ok s

-- `handle_escape_sequence`, from the bytes behind ESC; it gives the bytes left. Where they end within
-- the sequence, the read waits.
unfoldable pub handle_escape_sequence : Size → List ℕ → State → Result (State × List ℕ)
unfolding read_args dispatch
handle_escape_sequence size [] s = ok (s, [])
handle_escape_sequence size (b ∷ bs) s =
    if b == 91
    then elim (read_args bs) [
      | none ↦ ok (s, [])
      | some r ↦ carry_out size (dispatch r.0) s >>= λ handled. ok (handled, r.1)
    ]
    else ok (s, bs)
