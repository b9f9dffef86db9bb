-- ===== src/Lizard/Layout.antt =====
-- The keys of LizardShell.py, and how the keyboard is drawn.
use os_lockdown.Base.{
  ℕ, suc, ◌+◌, ◌-◌, Bool, ◌&&◌, ◌||◌, Option, none, some, List, [], ◌∷◌, ◌++◌, ◌==◌, map, Text,
  codes, text_eq, ltb, leb, if◌then◌else◌, length, take, replicate,
}
use os_lockdown.Base.Ints.{pos}
use os_lockdown.Lizard.State.{
  Keys, State, Real, Size, written, default_fg_color, default_bg_color, key_highlight_bg_color,
  ctrl_toggled_bg_color, ◌▷◌, write, move_real_cursor, set_real_color, redraw_screen,
}

-- `list(t)`
abbrev keys_of : Text → List Text
keys_of = map (λ c. c ∷ [])

abbrev pub esc_row : List Text
esc_row =
    codes "Esc" ∷ (keys_of (codes "`123456890-=") ++ (codes "Backspace" ∷ codes "Redraw" ∷ []))

abbrev pub tab_row : List Text
tab_row = codes "Tab" ∷ (keys_of (codes "qwertyuiop[]\\") ++ (codes "Home" ∷ codes "End" ∷ []))

abbrev pub caps_row : List Text
caps_row =
    codes "Caps"
    ∷ (keys_of (codes "asdfghjkl;'") ++ (codes "Enter" ∷ codes "PgUp" ∷ codes "/\\" ∷ []))

abbrev pub ctrl_row : List Text
ctrl_row =
    codes "Ctrl"
    ∷ codes "Shift"
    ∷ (keys_of (codes "zxcvbnm,./")
        ++ (codes "Space" ∷ codes "PgDn" ∷ codes "<=" ∷ codes "\\/" ∷ codes "=>" ∷ []))

abbrev pub keyboard_layout : List (List Text)
keyboard_layout = esc_row ∷ tab_row ∷ caps_row ∷ ctrl_row ∷ []

-- A value of `MAPABLE_KEYS`.
pub data Mapped : Type 0 where
  int_key : ℕ → Mapped
  str_key : Text → Mapped

abbrev pub mapable_keys : List (Text × Mapped)
mapable_keys =
    (codes "Esc", int_key 27)
    ∷ (codes "Tab", int_key 9)
    ∷ (codes "Space", int_key 32)
    ∷ (codes "Enter", int_key 13)
    ∷ (codes "/\\", str_key (27 ∷ codes "[A"))
    ∷ (codes "\\/", str_key (27 ∷ codes "[B"))
    ∷ (codes "=>", str_key (27 ∷ codes "[C"))
    ∷ (codes "<=", str_key (27 ∷ codes "[D"))
    ∷ (codes "Home", str_key (27 ∷ codes "[1~"))
    ∷ (codes "End", str_key (27 ∷ codes "[4~"))
    ∷ (codes "PgUp", str_key (27 ∷ codes "[5~"))
    ∷ (codes "PgDn", str_key (27 ∷ codes "[6~"))
    ∷ (codes "Del", str_key (27 ∷ codes "[3~"))
    ∷ (codes "Redraw", str_key (12 ∷ []))
    ∷ []

-- The entries of `SHIFTED_KEYS` but the letters: the keys, and what each stands for with shift.
abbrev pub shifted_from : Text
shifted_from = codes "1234567890-=[]\\;',./`"

abbrev pub shifted_to : Text
shifted_to = codes "!@#$%^&*()_+{}|:\"<>?~"

-- `table[key]`, where the key is in the table.
unfoldable pub lookup {ℓ} : {A : Type ℓ} → List (Text × A) → Text → Option A
unfolding text_eq
lookup [] key = none
lookup (e ∷ es) key = let rest = lookup es key in if text_eq e.0 key then some e.1 else rest

unfoldable pub place_in : Text → Text → ℕ → Option ℕ
place_in (c ∷ cs) (d ∷ ds) key = let rest = place_in cs ds key in if c == key then some d else rest
place_in [] ds key = none
place_in (c ∷ cs) [] key = none

-- `i.upper()` of the letters a to z
abbrev pub is_lower : ℕ → Bool
is_lower c = leb 97 c && leb c 122

unfoldable pub shifted_key : Text → Option ℕ
unfolding place_in
shifted_key (c ∷ []) = if is_lower c then some (c - 32) else place_in shifted_from shifted_to c
shifted_key [] = none
shifted_key (c ∷ d ∷ t) = none

-- What a key is drawn as.
unfoldable pub key_text : Keys → Text → Text
unfolding shifted_key
key_text keys key =
    if keys.shift_enabled then elim (shifted_key key) [ none ↦ key | some c ↦ c ∷ [] ] else key

unfoldable pub highlight : Keys → ℕ
highlight keys = if keys.ctrl_enabled then ctrl_toggled_bg_color else key_highlight_bg_color

-- The inner loop of `redraw_keyboard`, from column `x_idx` on.
unfoldable pub draw_keys : Keys → ℕ → ℕ → List Text → Real → Real
unfolding key_text highlight set_real_color
draw_keys keys y_idx x_idx [] r = r
draw_keys keys y_idx x_idx (key ∷ row) r =
    let selected = x_idx == keys.key_x && y_idx == keys.key_y in
    let spaced = if ltb 0 x_idx then write (written (32 ∷ [])) r else r in
    let marked = if selected then set_real_color (highlight keys) spaced else spaced in
    let drawn = write (written (key_text keys key)) marked in
    draw_keys keys y_idx (suc x_idx) row
      (if selected then set_real_color default_bg_color drawn else drawn)

unfoldable pub draw_key_rows : Keys → ℕ → List (List Text) → Real → Real
unfolding draw_keys
draw_key_rows keys y_idx [] r = r
draw_key_rows keys y_idx (row ∷ rows) r =
    let started = if ltb 0 y_idx then write (written (10 ∷ [])) r else r in
    draw_key_rows keys (suc y_idx) rows (draw_keys keys y_idx 0 row started)

unfoldable pub redraw_keyboard : State → State
unfolding draw_key_rows
redraw_keyboard s =
    let drawn =
      s.real
      ▷ move_real_cursor (pos 0) (pos (s.view.height + 1))
      ▷ set_real_color default_fg_color
      ▷ set_real_color default_bg_color
      ▷ draw_key_rows s.keys 0 keyboard_layout in
    record s { real = record drawn { real_x = none; real_y = none } }

-- `' '.join(row)`
unfoldable pub join_spaces : List Text → Text
join_spaces [] = []
join_spaces (key ∷ []) = key
join_spaces (key ∷ next ∷ row) = key ++ (32 ∷ join_spaces (next ∷ row))

abbrev max : ℕ → ℕ → ℕ
max a b = if ltb a b then b else a

unfoldable pub widest : List (List Text) → ℕ
unfolding join_spaces
widest [] = 0
widest (row ∷ rows) = max (length (join_spaces row)) (widest rows)

-- What the sizes that `redraw_if_terminal_resized` takes have: `lines` is before the keyboard's rows
-- are taken away.
unfoldable pub is_too_small : Size → Bool
unfolding widest
is_too_small size =
    ltb size.lines (suc (suc (length keyboard_layout))) || ltb size.columns (widest keyboard_layout)

unfoldable pub redraw_if_terminal_resized : Size → State → State
redraw_if_terminal_resized size s =
    let width = size.columns in
    let height = size.lines - suc (length keyboard_layout) in
    if is_too_small size
    then record s {
      real =
          write
            (written (codes "Terminal too small to fit screen and keyboard. Resize if possible."))
            s.real;
    }
    else if width == s.view.width && height == s.view.height
    then s
    else let drawn =
        redraw_screen (record s { view = record s.view { width = width; height = height } }) in
      let lined =
        drawn.real
        ▷ set_real_color default_fg_color
        ▷ set_real_color default_bg_color
        ▷ write (written (replicate width 45 ++ (10 ∷ []))) in
      redraw_keyboard
        (record drawn { real = record lined { real_x = some (pos 0); real_y = some (pos height) } })

-- `redraw_current_key`, where the cursor is on the key of text `key` in row `row`. The first of its
-- writes sets where the real cursor is.
unfoldable pub draw_current : ℕ → Bool → Keys → List Text → Text → Real → Real
unfolding highlight key_text
draw_current height selected keys row key r =
    let before = length (join_spaces (take keys.key_x row)) in
    let real_x = if ltb 0 before then suc before else before in
    let drawn =
      r
      ▷ move_real_cursor (pos real_x) (pos (height + 1 + keys.key_y))
      ▷ set_real_color default_fg_color
      ▷ set_real_color (if selected then highlight keys else default_bg_color)
      ▷ write (written (key_text keys key)) in
    record drawn { real_x = some (pos (real_x + length key)) }
