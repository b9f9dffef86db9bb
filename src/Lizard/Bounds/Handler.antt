-- ===== src/Lizard/Bounds/Handler.antt =====
-- The bounds of the screen of LizardShell.py over a whole escape sequence.
use os_lockdown.Base.{
  ℕ, ◌≤◌, not, Option, none, some, List, [], ◌∷◌, Text, arith, length, ltb, ◌&&◌, both_branches,
  ◌==◌,
}
use os_lockdown.Base.Outcome.{ok, err, ◌>>=◌, Holds, Holds->>=}
use os_lockdown.Base.Ints.{pos, split}
use os_lockdown.Lizard.State.{Screen, State, Size}
use os_lockdown.Lizard.Keyboard.{Result, to_screen_cursor}
use os_lockdown.Lizard.Escape.{
  Sequence, Command, to_column, to_row, to_point, right, erase_chars, delete_chars, scroll_up, up,
  down, right_to_edge, left, scroll_region, styles, toggle_cursor, erase_right, erase_left,
  erase_below, clear, alt_on, alt_off, attributes, ignored, point, place, read_args, with_arg,
  is_ascii, goes_on, dispatch,
}
use os_lockdown.Lizard.Escape.CarryOut.{
  set_scroll_region, set_styles, apply_styles, add_color, add_colors, ints, carry_out,
  handle_escape_sequence,
}
use os_lockdown.Lizard.Bounds.{IsBounded, IsTurned, IsValueError}
use os_lockdown.Lizard.Bounds.Moves.{
  bounded-IsTurned, move_to_column-IsTurned, move_to_row-IsTurned, move_to_point-IsTurned,
  delete_characters-IsTurned, move_right-IsTurned, move_right_to_edge-IsTurned, move_left-IsTurned,
  move_up-IsTurned, move_down-IsTurned,
}
use os_lockdown.Lizard.Bounds.Alt.{enable_alt-IsTurned, disable_alt-IsTurned}
use os_lockdown.Lizard.Bounds.Edits.{
  erase_rows_below-IsTurned, clear_screen-IsTurned, scroll_rows_up-IsTurned, erase_to_end-IsTurned,
  erase_to_start-IsTurned, erase_characters-IsTurned,
}

-- Colours leave the rest of the screen alone.
unfoldable IsColored : Size → State → Screen → Type 0
IsColored size s v = IsTurned size (record s { view = v })

module _ (size : Size) (s : State) where
  add_color-IsColored : (c : ℕ) (v : Screen) → IsColored size s v → IsColored size s (add_color c v)
  unfolding IsColored
  add_color-IsColored c v t =
      both_branches (IsColored size s) (ltb 29 c && ltb c 40) _ _
        (record { fits = t.fits; on_key = t.on_key; y_low = t.y_low })
        (both_branches (IsColored size s) (ltb 39 c && ltb c 50) _ _
          (record { fits = t.fits; on_key = t.on_key; y_low = t.y_low }) t)

  add_colors-IsColored :
      (cs : List ℕ) (v : Screen) → IsColored size s v → IsColored size s (add_colors cs v)
  unfolding add_colors
  add_colors-IsColored [] v t = t
  add_colors-IsColored (c ∷ cs) v t =
      add_colors-IsColored cs (add_color c v) (add_color-IsColored c v t)

  apply_styles-IsColored :
      (cs : List ℕ) (v : Screen) → IsColored size s v → IsColored size s (apply_styles cs v)
  unfolding apply_styles IsColored
  apply_styles-IsColored [] v t = t
  apply_styles-IsColored (c ∷ cs) v t =
      both_branches (IsColored size s) (c == 0) _ _
        (record { fits = t.fits; on_key = t.on_key; y_low = t.y_low })
        (both_branches (IsColored size s) (c == 1) _ _ (add_colors-IsColored cs v t) t)

  set_styles-IsTurned : (args : Text) → IsTurned size s → IsTurned size (set_styles args s)
  unfolding set_styles IsColored
  set_styles-IsTurned args t =
      elim (ints (split 59 args))
        as (λ r. IsTurned size (elim r [
          | ok colors ↦ record s { view = apply_styles colors s.view }
          | err raised ↦ s
        ])) [ ok colors ↦ apply_styles-IsColored colors s.view t | err raised ↦ t ]

  set_scroll_region-IsTurned :
      (args : Text) → IsTurned size s → IsTurned size (set_scroll_region args s)
  unfolding set_scroll_region
  set_scroll_region-IsTurned args t =
      elim (point args)
        as (λ r. IsTurned size (elim r [
          | ok region ↦ to_screen_cursor (place s.view.screen_x (pos region.0) s)
          | err raised ↦ s
        ])) [ ok region ↦ record { fits = t.fits; on_key = t.on_key; y_low = tt } | err raised ↦ t ]

-- Each branch keeps the screen whole, or raises a ValueError.
carry_out-IsTurned :
    (size : Size) (c : Command) (s : State)
    → IsBounded size s
    → Holds IsValueError (IsTurned size) (carry_out size c s)
unfolding carry_out
carry_out-IsTurned size (to_column args) s b = move_to_column-IsTurned size s b args
carry_out-IsTurned size (to_row args) s b = move_to_row-IsTurned size s b args
carry_out-IsTurned size (to_point args) s b = move_to_point-IsTurned size s b args
carry_out-IsTurned size (right args) s b = move_right-IsTurned size s b args
carry_out-IsTurned size (toggle_cursor shown) s b = record {
  fits = b.fits;
  on_key = b.on_key;
  y_low = (bounded-IsTurned size s b).y_low;
}
carry_out-IsTurned size erase_right s b = erase_to_end-IsTurned size s b
carry_out-IsTurned size erase_left s b = erase_to_start-IsTurned size s b
carry_out-IsTurned size (erase_chars args) s b = erase_characters-IsTurned size s b
carry_out-IsTurned size erase_below s b = erase_rows_below-IsTurned size s b
carry_out-IsTurned size clear s b = clear_screen-IsTurned size s b
carry_out-IsTurned size (delete_chars args) s b = delete_characters-IsTurned size s b args
carry_out-IsTurned size (scroll_up args) s b = scroll_rows_up-IsTurned size s b args
carry_out-IsTurned size (up args) s b = move_up-IsTurned size s b args
carry_out-IsTurned size (down args) s b = move_down-IsTurned size s b args
carry_out-IsTurned size (right_to_edge args) s b = move_right_to_edge-IsTurned size s b args
carry_out-IsTurned size (left args) s b = move_left-IsTurned size s b args
carry_out-IsTurned size (scroll_region args) s b =
    set_scroll_region-IsTurned size s args (bounded-IsTurned size s b)
carry_out-IsTurned size alt_on s b = enable_alt-IsTurned size s (bounded-IsTurned size s b)
carry_out-IsTurned size alt_off s b = disable_alt-IsTurned size s (bounded-IsTurned size s b)
carry_out-IsTurned size attributes s b = record {
  fits = b.fits;
  on_key = b.on_key;
  y_low = (bounded-IsTurned size s b).y_low;
}
carry_out-IsTurned size (styles args) s b =
    set_styles-IsTurned size s args (bounded-IsTurned size s b)
carry_out-IsTurned size ignored s b = bounded-IsTurned size s b

-- What is left behind a sequence is no longer than what was there.
abbrev pub IsTurnedWithin : Size → ℕ → State × List ℕ → Type 0
IsTurnedWithin size n r = IsTurned size r.0 × (length r.1 ≤ n)

abbrev LeavesAtMost : ℕ → Option (Sequence × List ℕ) → Type 0
LeavesAtMost n none = Unit
LeavesAtMost n (some r) = length r.1 ≤ n

LeavesAtMost-weaken :
    (m n : ℕ) (o : Option (Sequence × List ℕ)) → m ≤ n → LeavesAtMost m o → LeavesAtMost n o
LeavesAtMost-weaken m n none h k = tt
LeavesAtMost-weaken m n (some r) h k = omega (arith, h, k)

with_arg-LeavesAtMost :
    (n c : ℕ) (o : Option (Sequence × List ℕ)) → LeavesAtMost n o → LeavesAtMost n (with_arg c o)
with_arg-LeavesAtMost n c none h = tt
with_arg-LeavesAtMost n c (some r) h = h

read_args-LeavesAtMost : (bs : List ℕ) → LeavesAtMost (length bs) (read_args bs)
unfolding read_args
read_args-LeavesAtMost [] = tt
read_args-LeavesAtMost (b ∷ bs) =
    let rest =
      LeavesAtMost-weaken (length bs) (length (b ∷ bs)) (read_args bs) (omega arith)
        (read_args-LeavesAtMost bs) in
    both_branches (LeavesAtMost (length (b ∷ bs))) (not (is_ascii b)) _ _ rest (
      both_branches (LeavesAtMost (length (b ∷ bs))) (goes_on b) _ _
        (with_arg-LeavesAtMost (length (b ∷ bs)) b (read_args bs) rest) (omega arith))

-- The sequence that was read is carried out.
abbrev continue : Size → State → Option (Sequence × List ℕ) → Result (State × List ℕ)
continue size s o = elim o [
  | none ↦ ok (s, [])
  | some r ↦ carry_out size (dispatch r.0) s >>= λ handled. ok (handled, r.1)
]

continue-IsTurned :
    (size : Size) (n : ℕ) (s : State) (o : Option (Sequence × List ℕ))
    → IsBounded size s
    → LeavesAtMost n o
    → Holds IsValueError (IsTurnedWithin size n) (continue size s o)
continue-IsTurned size n s none b h = (bounded-IsTurned size s b, omega arith)
continue-IsTurned size n s (some r) b h =
    Holds->>= IsValueError (IsTurned size) (IsTurnedWithin size n) (carry_out size (dispatch r.0) s)
      (λ handled. ok (handled, r.1)) (carry_out-IsTurned size (dispatch r.0) s b)
      (λ handled t. (t, h))

pub handle_escape_sequence-IsTurned :
    (size : Size) (bs : List ℕ) (s : State)
    → IsBounded size s
    → Holds IsValueError (IsTurnedWithin size (length bs)) (handle_escape_sequence size bs s)
unfolding handle_escape_sequence
handle_escape_sequence-IsTurned size [] s b = (bounded-IsTurned size s b, omega arith)
handle_escape_sequence-IsTurned size (d ∷ bs) s b =
    both_branches (Holds IsValueError (IsTurnedWithin size (length (d ∷ bs)))) (d == 91) _ _
      (continue-IsTurned size (length (d ∷ bs)) s (read_args bs) b (
        LeavesAtMost-weaken (length bs) (length (d ∷ bs)) (read_args bs) (omega arith)
          (read_args-LeavesAtMost bs)))
      (bounded-IsTurned size s b, omega arith)
