-- ===== src/Lizard/Bounds/Worker.antt =====
-- The bounds of the screen of LizardShell.py over a turn and over the whole loop of screen_worker.
use os_lockdown.Base.{
  ℕ, zero, suc, ◌≤◌, ◌<◌, ◌≡◌, sym, subst, false, List, [], ◌∷◌, ◌++◌, Text, arith, length, drop,
  Bool-cases, both_branches, inl, inr,
}
use os_lockdown.Base.Outcome.{ok, Holds, Holds->>=}
use os_lockdown.Base.Ints.{ℤ, pos, negsuc, minus, is_negative, at_least}
use os_lockdown.Lizard.State.{Rows, Screen, State, Size, redraw_screen, blank_row}
use os_lockdown.Lizard.Layout.{redraw_if_terminal_resized, is_too_small}
use os_lockdown.Lizard.Worker.{
  decode, is_printable, take_char, wrap_column, wrap_row, screen_turn, screen_worker, note_cursor,
}
use os_lockdown.Lizard.Keyboard.Safe.{IsOnKey}
use os_lockdown.Lizard.Bounds.{IsWithin, IsRow, IsFromLast, Fits, IsBounded, IsTurned, IsValueError}
use os_lockdown.Lizard.Bounds.Sizes.{fit_rows-IsSized}
use os_lockdown.Lizard.Bounds.Reads.{has_rows, same_size, suc-minus, add-IsFromLast}
use os_lockdown.Lizard.Bounds.Handler.{IsTurnedWithin}
use os_lockdown.Lizard.Bounds.Chars.{take_char-IsTurned}

has_columns : (size : Size) (v : Screen) → Fits size v → 0 < v.width
unfolding is_too_small
has_columns size v fits = ground (arith, fits.large_enough, fits.same_width)

-- The column is on the screen; the row may be past its end.
record IsWrapped (size : Size) (s : State) : Type 0 where
  fits : Fits size s.view
  x_bound : IsWithin s.view.width s.view.screen_x
  on_key : IsOnKey s.keys
  y_low : IsFromLast s.view.screen_y

IsWithin-or_past : (n : ℕ) (i : ℤ) → is_negative i ≡ false → at_least i n ≡ false → IsWithin n i
IsWithin-or_past n (pos i) h k = ground (arith, k)
IsWithin-or_past n (negsuc i) h k = absurd (ground (arith, h))

wrap_column-IsWrapped : (size : Size) (s : State) → IsTurned size s → IsWrapped size (wrap_column s)
unfolding wrap_column
wrap_column-IsWrapped size s t = elim (Bool-cases (is_negative s.view.screen_x)) [
  | inl negative ↦ rw negative (record {
    fits = t.fits;
    x_bound = has_columns size s.view t.fits;
    on_key = t.on_key;
    y_low = t.y_low;
  })
  | inr other ↦ elim (Bool-cases (at_least s.view.screen_x s.view.width)) [
    | inl past ↦
        rw (other, past)
          (record {
            fits = t.fits;
            x_bound = has_columns size s.view t.fits;
            on_key = t.on_key;
            y_low = add-IsFromLast s.view.screen_y 1 t.y_low;
          })
    | inr within ↦
        rw (other, within)
          (record {
            fits = t.fits;
            x_bound = IsWithin-or_past s.view.width s.view.screen_x other within;
            on_key = t.on_key;
            y_low = t.y_low;
          })
  ]
]

IsRow-or_past : (n : ℕ) (i : ℤ) → IsFromLast i → at_least i n ≡ false → IsRow n i
IsRow-or_past n (pos i) h k = ground (arith, k)
IsRow-or_past n (negsuc i) h k = h

note_cursor-IsBounded :
    (size : Size) (c : Text) (s : State) → IsBounded size s → IsBounded size (note_cursor c s)
note_cursor-IsBounded size [] s b = b
note_cursor-IsBounded size (c ∷ t) s b =
    both_branches (IsBounded size) (is_printable (c ∷ t)) _ s
      (record { fits = b.fits; x_bound = b.x_bound; on_key = b.on_key; y_bound = b.y_bound }) b

last-IsRow : (n : ℕ) → 0 < n → IsRow n (minus n 1)
last-IsRow zero h = absurd (omega (arith, h))
last-IsRow (suc n) h = subst (IsRow (suc n)) (sym (suc-minus n)) (omega arith)

scrolled-IsBounded :
    (size : Size) (s : State) (rows : Rows)
    → IsWrapped size s
    → IsBounded size (
        redraw_screen
          (record s { view = record s.view { screen_y = minus s.view.height 1; screen = rows } }))
unfolding redraw_screen
scrolled-IsBounded size s rows w = record {
  fits = record {
    large_enough = w.fits.large_enough;
    same_width = w.fits.same_width;
    same_height = w.fits.same_height;
    rows = fit_rows-IsSized s.view.width s.view.height rows;
    alt_rows = w.fits.alt_rows;
  };
  x_bound = w.x_bound;
  on_key = w.on_key;
  y_bound = last-IsRow s.view.height (has_rows size s.view w.fits);
}

wrap_row-IsBounded :
    (size : Size) (c : Text) (s : State) → IsWrapped size s → IsBounded size (wrap_row c s)
unfolding wrap_row
wrap_row-IsBounded size c s w = elim (Bool-cases (at_least s.view.screen_y s.view.height)) [
  | inl past ↦
      rw past (scrolled-IsBounded size s (drop 1 s.view.screen ++ (blank_row s.view.width ∷ [])) w)
  | inr within ↦
      let bounded : IsBounded size s = record {
        fits = w.fits;
        x_bound = w.x_bound;
        on_key = w.on_key;
        y_bound = IsRow-or_past s.view.height s.view.screen_y w.y_low within;
      } in
      rw within (note_cursor-IsBounded size c s bounded)
]

abbrev IsBoundedWithin : Size → ℕ → State × List ℕ → Type 0
IsBoundedWithin size n r = IsBounded size r.0 × (length r.1 ≤ n)

-- A turn of the loop raises nothing but a ValueError, and leaves the cursor on the screen or in the
-- row above it.
pub screen_turn-IsBounded :
    (size : Size) (c : ℕ) (bs : List ℕ) (s : State)
    → IsBounded size s
    → Holds IsValueError (IsBoundedWithin size (length bs)) (screen_turn size c bs s)
unfolding screen_turn
screen_turn-IsBounded size c bs s b =
    let drawn = redraw_if_terminal_resized size s in
    let same = sym (same_size size s b.fits) in
    Holds->>= IsValueError (IsTurnedWithin size (length bs)) _ (take_char size c bs drawn)
      (λ taken. ok (wrap_row (decode c) (wrap_column taken.0), taken.1))
      (take_char-IsTurned size drawn (subst (IsBounded size) same b) c bs)
      (λ taken t. (
        wrap_row-IsBounded size (decode c) (wrap_column taken.0)
            (wrap_column-IsWrapped size taken.0 t.0),
        t.1,
      ))

-- Where the terminal keeps its size, the loop of screen_worker ends on any bytes, with a turn for
-- each byte at most; no index is out of range, and what it raises is a ValueError; the screen keeps
-- the terminal's size, and the cursor is on the screen or in the row above it.
pub screen_worker-IsBounded :
    (fuel : ℕ) (size : Size) (bs : List ℕ) (s : State)
    → IsBounded size s
    → length bs ≤ fuel
    → Holds IsValueError (IsBounded size) (screen_worker fuel size bs s)
unfolding screen_worker
screen_worker-IsBounded fuel size [] s b enough = b
screen_worker-IsBounded zero size (c ∷ bs) s b enough = absurd (omega (arith, enough))
screen_worker-IsBounded (suc fuel) size (c ∷ bs) s b enough =
    Holds->>= IsValueError (IsBoundedWithin size (length bs)) (IsBounded size)
      (screen_turn size c bs s) (λ turned. screen_worker fuel size turned.1 turned.0)
      (screen_turn-IsBounded size c bs s b)
      (λ turned t.
        screen_worker-IsBounded fuel size turned.1 turned.0 t.0 (omega (arith, t.1, enough)))
