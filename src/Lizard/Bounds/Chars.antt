-- ===== src/Lizard/Bounds/Chars.antt =====
-- The bounds of the screen of LizardShell.py over one byte that the shell prints.
use os_lockdown.Base.{
  ℕ, ◌≡◌, sym, subst, List, [], ◌∷◌, Text, arith, length, All, both_branches, ◌==◌,
}
use os_lockdown.Base.Outcome.{ok, ◌>>=◌, Holds, Holds->>=}
use os_lockdown.Lizard.State.{Cell, State, Size}
use os_lockdown.Lizard.Keyboard.{Result}
use os_lockdown.Lizard.Escape.{put_cell}
use os_lockdown.Lizard.Worker.{
  decode, is_printable, backspace, print_char, take_char, set_char, blank_char,
}
use os_lockdown.Lizard.Bounds.{IsSized, IsFromLast, IsBounded, IsTurned, IsValueError}
use os_lockdown.Lizard.Bounds.Sizes.{
  IsIndex, put_cell-IsSized, Holds-item, row-IsIndex, within-IsIndex,
}
use os_lockdown.Lizard.Bounds.Reads.{has_rows, add-IsFromLast}
use os_lockdown.Lizard.Bounds.Moves.{bounded-IsTurned}
use os_lockdown.Lizard.Bounds.Edits.{resized}
use os_lockdown.Lizard.Bounds.Handler.{IsTurnedWithin, handle_escape_sequence-IsTurned}

trivial : (cs : List Cell) → All (λ c. Unit {0}) cs
trivial [] = tt
trivial (c ∷ cs) = (tt, trivial cs)

module _ (size : Size) (s : State) (b : IsBounded size s) where
  y_low : IsFromLast s.view.screen_y
  y_low = (bounded-IsTurned size s b).y_low

  put_char-IsSized :
      (f : Cell → Cell)
      → Holds IsValueError
          (IsSized s.view.width s.view.height)
          (put_cell s.view.screen_x s.view.screen_y f s.view.screen)
  put_char-IsSized f =
      put_cell-IsSized s.view.width s.view.height f s.view.screen s.view.screen_x s.view.screen_y
        b.fits.rows (has_rows size s.view b.fits) b.x_bound b.y_bound

  print_char-IsTurned : (t : Text) → Holds IsValueError (IsTurned size) (print_char t s)
  unfolding print_char
  print_char-IsTurned t =
      Holds->>= IsValueError (IsSized s.view.width s.view.height) (IsTurned size)
        (put_cell s.view.screen_x s.view.screen_y (set_char t s.view) s.view.screen) _
        (put_char-IsSized (set_char t s.view))
        (λ rows sized. record {
          fits = resized size s b rows sized;
          on_key = b.on_key;
          y_low = y_low;
        })

  backspace-IsTurned : Holds IsValueError (IsTurned size) (backspace s)
  unfolding backspace
  backspace-IsTurned =
      let index =
        row-IsIndex s.view.height s.view.screen_y (has_rows size s.view b.fits) b.y_bound in
      Holds-item (λ row. length row ≡ s.view.width) (IsTurned size) s.view.screen s.view.screen_y _
        (subst (λ n. IsIndex n s.view.screen_y) (sym b.fits.rows.row_count) index)
        b.fits.rows.row_length
        λ row same.
          Holds-item (λ c. Unit {0}) (IsTurned size) row s.view.screen_x _
            (subst (λ n. IsIndex n s.view.screen_x) (sym same)
              (within-IsIndex s.view.width s.view.screen_x b.x_bound))
            (trivial row)
            λ c h.
              Holds->>= IsValueError (IsSized s.view.width s.view.height) (IsTurned size)
                (put_cell s.view.screen_x s.view.screen_y blank_char s.view.screen) _
                (put_char-IsSized blank_char)
                (λ rows sized. record {
                  fits = resized size s b rows sized;
                  on_key = b.on_key;
                  y_low = y_low;
                })

  abbrev HoldsTurned : ℕ → Result (State × List ℕ) → Type 0
  HoldsTurned n = Holds IsValueError (IsTurnedWithin size n)

  -- A step that reads no more bytes.
  stepped-IsTurned :
      (m : Result State) (bs : List ℕ)
      → Holds IsValueError (IsTurned size) m
      → HoldsTurned (length bs) (m >>= λ t. ok (t, bs))
  stepped-IsTurned m bs h =
      Holds->>= IsValueError (IsTurned size) (IsTurnedWithin size (length bs)) m (λ t. ok (t, bs)) h
        (λ t turned. (turned, omega arith))

  pub take_char-IsTurned : (c : ℕ) (bs : List ℕ) → HoldsTurned (length bs) (take_char size c bs s)
  unfolding take_char
  take_char-IsTurned c bs =
      let P = HoldsTurned (length bs) in
      let turned = bounded-IsTurned size s b in
      both_branches P (c == 27) _ _ (handle_escape_sequence-IsTurned size bs s b) (
        both_branches P (c == 10) _ _
          (
            record {
              fits = b.fits;
              on_key = b.on_key;
              y_low = add-IsFromLast s.view.screen_y 1 y_low;
            },
            omega arith,
          )
          (both_branches P (c == 13) _ _
            (record { fits = b.fits; on_key = b.on_key; y_low = y_low }, omega arith)
            (both_branches P (c == 8) _ _ (stepped-IsTurned (backspace s) bs backspace-IsTurned) (
              both_branches P (is_printable (decode c)) _ _
                (stepped-IsTurned (print_char (decode c) s) bs (print_char-IsTurned (decode c)))
                (turned, omega arith)))))
