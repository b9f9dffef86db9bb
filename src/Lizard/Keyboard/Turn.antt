-- ===== src/Lizard/Keyboard/Turn.antt =====
-- A turn of keyboard_worker in LizardShell.py, and turns one after the other.
use os_lockdown.Base.{
  ℕ, ◌≤◌, ◌<◌, ◌≡◌, refl, ◌∙◌, true, false, some, List, [], ◌∷◌, ◌==◌, Text, arith, length,
  get_elem?, get_elem?_lt, All-get_elem?, both_branches,
}
use os_lockdown.Base.Outcome.{ok, err, ◌>>=◌, Holds, Holds->>=, Holds-or_raise}
use os_lockdown.Base.Ints.{ℤ, pos, negsuc}
use os_lockdown.Lizard.State.{Keys, State, index_error}
use os_lockdown.Lizard.Layout.{keyboard_layout}
use os_lockdown.Lizard.Keyboard.{
  Result, redraw_current_key, to_screen_cursor, press, wrap_key, moved_x, moved_y, move_key, arrow,
  is_arrow, read_arrow, read_escape, take_key,
}
use os_lockdown.Lizard.Keyboard.Safe.{Never, IsOnKey, IsRedrawn, redraw_current_key-IsRedrawn}
use os_lockdown.Lizard.Keyboard.Modes.{IsPressed, unchanged, IsRedrawn-IsOnKey}
use os_lockdown.Lizard.Keyboard.Press.{press-IsPressed}

pub wrap_key_lt : (n : ℕ) (i : ℤ) → 0 < n → wrap_key n i < n
unfolding wrap_key
wrap_key_lt n (pos i) h = ground (arith, h)
wrap_key_lt n (negsuc i) h = omega (arith, h)

-- Every row of the keyboard has a key.
row_has_keys : (y : ℕ) (row : List Text) → get_elem? keyboard_layout y ≡ some row → 0 < length row
row_has_keys y row found =
    All-get_elem? (λ r. 0 < length r) keyboard_layout y row
      (omega arith, (omega arith, (omega arith, (omega arith, tt)))) found

pub move_key-IsOnKey : (c : ℕ) (keys : Keys) → IsOnKey keys → Holds Never IsOnKey (move_key c keys)
unfolding move_key
move_key-IsOnKey c keys on =
    let y = wrap_key 4 (moved_y c keys.key_y) in
    let (row, at) =
      get_elem?_lt keyboard_layout y (wrap_key_lt 4 (moved_y c keys.key_y) (omega arith)) in
    Holds-or_raise Never IsOnKey index_error (get_elem? keyboard_layout y) row _ at record {
      row = row;
      found = at;
      on_row = wrap_key_lt (length row) (moved_x c keys.key_x) (row_has_keys y row at);
      caps_shifts = on.caps_shifts;
    }

unsent : (s t : State) → IsOnKey t.keys → IsRedrawn s t → IsPressed s t
unsent s t on r = unchanged s t on r.same_view r.same_sent

arrow-IsPressed : (c : ℕ) (s : State) → IsOnKey s.keys → Holds Never (IsPressed s) (arrow c s)
unfolding arrow
arrow-IsPressed c s on =
    Holds->>= Never (IsRedrawn s) (IsPressed s) (redraw_current_key false s) _
      (redraw_current_key-IsRedrawn false s on)
      λ faded r.
        Holds->>= Never IsOnKey (IsPressed s) (move_key c faded.keys) _
          (move_key-IsOnKey c faded.keys (IsRedrawn-IsOnKey s faded on r))
          λ keys on_keys.
            let moved : State = record faded { keys = keys } in
            Holds->>= Never (IsRedrawn moved) (IsPressed s) (redraw_current_key true moved)
              (λ drawn. ok (to_screen_cursor drawn))
              (redraw_current_key-IsRedrawn true moved on_keys)
              (λ drawn q.
                unchanged s (to_screen_cursor drawn) (IsRedrawn-IsOnKey moved drawn on_keys q)
                  (q.same_view ∙ r.same_view) (q.same_sent ∙ r.same_sent))

-- What is left of the input is no longer than it was.
abbrev pub IsPressedWithin : State → ℕ → State × Text → Type 0
IsPressedWithin s n r = IsPressed s r.0 × (length r.1 ≤ n)

module _ (s : State) (on : IsOnKey s.keys) where
  idle : IsPressed s s
  idle = unchanged s s on refl refl

  abbrev HoldsPressed : ℕ → Result (State × Text) → Type 0
  HoldsPressed n = Holds Never (IsPressedWithin s n)

  -- A step that reads no more characters.
  stepped-IsPressed :
      (m : Result State) (t : Text) (n : ℕ)
      → Holds Never (IsPressed s) m
      → length t ≤ n
      → HoldsPressed n (m >>= λ r. ok (r, t))
  stepped-IsPressed m t n h shorter =
      Holds->>= Never (IsPressed s) (IsPressedWithin s n) m (λ r. ok (r, t)) h (λ r p. (p, shorter))

  read_arrow-IsPressed : (t : Text) → HoldsPressed (length t) (read_arrow t s)
  unfolding read_arrow
  read_arrow-IsPressed [] = (idle, omega arith)
  read_arrow-IsPressed (c ∷ t) =
      both_branches (HoldsPressed (length (c ∷ t))) (is_arrow c) _ _
        (stepped-IsPressed (arrow c s) t (length (c ∷ t)) (arrow-IsPressed c s on) (omega arith))
        (idle, omega arith)

  shorter_input :
      (m n : ℕ) (r : Result (State × Text)) → m ≤ n → HoldsPressed m r → HoldsPressed n r
  shorter_input m n (ok r) h p = (p.0, omega (arith, h, p.1))
  shorter_input m n (err raised) h p = p

  read_escape-IsPressed : (t : Text) → HoldsPressed (length t) (read_escape t s)
  unfolding read_escape
  read_escape-IsPressed [] = (idle, omega arith)
  read_escape-IsPressed (c ∷ t) =
      both_branches (HoldsPressed (length (c ∷ t))) (c == 91) _ _
        (shorter_input (length t) (length (c ∷ t)) (read_arrow t s) (omega arith)
          (read_arrow-IsPressed t))
        (idle, omega arith)

  pub take_key-IsPressed : (c : ℕ) (t : Text) → HoldsPressed (length t) (take_key c t s)
  unfolding take_key
  take_key-IsPressed c t =
      both_branches (HoldsPressed (length t)) (c == 10) _ _
        (stepped-IsPressed (press s) t (length t) (press-IsPressed s on) (omega arith))
        (both_branches (HoldsPressed (length t)) (c == 27) _ _ (read_escape-IsPressed t)
          (idle, omega arith))
