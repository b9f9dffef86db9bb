-- ===== src/Lizard/Keyboard/Typed.antt =====
-- Turns of keyboard_worker in LizardShell.py, one after the other.
use os_lockdown.Base.{
  ℕ, zero, suc, ◌-◌, ◌≤◌, ◌≡◌, refl, sym, ap, ◌∙◌, subst, true, ◌&&◌, [], ◌∷◌, ◌++◌, ◌==◌, Text,
  arith, length, append_assoc, any-append, both_branches,
}
use os_lockdown.Base.Outcome.{Holds, Holds->>=, Holds-map}
use os_lockdown.Lizard.State.{State, Size}
use os_lockdown.Lizard.Layout.{is_too_small, redraw_if_terminal_resized, redraw_keyboard}
use os_lockdown.Lizard.State.{redraw_screen}
use os_lockdown.Lizard.Keyboard.{take_key, keyboard_turn, keyboard_worker}
use os_lockdown.Lizard.Keyboard.Safe.{Never, IsOnKey, seven_free}
use os_lockdown.Lizard.Keyboard.Modes.{IsPressed}
use os_lockdown.Lizard.Keyboard.Turn.{IsPressedWithin, take_key-IsPressed}

-- A change of the terminal's size changes what is shown alone.
pub resized_keys :
    (size : Size) (s : State)
    → ((redraw_if_terminal_resized size s).keys ≡ s.keys)
      × ((redraw_if_terminal_resized size s).sent ≡ s.sent)
unfolding redraw_if_terminal_resized redraw_screen redraw_keyboard
resized_keys size s =
    both_branches (λ (t : State). (t.keys ≡ s.keys) × (t.sent ≡ s.sent)) (is_too_small size) _ _
      (refl, refl)
      (both_branches (λ (t : State). (t.keys ≡ s.keys) × (t.sent ≡ s.sent))
        (size.columns == s.view.width && (size.lines - 5) == s.view.height) s _ (refl, refl)
        (refl, refl))

-- Where the keyboard is between two turns, since the first of which `before` was sent.
pub record IsTyped (before : Text) (s : State) : Type 0 where
  pub on_key : IsOnKey s.keys
  pub bytes : Text
  pub sends : s.sent ≡ before ++ bytes
  pub no_seven : seven_free bytes ≡ true

abbrev IsTypedWithin : Text → ℕ → State × Text → Type 0
IsTypedWithin before n r = IsTyped before r.0 × (length r.1 ≤ n)

both_seven_free :
    (s t : Text) → seven_free s ≡ true → seven_free t ≡ true → seven_free (s ++ t) ≡ true
both_seven_free s t h k = ground (arith, h, k, any-append (λ c. c == 55) s t)

turned-IsTyped : (before : Text) (s t : State) → IsTyped before s → IsPressed s t → IsTyped before t
turned-IsTyped before s t typed pressed = record {
  on_key = pressed.on_key;
  bytes = typed.bytes ++ pressed.bytes;
  sends =
      pressed.sends
      ∙ ap (λ u. u ++ pressed.bytes) typed.sends
      ∙ append_assoc before typed.bytes pressed.bytes;
  no_seven = both_seven_free typed.bytes pressed.bytes typed.no_seven pressed.no_seven;
}

resized-IsTyped :
    (before : Text) (size : Size) (s : State)
    → IsTyped before s
    → IsTyped before (redraw_if_terminal_resized size s)
resized-IsTyped before size s typed = record {
  on_key = subst IsOnKey (sym (resized_keys size s).0) typed.on_key;
  bytes = typed.bytes;
  sends = (resized_keys size s).1 ∙ typed.sends;
  no_seven = typed.no_seven;
}

-- Whatever size the terminal has by then, a turn raises nothing.
pub keyboard_turn-IsTyped :
    (before : Text) (size : Size) (c : ℕ) (t : Text) (s : State)
    → IsTyped before s
    → Holds Never (IsTypedWithin before (length t)) (keyboard_turn size (c ∷ t) s)
unfolding keyboard_turn
keyboard_turn-IsTyped before size c t s typed =
    let drawn = redraw_if_terminal_resized size s in
    let on_drawn = resized-IsTyped before size s typed in
    Holds-map Never (IsPressedWithin drawn (length t)) (IsTypedWithin before (length t))
      (take_key c t drawn) (take_key-IsPressed drawn on_drawn.on_key c t)
      (λ r p. (turned-IsTyped before drawn r.0 on_drawn p.0, p.1))

-- On whatever is typed, keyboard_worker ends with a turn for each character at most and raises
-- nothing; the cursor stays on a key, Caps is on only where Shift is, and the shell is never sent
-- the digit 7.
pub keyboard_worker-IsTyped :
    (before : Text) (fuel : ℕ) (size : Size) (t : Text) (s : State)
    → IsTyped before s
    → length t ≤ fuel
    → Holds Never (IsTyped before) (keyboard_worker fuel size t s)
unfolding keyboard_worker
keyboard_worker-IsTyped before fuel size [] s typed enough = typed
keyboard_worker-IsTyped before zero size (c ∷ t) s typed enough = absurd (omega (arith, enough))
keyboard_worker-IsTyped before (suc fuel) size (c ∷ t) s typed enough =
    Holds->>= Never (IsTypedWithin before (length t)) (IsTyped before)
      (keyboard_turn size (c ∷ t) s) (λ turned. keyboard_worker fuel size turned.1 turned.0)
      (keyboard_turn-IsTyped before size c t s typed)
      (λ turned p.
        keyboard_worker-IsTyped before fuel size turned.1 turned.0 p.0 (omega (arith, p.1, enough)))
