-- ===== src/Lizard/Keyboard/Press.antt =====
-- A press of a key of LizardShell.py.
use os_lockdown.Base.{
  ℕ, ◌-◌, ◌≡◌, refl, ap, Bool, true, false, not, ◌&&◌, Option, none, some, [], ◌∷◌, ◌++◌, ◌==◌,
  Text, codes, text_eq, arith, if◌then◌else◌, ltb, Bool-cases, both_branches, inl, inr, ◌⊎◌,
}
use os_lockdown.Base.Outcome.{ok, ◌>>=◌, Holds, Holds->>=}
use os_lockdown.Lizard.State.{State}
use os_lockdown.Lizard.Layout.{Mapped, mapable_keys, lookup, shifted_key, redraw_keyboard}
use os_lockdown.Lizard.Keyboard.{
  redraw_current_key, mapped_text, send, to_screen_cursor, ord, type_with_ctrl, type_shifted,
  type_key, press_key, press,
}
use os_lockdown.Lizard.Keyboard.Safe.{
  Never, IsOnKey, IsRedrawn, redraw_current_key-IsRedrawn, seven_free, shifts_seven_free,
  sends_seven_free, is_single, IsPlain, current_key-IsPlain,
}
use os_lockdown.Lizard.Keyboard.Modes.{
  IsPressed, with_modes, unchanged, IsRedrawn-IsOnKey, sent_bytes, toggle_ctrl-IsPressed,
  toggle_shift-IsPressed, toggle_caps-IsPressed,
}

-- The byte that a letter stands for with Ctrl is between 1 and 26.
control_seven_free : (c : ℕ) → seven_free ((c - 96) ∷ []) ≡ true ⊎ (ltb 96 c && ltb c 123 ≡ false)
control_seven_free c = elim (Bool-cases (ltb 96 c && ltb c 123)) [
  | inl letter ↦ inl (ground (arith, letter))
  | inr other ↦ inr other
]

type_with_ctrl-IsPressed :
    (c : ℕ) (s : State) → IsOnKey s.keys → Holds Never (IsPressed s) (type_with_ctrl (c ∷ []) s)
unfolding type_with_ctrl
type_with_ctrl-IsPressed c s on =
    let plain : State = record s { keys = record s.keys { ctrl_enabled = false } } in
    let on_plain =
      with_modes s.keys false s.keys.shift_enabled s.keys.caps_enabled on on.caps_shifts in
    Holds->>= Never (IsRedrawn plain) (IsPressed s) (redraw_current_key true plain)
      (λ drawn. ord (c ∷ []) >>= λ d. ok (
        if ltb 96 d && ltb d 123
        then send ((d - 96) ∷ []) (to_screen_cursor drawn)
        else to_screen_cursor drawn))
      (redraw_current_key-IsRedrawn true plain on_plain)
      λ drawn r.
        let kept =
          unchanged s (to_screen_cursor drawn) (IsRedrawn-IsOnKey plain drawn on_plain r)
            r.same_view r.same_sent in
        elim (control_seven_free c) [
          | inr other ↦ rw other kept
          | inl free ↦
              both_branches (IsPressed s) (ltb 96 c && ltb c 123) _ _
                (record {
                  on_key = kept.on_key;
                  same_view = kept.same_view;
                  bytes = (c - 96) ∷ [];
                  sends = ap (λ t. t ++ ((c - 96) ∷ [])) r.same_sent;
                  no_seven = free;
                })
                kept
        ]

by_caps-IsPressed :
    (c : ℕ) (s : State) (caps : Bool)
    → IsOnKey s.keys
    → seven_free (c ∷ []) ≡ true
    → s.keys.caps_enabled ≡ caps
    → IsPressed s (
        if caps
        then send (c ∷ []) s
        else redraw_keyboard
            (send (c ∷ []) (record s { keys = record s.keys { shift_enabled = false } })))
unfolding redraw_keyboard
by_caps-IsPressed c s true on free h = sent_bytes s (c ∷ []) on free
by_caps-IsPressed c s false on free h = record {
  on_key = with_modes s.keys s.keys.ctrl_enabled false s.keys.caps_enabled on (ground (arith, h));
  same_view = refl;
  bytes = c ∷ [];
  sends = refl;
  no_seven = free;
}

type_shifted-IsPressed :
    (c : ℕ) (s : State) → IsOnKey s.keys → not (c == 55) ≡ true → IsPressed s (type_shifted c s)
unfolding type_shifted
type_shifted-IsPressed c s on free =
    by_caps-IsPressed c s s.keys.caps_enabled on (ground (arith, free)) refl

type_key-IsPressed :
    (c : ℕ) (s : State)
    → IsOnKey s.keys
    → seven_free (c ∷ []) ≡ true
    → shifts_seven_free (shifted_key (c ∷ [])) ≡ true
    → Holds Never (IsPressed s) (type_key (c ∷ []) s)
unfolding type_key
type_key-IsPressed c s on free shifts =
    both_branches (Holds Never (IsPressed s)) s.keys.ctrl_enabled _ _
      (type_with_ctrl-IsPressed c s on)
      (both_branches (Holds Never (IsPressed s)) s.keys.shift_enabled _ _
        (with_shift (shifted_key (c ∷ [])) shifts) (sent_bytes s (c ∷ []) on free))
  where
    with_shift :
        (o : Option ℕ)
        → shifts_seven_free o ≡ true
        → Holds Never
            (IsPressed s)
            (elim o [ none ↦ ok (send (c ∷ []) s) | some d ↦ ok (type_shifted d s) ])
    with_shift none h = sent_bytes s (c ∷ []) on free
    with_shift (some d) h = type_shifted-IsPressed d s on h

type_single-IsPressed :
    (key : Text) (s : State)
    → IsOnKey s.keys
    → seven_free key ≡ true
    → shifts_seven_free (shifted_key key) ≡ true
    → is_single key ≡ true
    → Holds Never (IsPressed s) (type_key key s)
type_single-IsPressed [] s on free shifts single = absurd (ground (arith, single))
type_single-IsPressed (c ∷ []) s on free shifts single = type_key-IsPressed c s on free shifts
type_single-IsPressed (c ∷ d ∷ t) s on free shifts single = absurd (ground (arith, single))

mapped-IsPressed :
    (key : Text) (o : Option Mapped) (s : State)
    → IsOnKey s.keys
    → seven_free key ≡ true
    → shifts_seven_free (shifted_key key) ≡ true
    → sends_seven_free key o ≡ true
    → Holds Never
        (IsPressed s)
        (elim o [ some mapped ↦ ok (send (mapped_text mapped) s) | none ↦ type_key key s ])
mapped-IsPressed key none s on free shifts h = type_single-IsPressed key s on free shifts h
mapped-IsPressed key (some mapped) s on free shifts h = sent_bytes s (mapped_text mapped) on h

press_key-IsPressed :
    (key : Text) (s : State)
    → IsOnKey s.keys
    → IsPlain key
    → Holds Never (IsPressed s) (press_key key s)
unfolding press_key
press_key-IsPressed key s on plain =
    let free : seven_free key ≡ true = ground (arith, plain) in
    let shifts : shifts_seven_free (shifted_key key) ≡ true = ground (arith, plain) in
    elim (Bool-cases (text_eq key (codes "Backspace"))) [
      | inl h ↦ rw h (sent_bytes s (8 ∷ []) on refl)
      | inr h1 ↦ elim (Bool-cases (text_eq key (codes "Ctrl"))) [
        | inl h ↦ rw (h1, h) (toggle_ctrl-IsPressed s on)
        | inr h2 ↦ elim (Bool-cases (text_eq key (codes "Shift"))) [
          | inl h ↦ rw (h1, h2, h) (toggle_shift-IsPressed s on)
          | inr h3 ↦ elim (Bool-cases (text_eq key (codes "Caps"))) [
            | inl h ↦ rw (h1, h2, h3, h) (toggle_caps-IsPressed s on)
            | inr h4 ↦
                let sends : sends_seven_free key (lookup mapable_keys key) ≡ true =
                  ground (arith, plain, h1, h2, h3, h4) in
                rw (h1, h2, h3, h4)
                  (mapped-IsPressed key (lookup mapable_keys key) s on free shifts sends)
          ]
        ]
      ]
    ]

-- A press of Enter raises nothing.
pub press-IsPressed : (s : State) → IsOnKey s.keys → Holds Never (IsPressed s) (press s)
unfolding press
press-IsPressed s on =
    current_key-IsPlain (IsPressed s) s.keys (λ key. press_key key s) on
      (λ key plain. press_key-IsPressed key s on plain)
