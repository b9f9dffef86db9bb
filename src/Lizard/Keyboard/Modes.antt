-- ===== src/Lizard/Keyboard/Modes.antt =====
-- What a press of a key of LizardShell.py leaves, and the keys that change a mode.
use os_lockdown.Base.{
  ◌≡◌, refl, sym, ◌∙◌, subst, Bool, true, false, not, ◌||◌, [], ◌++◌, append-nil, Text,
  if◌then◌else◌,
}
use os_lockdown.Base.Outcome.{ok, Holds, Holds->>=}
use os_lockdown.Lizard.State.{Keys, State}
use os_lockdown.Lizard.Layout.{redraw_keyboard}
use os_lockdown.Lizard.Keyboard.{
  redraw_current_key, send, to_screen_cursor, toggle_ctrl, toggle_shift, toggle_caps,
}
use os_lockdown.Lizard.Keyboard.Safe.{
  Never, IsOnKey, IsRedrawn, redraw_current_key-IsRedrawn, seven_free,
}

-- What a press leaves: a cursor on a key, and bytes for the shell that are not the digit 7.
pub record IsPressed (s t : State) : Type 0 where
  pub on_key : IsOnKey t.keys
  pub same_view : t.view ≡ s.view
  pub bytes : Text
  pub sends : t.sent ≡ s.sent ++ bytes
  pub no_seven : seven_free bytes ≡ true

-- The modes change, and the cursor stays where it is.
pub with_modes :
    (keys : Keys) (ctrl shift caps : Bool)
    → IsOnKey keys
    → (not caps || shift) ≡ true
    → IsOnKey (record keys { ctrl_enabled = ctrl; shift_enabled = shift; caps_enabled = caps })
with_modes keys ctrl shift caps on h = record {
  row = on.row;
  found = on.found;
  on_row = on.on_row;
  caps_shifts = h;
}

pub unchanged : (s t : State) → IsOnKey t.keys → t.view ≡ s.view → t.sent ≡ s.sent → IsPressed s t
unchanged s t on same_view same_sent = record {
  on_key = on;
  same_view = same_view;
  bytes = [];
  sends = same_sent ∙ sym (append-nil s.sent);
  no_seven = refl;
}

pub IsRedrawn-IsOnKey : (s t : State) → IsOnKey s.keys → IsRedrawn s t → IsOnKey t.keys
IsRedrawn-IsOnKey s t on r = subst IsOnKey (sym r.same_keys) on

pub sent_bytes :
    (s : State) (bytes : Text)
    → IsOnKey s.keys
    → seven_free bytes ≡ true
    → IsPressed s (send bytes s)
sent_bytes s bytes on free = record {
  on_key = on;
  same_view = refl;
  bytes = bytes;
  sends = refl;
  no_seven = free;
}

pub toggle_ctrl-IsPressed : (s : State) → IsOnKey s.keys → Holds Never (IsPressed s) (toggle_ctrl s)
unfolding toggle_ctrl
toggle_ctrl-IsPressed s on =
    let toggled : State = record s {
      keys = record s.keys { ctrl_enabled = not s.keys.ctrl_enabled };
    } in
    let on_toggled =
      with_modes s.keys (not s.keys.ctrl_enabled) s.keys.shift_enabled s.keys.caps_enabled on
        on.caps_shifts in
    Holds->>= Never (IsRedrawn toggled) (IsPressed s) (redraw_current_key true toggled)
      (λ drawn. ok (to_screen_cursor drawn)) (redraw_current_key-IsRedrawn true toggled on_toggled)
      (λ drawn r.
        unchanged s (to_screen_cursor drawn) (IsRedrawn-IsOnKey toggled drawn on_toggled r)
          r.same_view r.same_sent)

pub toggle_shift-IsPressed : (s : State) → IsOnKey s.keys → IsPressed s (toggle_shift s)
unfolding toggle_shift redraw_keyboard
toggle_shift-IsPressed s on =
    unchanged s (toggle_shift s)
      (with_modes s.keys s.keys.ctrl_enabled (not s.keys.shift_enabled) _ on
        (caps_follow s.keys.shift_enabled s.keys.caps_enabled))
      refl refl
  where
    caps_follow :
        (shift caps : Bool) → (not (if not shift then caps else false) || not shift) ≡ true
    caps_follow true caps = refl
    caps_follow false true = refl
    caps_follow false false = refl

pub toggle_caps-IsPressed : (s : State) → IsOnKey s.keys → IsPressed s (toggle_caps s)
unfolding toggle_caps redraw_keyboard
toggle_caps-IsPressed s on =
    unchanged s (toggle_caps s)
      (with_modes s.keys s.keys.ctrl_enabled (not s.keys.caps_enabled) (not s.keys.caps_enabled) on
        (follow s.keys.caps_enabled))
      refl refl
  where
    follow : (caps : Bool) → (not (not caps) || not caps) ≡ true
    follow true = refl
    follow false = refl
