-- ===== src/Lizard/Keyboard/Safe.antt =====
-- What holds of the keyboard of LizardShell.py between two turns.
use os_lockdown.Base.{
  ℕ, ◌<◌, ◌≡◌, refl, sym, subst, Bool, true, false, not, ◌&&◌, ◌||◌, Option, none, some, List, [],
  ◌∷◌, ◌==◌, Text, codes, text_eq, arith, length, any, All, All-get_elem?, get_elem?, get_elem?_lt,
}
use os_lockdown.Base.Outcome.{◌>>=◌, or_raise, Holds, Holds->>=, Holds-or_raise}
use os_lockdown.Lizard.State.{Keys, State, Error, index_error}
use os_lockdown.Lizard.Layout.{keyboard_layout, Mapped, mapable_keys, lookup, shifted_key}
use os_lockdown.Lizard.Keyboard.{Result, redraw_current_key, mapped_text, current_key}

-- No exception at all.
abbrev pub Never : Error → Type 0
Never raised = ⊥

-- The cursor is on a key, and Caps is on only where Shift is.
pub record IsOnKey (keys : Keys) : Type 0 where
  pub row : List Text
  pub found : get_elem? keyboard_layout keys.key_y ≡ some row
  pub on_row : keys.key_x < length row
  pub caps_shifts : (not keys.caps_enabled || keys.shift_enabled) ≡ true

-- Only what is drawn differs.
pub record IsRedrawn (s t : State) : Type 0 where
  pub same_view : t.view ≡ s.view
  pub same_keys : t.keys ≡ s.keys
  pub same_sent : t.sent ≡ s.sent

pub redraw_current_key-IsRedrawn :
    (selected : Bool) (s : State)
    → IsOnKey s.keys
    → Holds Never (IsRedrawn s) (redraw_current_key selected s)
unfolding redraw_current_key
redraw_current_key-IsRedrawn selected s on =
    let (key, at) = get_elem?_lt on.row s.keys.key_x on.on_row in
    Holds-or_raise Never (IsRedrawn s) index_error (get_elem? keyboard_layout s.keys.key_y) on.row _
      on.found
      (Holds-or_raise Never (IsRedrawn s) index_error (get_elem? on.row s.keys.key_x) key _ at
        record { same_view = refl; same_keys = refl; same_sent = refl })

-- A text without the digit 7
abbrev pub seven_free : Text → Bool
seven_free t = not (any (λ c. c == 55) t)

abbrev pub shifts_seven_free : Option ℕ → Bool
shifts_seven_free none = true
shifts_seven_free (some c) = not (c == 55)

abbrev pub is_single : Text → Bool
is_single [] = false
is_single (c ∷ []) = true
is_single (c ∷ d ∷ t) = false

abbrev pub sends_seven_free : Text → Option Mapped → Bool
sends_seven_free key none = is_single key
sends_seven_free key (some mapped) = seven_free (mapped_text mapped)

abbrev pub is_mode : Text → Bool
is_mode key =
    text_eq key (codes "Backspace")
    || (text_eq key (codes "Ctrl") || (text_eq key (codes "Shift") || text_eq key (codes "Caps")))

-- A key is one that changes a mode, one that is mapped, or a character, and not the digit 7.
abbrev pub is_plain : Text → Bool
is_plain key =
    seven_free key
    && (shifts_seven_free (shifted_key key)
        && (is_mode key || sends_seven_free key (lookup mapable_keys key)))

abbrev pub IsPlain : Text → Type 0
IsPlain key = is_plain key ≡ true

unfoldable all_of {ℓ} : {A : Type ℓ} (p : A → Bool) → List A → Bool
all_of p [] = true
all_of p (x ∷ xs) = p x && all_of p xs

all_of-All {ℓ} :
    {A : Type ℓ} (p : A → Bool) (xs : List A) → all_of p xs ≡ true → All (λ x. p x ≡ true) xs
unfolding all_of
all_of-All p [] h = tt
all_of-All p (x ∷ xs) h = (ground (arith, h), all_of-All p xs (ground (arith, h)))

layout_plain : all_of (all_of is_plain) keyboard_layout ≡ true
unfolding all_of text_eq lookup shifted_key
layout_plain = refl

-- The key that the cursor is on.
pub current_key-IsPlain {ℓ} :
    {B : Type ℓ} (P : B → Type 0) (keys : Keys) (next : Text → Result B)
    → IsOnKey keys
    → ((key : Text) → IsPlain key → Holds Never P (next key))
    → Holds Never P (current_key keys >>= next)
current_key-IsPlain P keys next on then_ =
    let (key, at) = get_elem?_lt on.row keys.key_x on.on_row in
    let row_plain =
      All-get_elem? (λ row. all_of is_plain row ≡ true) keyboard_layout keys.key_y on.row
        (all_of-All (all_of is_plain) keyboard_layout layout_plain) on.found in
    let plain =
      All-get_elem? IsPlain on.row keys.key_x key (all_of-All is_plain on.row row_plain) at in
    Holds->>= Never IsPlain P (current_key keys) next
      (Holds-or_raise Never IsPlain index_error (get_elem? keyboard_layout keys.key_y) on.row
        (λ row. or_raise index_error (get_elem? row keys.key_x)) on.found
        (subst (λ o. Holds Never IsPlain (or_raise index_error o)) (sym at) plain))
      then_
