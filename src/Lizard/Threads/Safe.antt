-- ===== src/Lizard/Threads/Safe.antt =====
-- The screen and the keyboard of LizardShell.py under both threads.
use os_lockdown.Base.{sym, subst, Bool, true, false, List, [], ◌∷◌, Text, length}
use os_lockdown.Base.Outcome.{Outcome, ok, err, ◌>>=◌, Holds, Holds->>=, Holds-map}
use os_lockdown.Lizard.State.{State, Size, Error}
use os_lockdown.Lizard.Layout.{redraw_if_terminal_resized}
use os_lockdown.Lizard.Keyboard.{keyboard_turn, take_key}
use os_lockdown.Lizard.Keyboard.Safe.{Never}
use os_lockdown.Lizard.Keyboard.Modes.{IsPressed}
use os_lockdown.Lizard.Keyboard.Turn.{IsPressedWithin, take_key-IsPressed}
use os_lockdown.Lizard.Worker.{screen_turn}
use os_lockdown.Lizard.Bounds.{IsBounded, IsValueError, Fits, IsWithin, IsRow}
use os_lockdown.Lizard.Bounds.Reads.{same_size}
use os_lockdown.Lizard.Bounds.Worker.{screen_turn-IsBounded}
use os_lockdown.Lizard.Threads.{Input, screen_thread, keyboard_thread, run_threads}

abbrev pub IsBoundedWith : Size → State × Input → Type 0
IsBoundedWith size r = IsBounded size r.0

never : (e : Error) → Never e → IsValueError e
never e h = absurd h

-- Every exception of the keyboard's thread, of which there is none, is a ValueError.
weaken-Never {ℓ} :
    {A : Type ℓ} (P : A → Type 0) (r : Outcome Error A) → Holds Never P r → Holds IsValueError P r
weaken-Never P (ok a) h = h
weaken-Never P (err raised) h = never raised h

pressed-IsBounded :
    (size : Size) (s t : State) → IsBounded size s → IsPressed s t → IsBounded size t
pressed-IsBounded size s t b p = record {
  fits = subst (Fits size) (sym p.same_view) b.fits;
  on_key = p.on_key;
  x_bound = subst (λ v. IsWithin v.width v.screen_x) (sym p.same_view) b.x_bound;
  y_bound = subst (λ v. IsRow v.height v.screen_y) (sym p.same_view) b.y_bound;
}

keyboard_turn-IsBounded :
    (size : Size) (t : Text) (s : State)
    → IsBounded size s
    → Holds IsValueError (λ r. IsBounded size r.0) (keyboard_turn size t s)
unfolding keyboard_turn
keyboard_turn-IsBounded size [] s b = b
keyboard_turn-IsBounded size (c ∷ t) s b =
    let drawn = redraw_if_terminal_resized size s in
    let on_drawn = subst (IsBounded size) (sym (same_size size s b.fits)) b in
    weaken-Never _ (take_key c t drawn) (
      Holds-map Never (IsPressedWithin drawn (length t)) (λ r. IsBounded size r.0)
        (take_key c t drawn) (take_key-IsPressed drawn on_drawn.on_key c t)
        (λ r p. pressed-IsBounded size drawn r.0 on_drawn p.0))

keyboard_thread-IsBounded :
    (size : Size) (input : Input) (s : State)
    → IsBounded size s
    → Holds IsValueError (IsBoundedWith size) (keyboard_thread size input s)
unfolding keyboard_thread
keyboard_thread-IsBounded size input s b =
    Holds->>= IsValueError (λ r. IsBounded size r.0) (IsBoundedWith size)
      (keyboard_turn size input.typed s) (λ r. ok (r.0, record input { typed = r.1 }))
      (keyboard_turn-IsBounded size input.typed s b) (λ r h. h)

screen_thread-IsBounded :
    (size : Size) (input : Input) (s : State)
    → IsBounded size s
    → Holds IsValueError (IsBoundedWith size) (screen_thread size input s)
unfolding screen_thread
screen_thread-IsBounded size input s b =
    elim input.printed
      as (λ bytes. Holds IsValueError (IsBoundedWith size) (elim bytes [
        | [] ↦ ok (s, input)
        | c ∷ bs ↦ screen_turn size c bs s >>= λ r. ok (r.0, record input { printed = r.1 })
      ])) [
        | [] ↦ b
        | c ∷ bs ↦
            Holds->>= IsValueError _ (IsBoundedWith size) (screen_turn size c bs s)
              (λ r. ok (r.0, record input { printed = r.1 })) (screen_turn-IsBounded size c bs s b)
              (λ r h. h.0)
      ]

-- Where the terminal keeps its size, and the threads take their turns in any order, on whatever the
-- shell prints and the user types: no index is out of range, and what is raised is a ValueError; the
-- screen keeps the terminal's size, its cursor is on it or in the row above it, the keyboard's
-- cursor is on a key, and Caps is on only where Shift is.
pub run_threads-IsBounded :
    (size : Size) (schedule : List Bool) (input : Input) (s : State)
    → IsBounded size s
    → Holds IsValueError (IsBoundedWith size) (run_threads size schedule input s)
unfolding run_threads
run_threads-IsBounded size [] input s b = b
run_threads-IsBounded size (true ∷ schedule) input s b =
    Holds->>= IsValueError (IsBoundedWith size) (IsBoundedWith size) (screen_thread size input s)
      (λ r. run_threads size schedule r.1 r.0) (screen_thread-IsBounded size input s b)
      (λ r h. run_threads-IsBounded size schedule r.1 r.0 h)
run_threads-IsBounded size (false ∷ schedule) input s b =
    Holds->>= IsValueError (IsBoundedWith size) (IsBoundedWith size) (keyboard_thread size input s)
      (λ r. run_threads size schedule r.1 r.0) (keyboard_thread-IsBounded size input s b)
      (λ r h. run_threads-IsBounded size schedule r.1 r.0 h)
