-- ===== src/Lizard/Threads.antt =====
-- `main` of LizardShell.py: the two threads that it starts take turns on one state, in any order.
pub mod Safe
use os_lockdown.Base.{ℕ, Bool, true, false, List, [], ◌∷◌, Text}
use os_lockdown.Base.Outcome.{Outcome, ok, err, ◌>>=◌}
use os_lockdown.Lizard.State.{State, Size, Error}
use os_lockdown.Lizard.Keyboard.{Result, keyboard_turn}
use os_lockdown.Lizard.Worker.{screen_turn}

-- What the shell has printed and the user has typed, still to be read.
pub record Input : Type 0 where
  pub printed : List ℕ
  pub typed : Text

-- A turn of screen_worker; without a byte it waits.
unfoldable pub screen_thread : Size → Input → State → Result (State × Input)
screen_thread size input s = elim input.printed [
  | [] ↦ ok (s, input)
  | b ∷ bs ↦ screen_turn size b bs s >>= λ r. ok (r.0, record input { printed = r.1 })
]

unfoldable pub keyboard_thread : Size → Input → State → Result (State × Input)
keyboard_thread size input s =
    keyboard_turn size input.typed s >>= λ r. ok (r.0, record input { typed = r.1 })

-- The threads' turns in the order that `schedule` gives, true for the screen's.
unfoldable pub run_threads : Size → List Bool → Input → State → Result (State × Input)
run_threads size [] input s = ok (s, input)
run_threads size (true ∷ schedule) input s =
    screen_thread size input s >>= λ r. run_threads size schedule r.1 r.0
run_threads size (false ∷ schedule) input s =
    keyboard_thread size input s >>= λ r. run_threads size schedule r.1 r.0
