-- ===== src/Lizard/Tests.antt =====
-- A terminal of 80 columns and 25 lines.
use os_lockdown.Base.{
  ℕ, ◌≡◌, refl, sym, append-nil, true, false, List, [], ◌∷◌, ◌++◌, Text, codes, arith,
}
use os_lockdown.Base.Outcome.{Holds}
use os_lockdown.Lizard.State.{State, Size}
use os_lockdown.Lizard.Layout.{is_too_small, tab_row}
use os_lockdown.Lizard.Keyboard.{keyboard_worker}
use os_lockdown.Lizard.Keyboard.Safe.{Never}
use os_lockdown.Lizard.Keyboard.Typed.{IsTyped, keyboard_worker-IsTyped}
use os_lockdown.Lizard.Keyboard.Arrows.{IsReached}
use os_lockdown.Lizard.Keyboard.Reach.{arrows-IsReached}
use os_lockdown.Lizard.Worker.{screen_worker}
use os_lockdown.Lizard.Bounds.{IsBounded, IsValueError}
use os_lockdown.Lizard.Bounds.Start.{start-IsBounded}
use os_lockdown.Lizard.Bounds.Worker.{screen_worker-IsBounded}
use os_lockdown.Lizard.Threads.{Input, run_threads}
use os_lockdown.Lizard.Threads.Safe.{IsBoundedWith, run_threads-IsBounded}

abbrev tty : Size
tty = record { columns = 80; lines = 25 }

tty_large : is_too_small tty ≡ false
unfolding is_too_small
tty_large = refl

abbrev first : State
first = (start-IsBounded tty tty_large).0

-- Two letters, ESC, and a move to column 0 of row 3.
abbrev bytes : List ℕ
bytes = codes "ls" ++ (27 ∷ codes "[3;1H$")

screen_worker-IsBounded_example :
    Holds IsValueError (IsBounded tty) (screen_worker 9 tty bytes first)
screen_worker-IsBounded_example =
    screen_worker-IsBounded 9 tty bytes first (start-IsBounded tty tty_large).2 (omega arith)

abbrev input : Input
input = record { printed = bytes; typed = 10 ∷ 27 ∷ codes "[B" }

run_threads-IsBounded_example :
    Holds IsValueError (IsBoundedWith tty) (run_threads tty (true ∷ false ∷ true ∷ []) input first)
run_threads-IsBounded_example =
    run_threads-IsBounded tty (true ∷ false ∷ true ∷ []) input first
      (start-IsBounded tty tty_large).2

-- Down, right, Enter on the letter q.
abbrev keys : Text
keys = 27 ∷ codes "[B" ++ (27 ∷ codes "[C" ++ (10 ∷ []))

first-IsTyped : IsTyped first.sent first
first-IsTyped = record {
  on_key = (start-IsBounded tty tty_large).2.on_key;
  bytes = [];
  sends = sym (append-nil first.sent);
  no_seven = refl;
}

keyboard_worker-IsTyped_example :
    Holds Never (IsTyped first.sent) (keyboard_worker 7 tty keys first)
keyboard_worker-IsTyped_example =
    keyboard_worker-IsTyped first.sent 7 tty keys first first-IsTyped (omega arith)

arrows-IsReached_example : IsReached first.keys (record first.keys { key_x = 3; key_y = 1 }) 19
arrows-IsReached_example =
    arrows-IsReached first.keys 3 1 tab_row (start-IsBounded tty tty_large).2.on_key refl
      (omega arith)
