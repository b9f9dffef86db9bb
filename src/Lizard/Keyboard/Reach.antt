-- ===== src/Lizard/Keyboard/Reach.antt =====
-- Where the arrows lead on the keyboard of LizardShell.py.
use os_lockdown.Base.{
  ℕ, zero, suc, ◌+◌, ◌-◌, ◌≤◌, ◌<◌, ◌≡◌, refl, sym, ap, ◌∙◌, subst, true, some, some-injective,
  List, Text, arith, length, get_elem?, get_elem?_lt, lt_get_elem?, All-get_elem?, leb, leb→le,
  Bool-cases, inl, inr, ◌⊎◌,
}
use os_lockdown.Base.Ints.{pos}
use os_lockdown.Lizard.State.{Keys}
use os_lockdown.Lizard.Layout.{keyboard_layout}
use os_lockdown.Lizard.Keyboard.{wrap_key, moved_x, moved_y, is_arrow}
use os_lockdown.Lizard.Keyboard.Safe.{IsOnKey}
use os_lockdown.Lizard.Keyboard.Turn.{wrap_key_lt}
use os_lockdown.Lizard.Keyboard.Arrows.{
  at, IsReached, then-IsReached, stay, one_arrow, move_key_lem, wrap_inside, minus_one, go_right,
  go_left,
}

within_reach : (k l : Keys) (n p : ℕ) → IsReached k l n → n ≤ p → IsReached k l p
within_reach k l n p r h = record {
  arrows = r.arrows;
  only = r.only;
  count = omega (arith, r.count, h);
  lands = r.lands;
}

row_has_at_most :
    (y : ℕ) (row : List Text)
    → get_elem? keyboard_layout y ≡ some row
    → (0 < length row) × (length row ≤ 17)
row_has_at_most y row found =
    All-get_elem? (λ r. (0 < length r) × (length r ≤ 17)) keyboard_layout y row
      (
        (omega arith, omega arith),
        (
          (omega arith, omega arith),
          ((omega arith, omega arith), ((omega arith, omega arith), tt)),
        ),
      )
      found

le_cases : (m n : ℕ) → (m ≤ n) ⊎ (n ≤ m)
le_cases m n = elim (Bool-cases (leb m n)) [
  | inl h ↦ inl (leb→le m n h)
  | inr h ↦ inr (ground (arith, h))
]

-- From any key of a row to any other.
go_along :
    (keys : Keys) (row : List Text) (y x to : ℕ)
    → get_elem? keyboard_layout y ≡ some row
    → x < length row
    → to < length row
    → IsReached (at keys x y) (at keys to y) 16
go_along keys row y x to found h k =
    let short = row_has_at_most y row found in
    elim (le_cases x to) [
      | inl right_ ↦
          within_reach (at keys x y) (at keys to y) (to - x) 16
            (go_right keys row y found (to - x) x to (omega (arith, right_)) k)
            (omega (arith, short.1, k))
      | inr left_ ↦
          within_reach (at keys x y) (at keys to y) (x - to) 16
            (go_left keys row y found (x - to) x to (omega (arith, left_)) h)
            (omega (arith, short.1, h))
    ]

-- A key of row `y`, and arrows to it.
record IsInRow (keys : Keys) (x from y n : ℕ) : Type 0 where
  row : List Text
  found : get_elem? keyboard_layout y ≡ some row
  column : ℕ
  on_row : column < length row
  reached : IsReached (at keys x from) (at keys column y) n

-- One row down or up.
one_row :
    (c : ℕ) (keys : Keys) (x from y : ℕ)
    → is_arrow c ≡ true
    → y < 4
    → moved_y c from ≡ pos y
    → IsInRow keys x from y 1
unfolding wrap_key
one_row c keys x from y arrow_ h moved =
    let (row, found) = get_elem?_lt keyboard_layout y h in
    let column = wrap_key (length row) (moved_x c x) in
    record {
      row = row;
      found = found;
      column = column;
      on_row = wrap_key_lt (length row) (moved_x c x) (row_has_at_most y row found).0;
      reached = one_arrow c (at keys x from) (at keys column y) arrow_ (
          move_key_lem c (at keys x from) column y row found
            (ap (wrap_key 4) moved ∙ wrap_inside 4 y h) refl);
    }

then-IsInRow :
    (keys : Keys) (x from mid y n p : ℕ) (first : IsInRow keys x from mid n)
    → IsInRow keys first.column mid y p
    → IsInRow keys x from y (n + p)
then-IsInRow keys x from mid y n p first second = record {
  row = second.row;
  found = second.found;
  column = second.column;
  on_row = second.on_row;
  reached =
      then-IsReached (at keys x from) (at keys first.column mid) (at keys second.column y) n p
        (n + p) first.reached second.reached (omega arith);
}

here :
    (keys : Keys) (row : List Text) (x y : ℕ)
    → get_elem? keyboard_layout y ≡ some row
    → x < length row
    → IsInRow keys x y y 0
here keys row x y found h = record {
  row = row;
  found = found;
  column = x;
  on_row = h;
  reached = stay (at keys x y);
}

go_down :
    (n : ℕ) (keys : Keys) (row : List Text) (x y to : ℕ)
    → get_elem? keyboard_layout y ≡ some row
    → x < length row
    → y + n ≡ to
    → to < 4
    → (p : ℕ) × (p ≤ n) × IsInRow keys x y to p
go_down zero keys row x y to found h e bound = (
  0,
  omega arith,
  subst (λ i. IsInRow keys x y i 0) (omega (arith, e)) (here keys row x y found h),
)
go_down (suc n) keys row x y to found h e bound =
    let step = one_row 66 keys x y (suc y) refl (omega (arith, e, bound)) refl in
    let (p, short, rest) =
      go_down n keys step.row step.column (suc y) to step.found step.on_row (omega (arith, e))
        bound in
    (1 + p, omega (arith, short), then-IsInRow keys x y (suc y) to 1 p step rest)

go_up :
    (n : ℕ) (keys : Keys) (row : List Text) (x y to : ℕ)
    → get_elem? keyboard_layout y ≡ some row
    → x < length row
    → to + n ≡ y
    → (p : ℕ) × (p ≤ n) × IsInRow keys x y to p
go_up zero keys row x y to found h e = (
  0,
  omega arith,
  subst (λ i. IsInRow keys x y i 0) (omega (arith, e)) (here keys row x y found h),
)
go_up (suc n) keys row x zero to found h e = absurd (omega (arith, e))
go_up (suc n) keys row x (suc y) to found h e =
    let y_lt = lt_get_elem? keyboard_layout (suc y) row found in
    let step = one_row 65 keys x (suc y) y refl (omega (arith, y_lt)) (minus_one y) in
    let (p, short, rest) =
      go_up n keys step.row step.column y to step.found step.on_row (omega (arith, e)) in
    (1 + p, omega (arith, short), then-IsInRow keys x (suc y) y to 1 p step rest)

-- From any row to any other.
go_to_row :
    (keys : Keys) (row : List Text) (x y to : ℕ)
    → get_elem? keyboard_layout y ≡ some row
    → x < length row
    → to < 4
    → (p : ℕ) × (p ≤ 3) × IsInRow keys x y to p
go_to_row keys row x y to found h bound =
    let y_lt = lt_get_elem? keyboard_layout y row found in
    elim (le_cases y to) [
      | inl down ↦
          let (p, short, r) =
            go_down (to - y) keys row x y to found h (omega (arith, down)) bound in
          (p, omega (arith, short, bound), r)
      | inr up ↦
          let (p, short, r) = go_up (y - to) keys row x y to found h (omega (arith, up)) in
          (p, omega (arith, short, y_lt), r)
    ]

-- From any key of the keyboard, at most 19 arrows lead to any other, and change no mode.
pub arrows-IsReached :
    (keys : Keys) (x y : ℕ) (row : List Text)
    → IsOnKey keys
    → get_elem? keyboard_layout y ≡ some row
    → x < length row
    → IsReached keys (record keys { key_x = x; key_y = y }) 19
arrows-IsReached keys x y row on found h =
    let y_lt = lt_get_elem? keyboard_layout y row found in
    let (p, short, r) = go_to_row keys on.row keys.key_x keys.key_y y on.found on.on_row y_lt in
    let same = some-injective _ _ (sym r.found ∙ found) in
    then-IsReached keys (at keys r.column y) (at keys x y) p 16 19 r.reached
      (go_along keys row y r.column x found (subst (λ l. r.column < length l) same r.on_row) h)
      (omega (arith, short))
