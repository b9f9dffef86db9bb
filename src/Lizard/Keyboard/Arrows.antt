-- ===== src/Lizard/Keyboard/Arrows.antt =====
-- Single arrows on the keyboard of LizardShell.py, and arrows along a row.
use os_lockdown.Base.{
  ℕ, zero, suc, ◌+◌, ◌≤◌, ◌<◌, ◌≡◌, refl, ap, ◌∙◌, subst, true, some, List, [], ◌∷◌, ◌++◌, Text,
  arith, length, get_elem?, lt_get_elem?, All, All-append, length-append,
}
use os_lockdown.Base.Outcome.{ok, err, ◌>>=◌, or_raise}
use os_lockdown.Base.Ints.{pos, minus}
use os_lockdown.Lizard.State.{Keys, index_error}
use os_lockdown.Lizard.Layout.{keyboard_layout}
use os_lockdown.Lizard.Keyboard.{Result, wrap_key, moved_x, moved_y, move_key, is_arrow}

abbrev pub at : Keys → ℕ → ℕ → Keys
at keys x y = record keys { key_x = x; key_y = y }

-- Arrows, one after the other.
abbrev pub moves : List ℕ → Keys → Result Keys
moves [] keys = ok keys
moves (c ∷ cs) keys = move_key c keys >>= moves cs

-- Arrows that lead to a key, `n` of them at most.
pub record IsReached (from to : Keys) (n : ℕ) : Type 0 where
  pub arrows : List ℕ
  pub only : All (λ c. is_arrow c ≡ true) arrows
  pub count : length arrows ≤ n
  pub lands : moves arrows from ≡ ok to

then_moves :
    (r : Result Keys) (cs ds : List ℕ) (l : Keys)
    → ((m : Keys) → moves cs m ≡ ok l → moves (cs ++ ds) m ≡ moves ds l)
    → (r >>= moves cs) ≡ ok l
    → (r >>= moves (cs ++ ds)) ≡ moves ds l
then_moves (ok m) cs ds l rest e = rest m e
then_moves (err raised) cs ds l rest e = absurd (ground (arith, e))

moves-append : (cs ds : List ℕ) (k l : Keys) → moves cs k ≡ ok l → moves (cs ++ ds) k ≡ moves ds l
moves-append [] ds k l h = ap (λ r. r >>= moves ds) h
moves-append (c ∷ cs) ds k l h = then_moves (move_key c k) cs ds l (λ m. moves-append cs ds m l) h

pub then-IsReached :
    (k l m : Keys) (n o p : ℕ) → IsReached k l n → IsReached l m o → n + o ≤ p → IsReached k m p
then-IsReached k l m n o p first second bound = record {
  arrows = first.arrows ++ second.arrows;
  only = All-append _ first.arrows second.arrows first.only second.only;
  count = omega (arith, bound, first.count, second.count, length-append first.arrows second.arrows);
  lands = moves-append first.arrows second.arrows k l first.lands ∙ second.lands;
}

pub stay : (k : Keys) → IsReached k k 0
stay k = record { arrows = []; only = tt; count = omega arith; lands = refl }

pub one_arrow : (c : ℕ) (k l : Keys) → is_arrow c ≡ true → move_key c k ≡ ok l → IsReached k l 1
one_arrow c k l arrow_ h = record {
  arrows = c ∷ [];
  only = (arrow_, tt);
  count = omega arith;
  lands = ap (λ r. r >>= moves []) h;
}

pub move_key_lem :
    (c : ℕ) (keys : Keys) (x y : ℕ) (row : List Text)
    → get_elem? keyboard_layout y ≡ some row
    → wrap_key 4 (moved_y c keys.key_y) ≡ y
    → wrap_key (length row) (moved_x c keys.key_x) ≡ x
    → move_key c keys ≡ ok (at keys x y)
unfolding move_key
move_key_lem c keys x y row found to_y to_x =
    ap
      (λ i. or_raise index_error (get_elem? keyboard_layout i) >>= λ r.
        ok (record keys { key_y = i; key_x = wrap_key (length r) (moved_x c keys.key_x) }))
      to_y
    ∙ ap
        (λ o. or_raise index_error o >>= λ r.
          ok (record keys { key_y = y; key_x = wrap_key (length r) (moved_x c keys.key_x) }))
        found
    ∙ ap (λ i. ok (at keys i y)) to_x

pub wrap_inside : (n i : ℕ) → i < n → wrap_key n (pos i) ≡ i
unfolding wrap_key
wrap_inside n i h = ground (arith, h)

pub minus_one : (i : ℕ) → minus (suc i) 1 ≡ pos i
minus_one i = ground arith

module _ (keys : Keys) (row : List Text) (y : ℕ)
    (found : get_elem? keyboard_layout y ≡ some row) where
  y_lt : y < 4
  y_lt = lt_get_elem? keyboard_layout y row found

  pub go_right :
      (n x to : ℕ) → x + n ≡ to → to < length row → IsReached (at keys x y) (at keys to y) n
  go_right zero x to e h =
      subst (λ i. IsReached (at keys x y) (at keys i y) 0) (omega (arith, e)) (stay (at keys x y))
  go_right (suc n) x to e h =
      then-IsReached (at keys x y) (at keys (suc x) y) (at keys to y) 1 n (suc n)
        (one_arrow 67 (at keys x y) (at keys (suc x) y) refl (
          move_key_lem 67 (at keys x y) (suc x) y row found (wrap_inside 4 y y_lt)
            (wrap_inside (length row) (suc x) (omega (arith, e, h)))))
        (go_right n (suc x) to (omega (arith, e)) h) (omega arith)

  pub go_left :
      (n x to : ℕ) → to + n ≡ x → x < length row → IsReached (at keys x y) (at keys to y) n
  go_left zero x to e h =
      subst (λ i. IsReached (at keys x y) (at keys i y) 0) (omega (arith, e)) (stay (at keys x y))
  go_left (suc n) zero to e h = absurd (omega (arith, e))
  go_left (suc n) (suc x) to e h =
      then-IsReached (at keys (suc x) y) (at keys x y) (at keys to y) 1 n (suc n)
        (one_arrow 68 (at keys (suc x) y) (at keys x y) refl (
          move_key_lem 68 (at keys (suc x) y) x y row found (wrap_inside 4 y y_lt) (
            ap (wrap_key (length row)) (minus_one x)
            ∙ wrap_inside (length row) x (omega (arith, h)))))
        (go_left n x to (omega (arith, e)) (omega (arith, h))) (omega arith)
