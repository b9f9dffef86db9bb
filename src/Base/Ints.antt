-- ===== src/Base/Ints.antt =====
-- The integers that Python's indices and cursors run over, on the native numbers, and lists that are
-- indexed, cut and written by them.
use os_lockdown.Base.{
  ℕ, suc, ◌+◌, ◌-◌, ◌*◌, Bool, true, false, Option, none, some, List, Text, ltb, leb, ◌==◌, length,
  get_elem?, set, take, if◌then◌else◌, ◌∷◌, [],
}
use os_lockdown.Base.Outcome.{Outcome, ok, ◌>>=◌, or_raise}

-- `negsuc n` is −1 − n.
pub data ℤ : Type 0 where
  pos : ℕ → ℤ
  negsuc : ℕ → ℤ

-- `a - b`
abbrev pub minus : ℕ → ℕ → ℤ
minus a b = if leb b a then pos (a - b) else negsuc (b - suc a)

abbrev pub add : ℤ → ℕ → ℤ
add (pos a) b = pos (a + b)
add (negsuc a) b = minus b (suc a)

abbrev pub subtract : ℤ → ℕ → ℤ
subtract (pos a) b = minus a b
subtract (negsuc a) b = negsuc (a + b)

abbrev pub is_negative : ℤ → Bool
is_negative (pos a) = false
is_negative (negsuc a) = true

-- `a >= b`
abbrev pub at_least : ℤ → ℕ → Bool
at_least (pos a) b = leb b a
at_least (negsuc a) b = false

abbrev pub int_eq : ℤ → ℤ → Bool
int_eq (pos a) (pos b) = a == b
int_eq (pos a) (negsuc b) = false
int_eq (negsuc a) (pos b) = false
int_eq (negsuc a) (negsuc b) = a == b

-- How many turns `range(n - i)` has.
abbrev pub count_from : ℕ → ℤ → ℕ
count_from n (pos i) = n - i
count_from n (negsuc i) = n + suc i

-- How many turns `range(i)` has.
abbrev pub turns : ℤ → ℕ
turns (pos i) = i
turns (negsuc i) = 0

-- The place that index `i` is in a list of `n` elements.
abbrev pub py_index : ℕ → ℤ → Option ℕ
py_index n (pos i) = if ltb i n then some i else none
py_index n (negsuc i) = if ltb i n then some (n - suc i) else none

module _ {ℓ} {A : Type ℓ} where
  -- `xs[:i]`
  abbrev pub slice_to : ℤ → List A → List A
  slice_to (pos i) xs = take i xs
  slice_to (negsuc i) xs = take (length xs - suc i) xs

  -- `xs[i]`
  abbrev pub item : {E : Type 0} → E → List A → ℤ → Outcome E A
  item raised xs i =
      or_raise raised (py_index (length xs) i) >>= λ j. or_raise raised (get_elem? xs j)

  -- `xs[i] = f(xs[i])`
  abbrev pub update_at : {E : Type 0} → E → ℤ → (A → Outcome E A) → List A → Outcome E (List A)
  update_at raised i f xs = or_raise raised (py_index (length xs) i) >>= λ j.
      or_raise raised (get_elem? xs j) >>= λ a. f a >>= λ b. ok (set xs j b)

abbrev pub is_digit : ℕ → Bool
is_digit c = if leb 48 c then leb c 57 else false

-- `int(t)` on a text that may hold any character, its value so far before.
abbrev digits : Text → ℕ → Option ℕ
digits [] n = some n
digits (c ∷ t) n = let rest = digits t (n * 10 + (c - 48)) in if is_digit c then rest else none

unfoldable pub int : Text → Option ℕ
int [] = none
int (c ∷ t) = digits (c ∷ t) 0

cons_piece : ℕ → List Text → List Text
cons_piece c [] = (c ∷ []) ∷ []
cons_piece c (p ∷ ps) = (c ∷ p) ∷ ps

-- `t.split(sep)`
unfoldable pub split : ℕ → Text → List Text
unfolding cons_piece
split sep [] = [] ∷ []
split sep (c ∷ t) = let rest = split sep t in if c == sep then [] ∷ rest else cons_piece c rest
