-- ===== src/Lizard/Bounds/Reads.antt =====
-- What LizardShell.py reads out of an escape sequence, and where that puts the cursor.
use os_lockdown.Base.{
  ℕ, zero, suc, ◌<◌, ◌≡◌, refl, sym, subst, Option, none, some, List, [], ◌∷◌, Text, arith, leb,
  ==_iff, Bool-cases, if◌then◌else◌, inl, inr,
}
use os_lockdown.Base.Outcome.{or_raise, Holds, Holds->>=}
use os_lockdown.Base.Ints.{ℤ, pos, negsuc, minus, add, int, split}
use os_lockdown.Lizard.State.{Screen, State, Size, value_error}
use os_lockdown.Lizard.Layout.{is_too_small, redraw_if_terminal_resized}
use os_lockdown.Lizard.Escape.{to_int, int_or, two_ints}
use os_lockdown.Lizard.Escape.CarryOut.{int_before, point_or_origin, or_zero, or_last}
use os_lockdown.Lizard.Bounds.{IsFromLast, IsRow, Fits, IsValueError}

pub has_rows : (size : Size) (v : Screen) → Fits size v → 0 < v.height
unfolding is_too_small
has_rows size v fits = ground (arith, fits.large_enough, fits.same_height)

-- A terminal that keeps its size changes nothing.
pub same_size : (size : Size) (s : State) → Fits size s.view → redraw_if_terminal_resized size s ≡ s
unfolding redraw_if_terminal_resized
same_size size s fits =
    let same = (==_iff _ _).1 fits.same_width in
    let same_h = (==_iff _ _).1 fits.same_height in rw (fits.large_enough, same, same_h) refl

pub row-IsFromLast : (n : ℕ) (i : ℤ) → IsRow n i → IsFromLast i
row-IsFromLast n (pos i) h = tt
row-IsFromLast n (negsuc i) h = h

pub suc-minus : (n : ℕ) → minus (suc n) 1 ≡ pos n
suc-minus n = ground arith

pub minus-IsFromLast : (n : ℕ) → IsFromLast (minus n 1)
minus-IsFromLast zero = refl
minus-IsFromLast (suc n) = subst IsFromLast (sym (suc-minus n)) tt

pub or_zero-IsFromLast : (i : ℤ) → IsFromLast (or_zero i)
or_zero-IsFromLast (pos i) = tt
or_zero-IsFromLast (negsuc i) = tt

-- An integer in the arguments, or a ValueError.
pub or_raise-Holds {ℓ} :
    {A : Type ℓ} (o : Option A) → Holds IsValueError (λ a. Unit {0}) (or_raise value_error o)
or_raise-Holds none = tt
or_raise-Holds (some a) = tt

pub int_or-Holds : (n : ℕ) (t : Text) → Holds IsValueError (λ m. Unit {0}) (int_or n t)
int_or-Holds n [] = tt
int_or-Holds n (c ∷ t) = or_raise-Holds (int (c ∷ t))

pub int_before-Holds : (t : Text) → Holds IsValueError IsFromLast (int_before t)
int_before-Holds [] = tt
int_before-Holds (c ∷ t) =
    Holds->>= IsValueError (λ n. Unit {0}) IsFromLast (to_int (c ∷ t)) _
      (or_raise-Holds (int (c ∷ t))) (λ n h. minus-IsFromLast n)

pub two_ints-Holds : (ts : List Text) → Holds IsValueError (λ mn. Unit {0}) (two_ints ts)
two_ints-Holds [] = tt
two_ints-Holds (a ∷ []) = tt
two_ints-Holds (a ∷ b ∷ []) =
    Holds->>= IsValueError (λ n. Unit {0}) _ (to_int a) _ (or_raise-Holds (int a))
      λ m h.
        Holds->>= IsValueError (λ n. Unit {0}) _ (to_int b) _ (or_raise-Holds (int b)) (λ n h2. tt)
two_ints-Holds (a ∷ b ∷ c ∷ ts) = tt

pub point_or_origin-Holds : (t : Text) → Holds IsValueError (λ mn. Unit {0}) (point_or_origin t)
point_or_origin-Holds [] = tt
point_or_origin-Holds (c ∷ t) = two_ints-Holds (split 59 (c ∷ t))

pub add-IsFromLast : (i : ℤ) (n : ℕ) → IsFromLast i → IsFromLast (add i n)
add-IsFromLast (pos i) n h = tt
add-IsFromLast (negsuc i) zero h = subst IsFromLast (sym (negative i)) h
  where
    negative : (i : ℕ) → minus 0 (suc i) ≡ negsuc i
    negative i = ground arith
add-IsFromLast (negsuc i) (suc n) h =
    subst (λ j. IsFromLast (minus (suc n) (suc j))) (sym h)
      (subst IsFromLast (sym (suc-minus n)) tt)

-- The last row is row 0 or one below it.
pub or_last-IsFromLast : (i : ℤ) (n : ℕ) → IsFromLast i → IsFromLast (or_last i n)
or_last-IsFromLast (pos i) n h = elim (Bool-cases (leb n i)) [
  | inl past ↦
      subst (λ b. IsFromLast (if b then minus n 1 else pos i)) (sym past) (minus-IsFromLast n)
  | inr on_screen ↦ subst (λ b. IsFromLast (if b then minus n 1 else pos i)) (sym on_screen) tt
]
or_last-IsFromLast (negsuc i) n h = h
