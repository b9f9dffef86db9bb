-- ===== src/Base/Sort.antt =====
-- Python's order of texts, by code points, and `sorted`.
pub mod Laws
use os_lockdown.Base.{
  Bool, true, false, ◌&&◌, ◌||◌, List, [], ◌∷◌, if◌then◌else◌, Text, ltb, ◌==◌, text_eq, any, not,
}

-- `s <= t`
unfoldable pub text_leb : Text → Text → Bool
text_leb [] t = true
text_leb (c ∷ s) [] = false
text_leb (c ∷ s) (d ∷ t) = ltb c d || (c == d && text_leb s t)

unfoldable pub insert : Text → List Text → List Text
unfolding text_leb
insert x [] = x ∷ []
insert x (y ∷ ys) = let rest = insert x ys in if text_leb x y then x ∷ y ∷ ys else y ∷ rest

unfoldable pub sorted : List Text → List Text
unfolding insert
sorted [] = []
sorted (x ∷ xs) = insert x (sorted xs)

-- Each text is at most the next one.
unfoldable pub is_sorted : List Text → Bool
unfolding text_leb
is_sorted [] = true
is_sorted (x ∷ []) = true
is_sorted (x ∷ y ∷ ys) = text_leb x y && is_sorted (y ∷ ys)

-- `x in xs`
unfoldable pub is_in : Text → List Text → Bool
unfolding text_eq
is_in x xs = any (text_eq x) xs
