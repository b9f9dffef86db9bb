-- ===== src/Tpm/KernelArgs/Remove.antt =====
-- The loop of `remove_kernel_arg`.
use os_lockdown.Base.{
  ℕ, suc, zero, ◌<◌, ◌≡◌, refl, sym, ◌∙◌, ap, Bool, true, false, ◌||◌, not, none, some, List, [],
  ◌∷◌, arith, Text, text_eq, length, keep, get_elem?, All, some-injective, subst, Option-cases,
  Bool-cases, inl, inr,
}
use os_lockdown.Tpm.KernelArgs.{
  find_index, or_else, assigns, kernel_arg_index, delete, remove_turn, remove_kernel_arg,
}

-- A word that is the argument, or assigns it.
abbrev pub names_arg : Text → Text → Bool
names_arg arg a = text_eq a arg || assigns arg a

find_index-some :
    (p : Text → Bool) (args : List Text) (i : ℕ)
    → find_index p args ≡ some i
    → (a : Text) × (get_elem? args i ≡ some a) × (p a ≡ true)
unfolding find_index
find_index-some p [] i h = absurd (ground (arith, h))
find_index-some p (x ∷ xs) i h = elim (Bool-cases (p x)) [
  | inl hit ↦
      let first : some 0 ≡ some i = ground (arith, hit, h) in
      let at : 0 ≡ i = some-injective _ _ first in
      subst (λ j. (a : Text) × (get_elem? (x ∷ xs) j ≡ some a) × (p a ≡ true)) at (x, refl, hit)
  | inr other ↦ elim (Option-cases (find_index p xs)) [
    | inl missing ↦ absurd (ground (arith, h, other, missing))
    | inr (j, found) ↦
        let next : some (suc j) ≡ some i = ground (arith, h, other, found) in
        let at : suc j ≡ i = some-injective _ _ next in
        subst (λ j. (a : Text) × (get_elem? (x ∷ xs) j ≡ some a) × (p a ≡ true)) at
          (find_index-some p xs j found)
  ]
]

find_index-none :
    (p : Text → Bool) (args : List Text) → find_index p args ≡ none → All (λ a. p a ≡ false) args
unfolding find_index
find_index-none p [] h = tt
find_index-none p (x ∷ xs) h = elim (Bool-cases (p x)) [
  | inl hit ↦ absurd (ground (arith, h, hit))
  | inr other ↦ elim (Option-cases (find_index p xs)) [
    | inl missing ↦ (other, find_index-none p xs missing)
    | inr (j, found) ↦ absurd (ground (arith, h, other, found))
  ]
]

-- Deleting a word that does not count leaves those that do.
keep-delete :
    (p : Text → Bool) (args : List Text) (i : ℕ) (a : Text)
    → get_elem? args i ≡ some a
    → p a ≡ false
    → keep p (delete args i) ≡ keep p args
unfolding delete
keep-delete p [] i a at h = absurd (ground (arith, at))
keep-delete p (x ∷ xs) zero a at h =
    let same = some-injective _ _ at in let h' = subst (λ b. p b ≡ false) (sym same) h in rw h' refl
keep-delete p (x ∷ xs) (suc i) a at h = rw (keep-delete p xs i a at h) refl

length-delete :
    (args : List Text) (i : ℕ) (a : Text)
    → get_elem? args i ≡ some a
    → suc (length (delete args i)) ≡ length args
unfolding delete
length-delete [] i a at = absurd (ground (arith, at))
length-delete (x ∷ xs) zero a at = refl
length-delete (x ∷ xs) (suc i) a at = ap suc (length-delete xs i a at)

keep-All : (p : Text → Bool) (args : List Text) → All (λ a. p a ≡ true) args → keep p args ≡ args
keep-All p [] h = refl
keep-All p (x ∷ xs) h = rw (h.0, keep-All p xs h.1) refl

-- The word that `kernel_arg_index` found is the argument or assigns it.
kernel_arg_index-some :
    (args : List Text) (arg : Text) (i : ℕ)
    → kernel_arg_index args arg ≡ some i
    → (a : Text) × (get_elem? args i ≡ some a) × (names_arg arg a ≡ true)
unfolding kernel_arg_index or_else
kernel_arg_index-some args arg i h = elim (Option-cases (find_index (λ a. text_eq a arg) args)) [
  | inl missing ↦
      let found : find_index (assigns arg) args ≡ some i = ground (arith, missing, h) in
      let (a, at, hit) = find_index-some (assigns arg) args i found in (a, at, ground (arith, hit))
  | inr (j, found) ↦
      let same : some j ≡ some i = ground (arith, found, h) in
      let (a, at, hit) = find_index-some (λ a. text_eq a arg) args j found in
      (a, subst (λ k. get_elem? args k ≡ some a) (some-injective _ _ same) at, ground (arith, hit))
]

kernel_arg_index-none :
    (args : List Text) (arg : Text)
    → kernel_arg_index args arg ≡ none
    → keep (λ a. not (names_arg arg a)) args ≡ args
unfolding kernel_arg_index or_else
kernel_arg_index-none args arg h = elim (Option-cases (find_index (λ a. text_eq a arg) args)) [
  | inl missing ↦
      let missing' : find_index (assigns arg) args ≡ none = ground (arith, missing, h) in
      keep-All _ args
        (neither args (find_index-none _ args missing) (find_index-none _ args missing'))
  | inr (j, found) ↦ absurd (ground (arith, h, found))
]
  where
    neither :
        (args : List Text)
        → All (λ a. text_eq a arg ≡ false) args
        → All (λ a. assigns arg a ≡ false) args
        → All (λ a. not (names_arg arg a) ≡ true) args
    neither [] p q = tt
    neither (x ∷ xs) p q = (ground (arith, p.0, q.0), neither xs p.1 q.1)

-- With fuel for every word and one turn more, `remove_kernel_arg` ends, and what it leaves are the
-- words that neither are the argument nor assign it, in their order.
pub remove_kernel_arg_lem :
    (fuel : ℕ) (args : List Text) (arg : Text)
    → length args < fuel
    → remove_kernel_arg fuel args arg ≡ some (keep (λ a. not (names_arg arg a)) args)
unfolding remove_kernel_arg remove_turn
remove_kernel_arg_lem zero args arg h = absurd (omega arith)
remove_kernel_arg_lem (suc fuel) args arg h = elim (Option-cases (kernel_arg_index args arg)) [
  | inl missing ↦ rw (missing, kernel_arg_index-none args arg missing) refl
  | inr (i, found) ↦
      let (a, at, hit) = kernel_arg_index-some args arg i found in
      let shorter = length-delete args i a at in
      let same = keep-delete (λ a. not (names_arg arg a)) args i a at (ground (arith, hit)) in
      rw found (remove_kernel_arg_lem fuel (delete args i) arg (omega arith) ∙ ap some same)
]
