-- ===== src/Base/Slices.antt =====
-- Lists compared place by place, for slices.
use os_lockdown.Base.{
  ℕ, zero, suc, ◌+◌, ◌≤◌, ◌<◌, ◌≡◌, refl, sym, ◌∙◌, ap₂, List, [], ◌∷◌, arith, get_elem?, take,
  drop,
}
use mathlib.Core.Option.{some-injective}

module _ {ℓ} {A : Type ℓ} where
  pub get_elem?-drop : (xs : List A) (o j : ℕ) → get_elem? (drop o xs) j ≡ get_elem? xs (o + j)
  get_elem?-drop xs zero j = let e : 0 + j ≡ j = omega arith in rw e
  get_elem?-drop [] (suc o) j = refl
  get_elem?-drop (x ∷ xs) (suc o) j =
      let e : suc o + j ≡ suc (o + j) = omega arith in rw e (get_elem?-drop xs o j)

  pub get_elem?-take : (xs : List A) (n j : ℕ) → j < n → get_elem? (take n xs) j ≡ get_elem? xs j
  get_elem?-take xs zero j h = absurd (omega arith)
  get_elem?-take [] (suc n) j h = refl
  get_elem?-take (x ∷ xs) (suc n) zero h = refl
  get_elem?-take (x ∷ xs) (suc n) (suc j) h = get_elem?-take xs n j (omega arith)

  pub take-take : (xs : List A) (m n : ℕ) → m ≤ n → take m (take n xs) ≡ take m xs
  take-take xs zero n h = refl
  take-take xs (suc m) zero h = absurd (omega arith)
  take-take [] (suc m) (suc n) h = refl
  take-take (x ∷ xs) (suc m) (suc n) h = ap₂ ◌∷◌ refl (take-take xs m n (omega arith))

  pub take_ext :
      (n : ℕ) (xs ys : List A)
      → ((j : ℕ) → j < n → get_elem? xs j ≡ get_elem? ys j)
      → take n xs ≡ take n ys
  take_ext zero xs ys h = refl
  take_ext (suc n) [] [] h = refl
  take_ext (suc n) [] (y ∷ ys) h = let e = h 0 (omega arith) in cc
  take_ext (suc n) (x ∷ xs) [] h = let e = h 0 (omega arith) in cc
  take_ext (suc n) (x ∷ xs) (y ∷ ys) h =
      ap₂ ◌∷◌ (some-injective _ _ (h 0 (omega arith)))
        (take_ext n xs ys (λ j p. h (suc j) (omega arith)))

  -- Two lists that agree on the places of a slice have the same slice.
  pub slice_ext :
      (o n : ℕ) (xs ys : List A)
      → ((j : ℕ) → o ≤ j → j < o + n → get_elem? xs j ≡ get_elem? ys j)
      → take n (drop o xs) ≡ take n (drop o ys)
  slice_ext o n xs ys h = take_ext n (drop o xs) (drop o ys) λ j p.
      get_elem?-drop xs o j ∙ h (o + j) (omega arith) (omega arith) ∙ sym (get_elem?-drop ys o j)
