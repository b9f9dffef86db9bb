-- ===== src/Tpm/Slots/Address.antt =====
-- The persistent TPM handle that `setup_auto_tpm_decrypt` chooses.
use os_lockdown.Base.{
  ℕ, zero, suc, ◌+◌, ◌<◌, ◌≡◌, refl, sym, ap, ◌∙◌, subst, Bool, true, false, not, List, [], ◌∷◌,
  arith, Text, All, keep, map, Bool-cases, inl, inr,
}
use os_lockdown.Base.Sort.{text_leb, sorted, is_sorted, is_in}
use os_lockdown.Base.Sort.Laws.{insert-first, is_sorted-All}
use os_lockdown.Tpm.Result.{ok, err, die, returned, ok-injective}
use os_lockdown.Tpm.Slots.{
  hex, range, first_handle, possible_addresses, in_use_addresses, first_or_die, free_tpm_address,
  lower, find_addresses, nowhere,
}
use os_lockdown.Tpm.Slots.Listed.{IsShown, shown-found}
use os_lockdown.Tpm.Slots.Found.{Occurs, find_addresses-Occurs}

module _ (p : Text → Bool) where
  All-keep : (P : Text → Type 0) (xs : List Text) → All P xs → All P (keep p xs)
  All-keep P [] h = tt
  All-keep P (x ∷ xs) h = elim (Bool-cases (p x)) [
    | inl hit ↦ rw hit (h.0, All-keep P xs h.1)
    | inr miss ↦ rw miss (All-keep P xs h.1)
  ]

  tail-is_sorted : (x : Text) (xs : List Text) → is_sorted (x ∷ xs) ≡ true → is_sorted xs ≡ true
  unfolding is_sorted
  tail-is_sorted x [] h = refl
  tail-is_sorted x (y ∷ ys) h = ground (arith, h)

  sorted-keep : (xs : List Text) → is_sorted xs ≡ true → sorted (keep p xs) ≡ keep p xs
  unfolding sorted
  sorted-keep [] h = refl
  sorted-keep (x ∷ xs) h =
      let ih = sorted-keep xs (tail-is_sorted x xs h) in
      elim (Bool-cases (p x)) [
        | inl hit ↦ rw (hit, ih) (insert-first x (keep p xs) (All-keep _ xs (is_sorted-All x xs h)))
        | inr miss ↦ rw miss ih
      ]

-- `a` is the text of the least of the numbers from `first` that passes the test, of which there
-- are `count`.
pub record IsFirst (f : ℕ → Text) (p : Text → Bool) (first count : ℕ) (a : Text) : Type 0 where
  pub index : ℕ
  pub below : index < count
  pub named : a ≡ f (first + index)
  pub passes : p a ≡ true
  pub least : (j : ℕ) → j < index → p (f (first + j)) ≡ false

module _ (f : ℕ → Text) (p : Text → Bool) where
  head-IsFirst : (first count : ℕ) → p (f first) ≡ true → IsFirst f p first (suc count) (f first)
  head-IsFirst first count hit = record {
    index = 0;
    below = omega arith;
    named = ap f (omega arith);
    passes = hit;
    least = λ j lt. absurd (omega (arith, lt));
  }

  tail-IsFirst :
      (first count : ℕ) (a : Text)
      → p (f first) ≡ false
      → IsFirst f p (suc first) count a
      → IsFirst f p first (suc count) a
  tail-IsFirst first count a miss h = record {
    index = suc h.index;
    below = omega (arith, h.below);
    named = h.named ∙ ap f (omega arith);
    passes = h.passes;
    least = each;
  }
    where
      each : (j : ℕ) → j < suc h.index → p (f (first + j)) ≡ false
      each zero lt = subst (λ n. p (f n) ≡ false) (omega arith) miss
      each (suc j) lt = subst (λ n. p (f n) ≡ false) (omega arith) (h.least j (omega (arith, lt)))

  IsFirst-of_range :
      (first count : ℕ) (a : Text)
      → first_or_die (keep p (map f (range first count))) ≡ ok a
      → IsFirst f p first count a
  unfolding first_or_die range
  IsFirst-of_range first zero a h = absurd (ground (arith, h))
  IsFirst-of_range first (suc count) a h = elim (Bool-cases (p (f first))) [
    | inl hit ↦
        let same : returned (f first) ≡ ok a = ground (arith, hit, h) in
        subst (IsFirst f p first (suc count)) (ok-injective _ _ same) (head-IsFirst first count hit)
    | inr miss ↦
        tail-IsFirst first count a miss
          (IsFirst-of_range (suc first) count a (ground (arith, miss, h)))
  ]

  none_of_range :
      (first count : ℕ)
      → first_or_die (keep p (map f (range first count))) ≡ err die
      → (j : ℕ) → j < count
      → p (f (first + j)) ≡ false
  unfolding first_or_die range
  none_of_range first zero h j lt = absurd (omega (arith, lt))
  none_of_range first (suc count) h j lt = elim (Bool-cases (p (f first))) [
    | inl hit ↦ absurd (ground (arith, hit, h))
    | inr miss ↦ each j lt (none_of_range (suc first) count (ground (arith, miss, h))) miss
  ]
    where
      each :
          (j : ℕ)
          → j < suc count
          → ((i : ℕ) → i < count → p (f (suc first + i)) ≡ false)
          → p (f first) ≡ false
          → p (f (first + j)) ≡ false
      each zero lt rest miss = subst (λ n. p (f n) ≡ false) (omega arith) miss
      each (suc j) lt rest miss =
          subst (λ n. p (f n) ≡ false) (omega arith) (rest j (omega (arith, lt)))

pub is_free : Text → Text → Bool
is_free output a = not (is_in a (in_use_addresses output))

possible_addresses_sorted : is_sorted possible_addresses ≡ true
unfolding is_sorted possible_addresses text_leb
possible_addresses_sorted = refl

free_tpm_address-sorted :
    (output : Text)
    → free_tpm_address output
      ≡ first_or_die (keep (is_free output) (map hex (range first_handle 0x100)))
unfolding free_tpm_address is_free possible_addresses
free_tpm_address-sorted output =
    ap first_or_die (sorted-keep (is_free output) possible_addresses possible_addresses_sorted)

-- A handle that the setup may take: it is one of the 256 from 0x81000000, it is not shown in the
-- TPM's list, and every lesser one stands in the list.
pub record IsFirstFree (listed a : Text) : Type 0 where
  pub index : ℕ
  pub below : index < 0x100
  pub named : a ≡ hex (first_handle + index)
  pub not_shown : ¬ IsShown a listed
  pub least : (j : ℕ) → j < index → Occurs (hex (first_handle + j)) listed

-- An address that the setup takes is one of the 256 handles from 0x81000000; it is not shown in what
-- tpm2_getcap prints, in lower case; and every lesser handle stands there.
pub free_tpm_address-IsFirstFree :
    (output a : Text) → free_tpm_address output ≡ ok a → IsFirstFree (map lower output) a
unfolding is_free in_use_addresses
free_tpm_address-IsFirstFree output a h =
    let first =
      IsFirst-of_range hex (is_free output) first_handle 0x100 a
        (sym (free_tpm_address-sorted output) ∙ h) in
    let n = first_handle + first.index in
    let free : is_in a (find_addresses nowhere (map lower output)) ≡ false =
      ground (arith, first.passes) in
    record {
      index = first.index;
      below = first.below;
      named = first.named;
      not_shown = λ shown.
          let found =
            shown-found n (map lower output)
              (subst (λ x. IsShown x (map lower output)) first.named shown) in
          let taken =
            subst (λ x. is_in x (find_addresses nowhere (map lower output)) ≡ true)
              (sym first.named) found in
          ground (arith, free, taken);
      least = λ j lt.
          let free_j = first.least j lt in
          find_addresses-Occurs (map lower output) (hex (first_handle + j))
            (ground (arith, free_j));
    }

-- The setup dies for want of an address only where all 256 handles stand in what tpm2_getcap prints.
pub free_tpm_address-none :
    (output : Text)
    → free_tpm_address output ≡ err die
    → (j : ℕ) → j < 0x100
    → Occurs (hex (first_handle + j)) (map lower output)
unfolding is_free in_use_addresses
free_tpm_address-none output h j lt =
    let taken =
      none_of_range hex (is_free output) first_handle 0x100
        (sym (free_tpm_address-sorted output) ∙ h) j lt in
    find_addresses-Occurs (map lower output) (hex (first_handle + j)) (ground (arith, taken))
