-- ===== src/Tpm/Slots/Bank.antt =====
-- The PCR bank that `setup_auto_tpm_decrypt` chooses.
use os_lockdown.Base.{
  ◌≡◌, refl, sym, ap, ◌∙◌, subst, true, ◌||◌, List, [], ◌∷◌, ◌++◌, arith, Text, codes, All,
  Bool-cases, inl, inr, if◌then◌else◌, text_eq, text_eq_iff,
}
use os_lockdown.Base.Sort.{text_leb, is_in}
use os_lockdown.Base.Sort.Laws.{text_leb_trans, text_leb_total}
use os_lockdown.Tpm.Result.{ok}
use os_lockdown.Tpm.Slots.{first_or_die, insert_down, sorted_down, to_set, hash_algorithm}

text_leb_refl : (t : Text) → text_leb t t ≡ true
unfolding text_leb
text_leb_refl [] = refl
text_leb_refl (c ∷ t) = ground (arith, text_leb_refl t)

-- `a` is the greatest of the texts `xs`.
pub record IsLast (a : Text) (xs : List Text) : Type 0 where
  pub found : is_in a xs ≡ true
  pub greatest : All (λ x. text_leb x a ≡ true) xs

-- Inserting a text puts the greater of it and the first in front.
insert_down-head :
    (x y : Text) (ys : List Text)
    → (rest : List Text) × (insert_down x (y ∷ ys) ≡ (if text_leb y x then x else y) ∷ rest)
unfolding insert_down
insert_down-head x y ys = elim (Bool-cases (text_leb y x)) [
  | inl above ↦ (y ∷ ys, rw above refl)
  | inr below ↦ (insert_down x ys, rw below refl)
]

above-All :
    (a b : Text) (xs : List Text)
    → text_leb a b ≡ true
    → All (λ x. text_leb x a ≡ true) xs
    → All (λ x. text_leb x b ≡ true) xs
above-All a b [] le h = tt
above-All a b (x ∷ xs) le h = (text_leb_trans x a b h.0 le, above-All a b xs le h.1)

grow : (a x : Text) (xs : List Text) → IsLast a xs → IsLast (if text_leb a x then x else a) (x ∷ xs)
unfolding is_in
grow a x xs h = elim (Bool-cases (text_leb a x)) [
  | inl above ↦ rw above (record {
    found = ground (arith, (text_eq_iff x x).1 refl);
    greatest = (text_leb_refl x, above-All a x xs above h.greatest);
  })
  | inr below ↦ rw below (record {
    found = ground (arith, h.found);
    greatest = (text_leb_total a x below, h.greatest);
  })
]

one-IsLast : (x : Text) → IsLast x (x ∷ [])
unfolding is_in
one-IsLast x = record {
  found = ground (arith, (text_eq_iff x x).1 refl);
  greatest = (text_leb_refl x, tt);
}

sorted_down-IsLast :
    (x : Text) (xs : List Text)
    → (a : Text) × (rest : List Text) × (sorted_down (x ∷ xs) ≡ a ∷ rest) × IsLast a (x ∷ xs)
unfolding sorted_down insert_down
sorted_down-IsLast x [] = (x, [], refl, one-IsLast x)
sorted_down-IsLast x (y ∷ ys) =
    let (a, rest, e, last) = sorted_down-IsLast y ys in
    let (rest', e') = insert_down-head x a rest in
    (if text_leb a x then x else a, rest', ap (insert_down x) e ∙ e', grow a x (y ∷ ys) last)

is_in-to_set : (a : Text) (xs : List Text) → is_in a (to_set xs) ≡ true → is_in a xs ≡ true
unfolding to_set is_in
is_in-to_set a [] h = h
is_in-to_set a (x ∷ xs) h = elim (Bool-cases (is_in x xs)) [
  | inl dup ↦
      let dropped : to_set (x ∷ xs) ≡ to_set xs = rw dup refl in
      let ih = is_in-to_set a xs (sym (ap (is_in a) dropped) ∙ h) in ground (arith, ih)
  | inr new ↦
      let kept : to_set (x ∷ xs) ≡ x ∷ to_set xs = rw new refl in
      let h' : text_eq a x || is_in a (to_set xs) ≡ true = sym (ap (is_in a) kept) ∙ h in
      let ih = is_in-to_set a xs in ground (arith, h', ih)
]

All-is_in : (P : Text → Type 0) (xs : List Text) (x : Text) → All P xs → is_in x xs ≡ true → P x
unfolding is_in
All-is_in P [] x h e = absurd (ground (arith, e))
All-is_in P (y ∷ ys) x h e = elim (Bool-cases (text_eq x y)) [
  | inl same ↦ subst P (sym ((text_eq_iff x y).0 same)) h.0
  | inr other ↦ All-is_in P ys x h.1 (ground (arith, other, e))
]

to_set-All : (P : Text → Type 0) (xs : List Text) → All P (to_set xs) → All P xs
unfolding to_set
to_set-All P [] h = tt
to_set-All P (x ∷ xs) h = elim (Bool-cases (is_in x xs)) [
  | inl dup ↦
      let dropped : to_set (x ∷ xs) ≡ to_set xs = rw dup refl in
      let ih = to_set-All P xs (subst (All P) dropped h) in (All-is_in P xs x ih dup, ih)
  | inr new ↦
      let kept : to_set (x ∷ xs) ≡ x ∷ to_set xs = rw new refl in
      let h' = subst (All P) kept h in (h'.0, to_set-All P xs h'.1)
]

to_set-cons :
    (x : Text) (xs : List Text) → (y : Text) × (ys : List Text) × (to_set (x ∷ xs) ≡ y ∷ ys)
unfolding to_set is_in
to_set-cons x [] = (x, [], refl)
to_set-cons x (y ∷ ys) = elim (Bool-cases (is_in x (y ∷ ys))) [
  | inl dup ↦ let (z, zs, e) = to_set-cons y ys in (z, zs, rw dup e)
  | inr new ↦ (x, to_set (y ∷ ys), rw new refl)
]

best :
    (x : Text) (xs : List Text)
    → (a : Text) × (first_or_die (sorted_down (to_set (x ∷ xs))) ≡ ok a) × IsLast a (x ∷ xs)
unfolding first_or_die
best x xs =
    let (y, ys, e) = to_set-cons x xs in
    let (a, rest, s, last) = sorted_down-IsLast y ys in
    let last' = subst (IsLast a) (sym e) last in
    (
      a,
      ap (λ l. first_or_die (sorted_down l)) e ∙ ap first_or_die s,
      record {
        found = is_in-to_set a (x ∷ xs) last'.found;
        greatest = to_set-All _ (x ∷ xs) last'.greatest;
      },
    )

-- Whatever banks the TPM lists, one is chosen: the greatest, in the order of texts, of those that it
-- lists and of `sha1` and `sha256`.
pub hash_algorithm-IsLast :
    (found : List Text)
    → (a : Text) × (hash_algorithm found ≡ ok a)
      × IsLast a (found ++ (codes "sha1" ∷ codes "sha256" ∷ []))
unfolding hash_algorithm
hash_algorithm-IsLast [] = best (codes "sha1") (codes "sha256" ∷ [])
hash_algorithm-IsLast (x ∷ xs) = best x (xs ++ (codes "sha1" ∷ codes "sha256" ∷ []))
