-- ===== src/Base/Sort/Laws.antt =====
-- Lemmas on `sorted` and on the order of texts.
use os_lockdown.Base.{◌≡◌, refl, true, false, List, [], ◌∷◌, arith, Text, All}
use os_lockdown.Base.Sort.{text_leb, insert, is_sorted}

pub text_leb_trans :
    (r s t : Text) → text_leb r s ≡ true → text_leb s t ≡ true → text_leb r t ≡ true
unfolding text_leb
text_leb_trans [] s t p q = refl
text_leb_trans (a ∷ r) [] t p q = ground arith
text_leb_trans (a ∷ r) (b ∷ s) [] p q = ground arith
text_leb_trans (a ∷ r) (b ∷ s) (c ∷ t) p q = ground (arith, text_leb_trans r s t)

pub text_leb_total : (s t : Text) → text_leb s t ≡ false → text_leb t s ≡ true
unfolding text_leb
text_leb_total [] t p = ground arith
text_leb_total (a ∷ s) [] p = refl
text_leb_total (a ∷ s) (b ∷ t) p = ground (arith, text_leb_total s t)

-- A text that is at most all of a list stands first when it is inserted.
pub insert-first :
    (x : Text) (ys : List Text) → All (λ y. text_leb x y ≡ true) ys → insert x ys ≡ x ∷ ys
unfolding insert
insert-first x [] h = refl
insert-first x (y ∷ ys) h = rw (h.0) refl

-- The first of a sorted list is at most all of it.
pub is_sorted-All :
    (x : Text) (ys : List Text) → is_sorted (x ∷ ys) ≡ true → All (λ y. text_leb x y ≡ true) ys
unfolding is_sorted
is_sorted-All x [] h = tt
is_sorted-All x (y ∷ []) h = (ground (arith, h), tt)
is_sorted-All x (y ∷ z ∷ zs) h =
    let below = is_sorted-All y (z ∷ zs) (ground (arith, h)) in
    (ground (arith, h), below_all (z ∷ zs) (ground (arith, h)) below)
  where
    below_all :
        (ys : List Text)
        → text_leb x y ≡ true
        → All (λ z. text_leb y z ≡ true) ys
        → All (λ z. text_leb x z ≡ true) ys
    below_all [] p q = tt
    below_all (u ∷ us) p q = (text_leb_trans x y u p q.0, below_all us p q.1)
