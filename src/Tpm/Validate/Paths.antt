-- ===== src/Tpm/Validate/Paths.antt =====
-- The paths of partitions that `encrypt_or_decrypt` takes on a Steam Deck.
use os_lockdown.Base.{
  ℕ, ◌≤◌, ◌≡◌, refl, sym, ap, ◌∙◌, true, Option, none, some, some-injective, none-ne-some, [], ◌∷◌,
  ◌++◌, arith, Text, codes, starts_with, starts_with-split, drop, length, All, Bool-cases, ◌⊎◌, inl,
  inr, if◌then◌else◌,
}
use os_lockdown.Tpm.Validate.{
  is_digit, skip_digits, match_digits, match_word, match_number, is_some, is_on_nvme_or_card,
}

-- At least one digit, and nothing else.
abbrev pub IsNumber : Text → Type 0
IsNumber [] = ⊥
IsNumber (c ∷ t) = All (λ d. (48 ≤ d) × (d ≤ 57)) (c ∷ t)

pub record IsNvme (path : Text) : Type 0 where
  pub controller : Text
  pub namespace : Text
  pub partition : Text
  pub behind : Text
  pub controller_number : IsNumber controller
  pub namespace_number : IsNumber namespace
  pub partition_number : IsNumber partition
  pub shape :
      path
      ≡ codes "/dev/nvme"
        ++ (controller ++ (codes "n" ++ (namespace ++ (codes "p" ++ (partition ++ behind)))))

pub record IsCard (path : Text) : Type 0 where
  pub card : Text
  pub partition : Text
  pub behind : Text
  pub card_number : IsNumber card
  pub partition_number : IsNumber partition
  pub shape : path ≡ codes "/dev/mmcblk" ++ (card ++ (codes "p" ++ (partition ++ behind)))

is_digit-range : (c : ℕ) → is_digit c ≡ true → (48 ≤ c) × (c ≤ 57)
unfolding is_digit
is_digit-range c h = (ground (arith, h), ground (arith, h))

digits_before :
    (t : Text) → (ds : Text) × All (λ d. (48 ≤ d) × (d ≤ 57)) ds × (t ≡ ds ++ skip_digits t)
unfolding skip_digits
digits_before [] = ([], tt, refl)
digits_before (c ∷ t) = elim (Bool-cases (is_digit c)) [
  | inl digit ↦
      let (ds, digits, split) = digits_before t in
      (c ∷ ds, (is_digit-range c digit, digits), rw digit (ap (λ s. c ∷ s) split))
  | inr other ↦ ([], tt, rw other refl)
]

match_number-split :
    (o : Option Text) (r : Text)
    → match_number o ≡ some r
    → (n : Text) × IsNumber n × (o ≡ some (n ++ r))
unfolding match_number match_digits
match_number-split none r h = absurd (none-ne-some _ h)
match_number-split (some []) r h = absurd (none-ne-some _ h)
match_number-split (some (c ∷ t)) r h = elim (Bool-cases (is_digit c)) [
  | inl digit ↦
      let (ds, digits, split) = digits_before t in
      let same =
        some-injective _ _ (sym (ap (λ b. if b then some (skip_digits t) else none) digit) ∙ h) in
      (
        c ∷ ds,
        (is_digit-range c digit, digits),
        ap (λ s. some (c ∷ s)) split ∙ ap (λ s. some (c ∷ (ds ++ s))) same,
      )
  | inr other ↦
      absurd (none-ne-some _ (sym (ap (λ b. if b then some (skip_digits t) else none) other) ∙ h))
]

match_word-split :
    (w : Text) (o : Option Text) (r : Text) → match_word w o ≡ some r → o ≡ some (w ++ r)
unfolding match_word
match_word-split w none r h = absurd (none-ne-some _ h)
match_word-split w (some t) r h = elim (Bool-cases (starts_with t w)) [
  | inl begins ↦
      let same =
        some-injective _ _
          (sym (ap (λ b. if b then some (drop (length w) t) else none) begins) ∙ h) in
      ap some (starts_with-split t w begins) ∙ ap (λ s. some (w ++ s)) same
  | inr other ↦
      absurd
        (none-ne-some _ (sym (ap (λ b. if b then some (drop (length w) t) else none) other) ∙ h))
]

is_some-true : (o : Option Text) → is_some o ≡ true → (t : Text) × (o ≡ some t)
is_some-true none h = absurd (ground (arith, h))
is_some-true (some t) h = (t, refl)

-- A word and a number at the start.
step :
    (w : Text) (o : Option Text) (r : Text)
    → match_number (match_word w o) ≡ some r
    → (n : Text) × IsNumber n × (o ≡ some (w ++ (n ++ r)))
step w o r h =
    let (n, number, inner) = match_number-split (match_word w o) r h in
    (n, number, match_word-split w o (n ++ r) inner)

-- The pattern matches only paths of these two shapes.
pub is_on_nvme_or_card-shape :
    (path : Text) → is_on_nvme_or_card path ≡ true → IsNvme path ⊎ IsCard path
unfolding is_on_nvme_or_card
is_on_nvme_or_card-shape path h =
    let nvme = match_number (match_word (codes "/dev/nvme") (some path)) in
    let card = match_number (match_word (codes "/dev/mmcblk") (some path)) in
    let on_nvme =
      match_number (match_word (codes "p") (match_number (match_word (codes "n") nvme))) in
    let on_card = match_number (match_word (codes "p") card) in
    elim (Bool-cases (is_some on_nvme)) [
      | inl matches ↦
          let (r, third) = is_some-true on_nvme matches in
          let (p, p_number, second) =
            step (codes "p") (match_number (match_word (codes "n") nvme)) r third in
          let (n, n_number, first) = step (codes "n") nvme _ second in
          let (c, c_number, start) = step (codes "/dev/nvme") (some path) _ first in
          inl (record {
            controller = c;
            namespace = n;
            partition = p;
            behind = r;
            controller_number = c_number;
            namespace_number = n_number;
            partition_number = p_number;
            shape = some-injective _ _ start;
          })
      | inr fails ↦
          let (r, second) = is_some-true on_card (ground (arith, fails, h)) in
          let (p, p_number, first) = step (codes "p") card r second in
          let (c, c_number, start) = step (codes "/dev/mmcblk") (some path) _ first in
          inr (record {
            card = c;
            partition = p;
            behind = r;
            card_number = c_number;
            partition_number = p_number;
            shape = some-injective _ _ start;
          })
    ]
