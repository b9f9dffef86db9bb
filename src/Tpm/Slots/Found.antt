-- ===== src/Tpm/Slots/Found.antt =====
-- What the scan of the output of `tpm2_getcap handles-persistent` finds stands in it.
use os_lockdown.Base.{
  ℕ, ◌≡◌, sym, ap, ◌∙◌, subst, Bool, true, ◌||◌, [], ◌∷◌, ◌++◌, arith, Text, codes, text_eq,
  text_eq_iff, append_assoc, Bool-cases, inl, inr, ◌==◌, ==_iff, if◌then◌else◌,
}
use os_lockdown.Base.Sort.{is_in}
use os_lockdown.Tpm.Slots.Listed.{hex_char}
use os_lockdown.Tpm.Slots.{
  is_hex_digit, Scan, nowhere, after_zero, after_x, in_digits, scan_start, scan_x, scan_first_digit,
  find_addresses,
}

-- The word stands in the text.
pub record Occurs (a text : Text) : Type 0 where
  pub before : Text
  pub after : Text
  pub split : text ≡ before ++ (a ++ after)

-- What the scan has read of the match that it may be in.
read_so_far : Scan → Text
read_so_far nowhere = []
read_so_far after_zero = codes "0"
read_so_far after_x = codes "0x"
read_so_far (in_digits found) = found

Occurs-behind : (a xs text : Text) → Occurs a text → Occurs a (xs ++ text)
Occurs-behind a xs text o = record {
  before = xs ++ o.before;
  after = o.after;
  split = ap (λ t. xs ++ t) o.split ∙ sym (append_assoc xs o.before (a ++ o.after));
}

at_front : (a found after : Text) → text_eq a found ≡ true → Occurs a (found ++ after)
at_front a found after same = record {
  before = [];
  after = after;
  split = ap (λ t. t ++ after) (sym ((text_eq_iff a found).0 same));
}

-- From one state on to the next one, whatever is behind.
scan_start-Occurs :
    (a t : Text) (c : ℕ) → Occurs a (read_so_far (scan_start c) ++ t) → Occurs a (c ∷ t)
unfolding scan_start read_so_far
scan_start-Occurs a t c = elim (Bool-cases (c == 48)) [
  | inl zero_ ↦ let e = (==_iff c 48).0 zero_ in rw (zero_, e) (λ o. o)
  | inr other ↦ rw other (Occurs-behind a (c ∷ []) t)
]

scan_x-Occurs :
    (a t : Text) (c : ℕ) → Occurs a (read_so_far (scan_x c) ++ t) → Occurs a (48 ∷ c ∷ t)
unfolding scan_x read_so_far
scan_x-Occurs a t c = elim (Bool-cases (c == 120)) [
  | inl x ↦ let e = (==_iff c 120).0 x in rw (x, e) (λ o. o)
  | inr other ↦ rw other (λ o. Occurs-behind a (48 ∷ []) (c ∷ t) (scan_start-Occurs a t c o))
]

scan_first_digit-Occurs :
    (a t : Text) (c : ℕ)
    → Occurs a (read_so_far (scan_first_digit c) ++ t)
    → Occurs a (48 ∷ 120 ∷ c ∷ t)
unfolding scan_first_digit read_so_far is_hex_digit
scan_first_digit-Occurs a t c = elim (Bool-cases (hex_char c)) [
  | inl digit ↦ rw digit (λ o. o)
  | inr other ↦ rw other (Occurs-behind a (48 ∷ 120 ∷ c ∷ []) t)
]

-- What is found stands in the text.
found-Occurs :
    (st : Scan) (t a : Text) → is_in a (find_addresses st t) ≡ true → Occurs a (read_so_far st ++ t)
unfolding find_addresses is_in read_so_far is_hex_digit
found-Occurs (in_digits found) [] a h =
    let same : text_eq a found ≡ true = ground (arith, h) in at_front a found [] same
found-Occurs nowhere [] a h = absurd (ground (arith, h))
found-Occurs after_zero [] a h = absurd (ground (arith, h))
found-Occurs after_x [] a h = absurd (ground (arith, h))
found-Occurs nowhere (c ∷ t) a h = scan_start-Occurs a t c (found-Occurs (scan_start c) t a h)
found-Occurs after_zero (c ∷ t) a h = scan_x-Occurs a t c (found-Occurs (scan_x c) t a h)
found-Occurs after_x (c ∷ t) a h =
    scan_first_digit-Occurs a t c (found-Occurs (scan_first_digit c) t a h)
found-Occurs (in_digits found) (c ∷ t) a h =
    let more = find_addresses (in_digits (found ++ (c ∷ []))) t in
    let rest = find_addresses nowhere t in
    let test : Bool → Bool = λ b. is_in a (if b then more else found ∷ rest) in
    elim (Bool-cases (hex_char c)) [
      | inl digit ↦
          subst (Occurs a) (append_assoc found (c ∷ []) t)
            (found-Occurs (in_digits (found ++ (c ∷ []))) t a (sym (ap test digit) ∙ h))
      | inr other ↦ elim (Bool-cases (text_eq a found)) [
        | inl same ↦ at_front a found (c ∷ t) same
        | inr differs ↦
            let listed : (text_eq a found || is_in a rest) ≡ true = sym (ap test other) ∙ h in
            let later : is_in a rest ≡ true = ground (arith, listed, differs) in
            Occurs-behind a found (c ∷ t)
              (Occurs-behind a (c ∷ []) t (found-Occurs nowhere t a later))
      ]
    ]

pub find_addresses-Occurs : (t a : Text) → is_in a (find_addresses nowhere t) ≡ true → Occurs a t
unfolding read_so_far
find_addresses-Occurs t a h = found-Occurs nowhere t a h
