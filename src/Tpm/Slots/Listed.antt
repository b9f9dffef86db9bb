-- ===== src/Tpm/Slots/Listed.antt =====
-- What the scan of the output of `tpm2_getcap handles-persistent` finds, against the text itself.
use os_lockdown.Base.{
  ℕ, zero, suc, ◌<◌, ◌/◌, ◌%◌, ◌≡◌, ◌≢◌, refl, sym, ap, ◌∙◌, subst, Bool, true, false, ◌&&◌, ◌||◌,
  [], ◌∷◌, ◌++◌, arith, Text, codes, text_eq_iff, All, All-append, append-nil, append_assoc,
  Bool-cases, inl, inr, leb, ltb, ◌==◌,
}
use os_lockdown.Base.Sort.{is_in}
use os_lockdown.Tpm.Slots.{
  hex_digit, hex_digits, hex, is_hex_digit, Scan, nowhere, after_zero, after_x, in_digits,
  scan_start, scan_x, scan_first_digit, find_addresses,
}

-- A digit, or a letter from a to f.
abbrev pub hex_char : ℕ → Bool
hex_char c = (leb 48 c && leb c 57) || (leb 97 c && leb c 102)

-- The text goes on with nothing that could belong to an address.
abbrev pub IsEnd : Text → Type 0
IsEnd [] = Unit
IsEnd (c ∷ t) = hex_char c ≡ false

-- The word stands in the text by itself: behind a character that could not belong to an address, and
-- before another one or the end.
pub record IsShown (a text : Text) : Type 0 where
  pub before : Text
  pub mark : ℕ
  pub after : Text
  pub split : text ≡ before ++ (mark ∷ (a ++ after))
  pub apart : hex_char mark ≡ false
  pub no_x : mark ≢ 120
  pub ends : IsEnd after

same_chars : (c : ℕ) → is_hex_digit c ≡ hex_char c
unfolding is_hex_digit
same_chars c = refl

scan_start-nowhere : (c : ℕ) → hex_char c ≡ false → scan_start c ≡ nowhere
unfolding scan_start
scan_start-nowhere c apart =
    let no_zero : (c == 48) ≡ false = ground (arith, apart) in rw no_zero refl

scan_x-nowhere : (c : ℕ) → hex_char c ≡ false → c ≢ 120 → scan_x c ≡ nowhere
unfolding scan_x
scan_x-nowhere c apart no_x =
    let other : (c == 120) ≡ false = ground (arith, no_x) in rw other (scan_start-nowhere c apart)

scan_first_digit-nowhere : (c : ℕ) → hex_char c ≡ false → scan_first_digit c ≡ nowhere
unfolding scan_first_digit is_hex_digit
scan_first_digit-nowhere c apart = rw apart refl

scan_first_digit-in_digits :
    (c : ℕ) → hex_char c ≡ true → scan_first_digit c ≡ in_digits (codes "0x" ++ (c ∷ []))
unfolding scan_first_digit is_hex_digit
scan_first_digit-in_digits c digit = rw digit refl

-- The digits behind 0x are read to their end.
reads_digits :
    (found ds after : Text)
    → All (λ c. hex_char c ≡ true) ds
    → IsEnd after
    → is_in (found ++ ds) (find_addresses (in_digits found) (ds ++ after)) ≡ true
unfolding find_addresses is_in is_hex_digit
reads_digits found [] [] h end =
    let same = (text_eq_iff (found ++ []) found).1 (append-nil found) in rw same refl
reads_digits found [] (c ∷ t) h end =
    let same = (text_eq_iff (found ++ []) found).1 (append-nil found) in rw (end, same) refl
reads_digits found (d ∷ ds) after h end = rw h.0 (
    subst (λ a. is_in a (find_addresses (in_digits (found ++ (d ∷ []))) (ds ++ after)) ≡ true)
      (append_assoc found (d ∷ []) ds) (reads_digits (found ++ (d ∷ [])) ds after h.1 end))

reads_address :
    (d : ℕ) (ds after : Text)
    → All (λ c. hex_char c ≡ true) (d ∷ ds)
    → IsEnd after
    → is_in (codes "0x" ++ (d ∷ ds)) (find_addresses nowhere (codes "0x" ++ ((d ∷ ds) ++ after)))
      ≡ true
unfolding find_addresses scan_start scan_x scan_first_digit is_hex_digit
reads_address d ds after h end =
    let word = codes "0x" ++ (d ∷ ds) in
    ap (λ st. is_in word (find_addresses st (ds ++ after))) (scan_first_digit-in_digits d h.0)
    ∙ reads_digits (codes "0x" ++ (d ∷ [])) ds after h.1 end

-- A mark ends whatever stands before it.
behind_mark :
    (st : Scan) (before : Text) (c : ℕ) (rest a : Text)
    → hex_char c ≡ false
    → c ≢ 120
    → is_in a (find_addresses nowhere rest) ≡ true
    → is_in a (find_addresses st (before ++ (c ∷ rest))) ≡ true
unfolding find_addresses scan_start scan_x scan_first_digit is_hex_digit is_in
behind_mark nowhere [] c rest a apart no_x h =
    ap (λ st. is_in a (find_addresses st rest)) (scan_start-nowhere c apart) ∙ h
behind_mark after_zero [] c rest a apart no_x h =
    ap (λ st. is_in a (find_addresses st rest)) (scan_x-nowhere c apart no_x) ∙ h
behind_mark after_x [] c rest a apart no_x h =
    ap (λ st. is_in a (find_addresses st rest)) (scan_first_digit-nowhere c apart) ∙ h
behind_mark (in_digits found) [] c rest a apart no_x h = rw apart (ground (arith, h))
behind_mark nowhere (b ∷ bs) c rest a apart no_x h =
    behind_mark (scan_start b) bs c rest a apart no_x h
behind_mark after_zero (b ∷ bs) c rest a apart no_x h =
    behind_mark (scan_x b) bs c rest a apart no_x h
behind_mark after_x (b ∷ bs) c rest a apart no_x h =
    behind_mark (scan_first_digit b) bs c rest a apart no_x h
behind_mark (in_digits found) (b ∷ bs) c rest a apart no_x h = elim (Bool-cases (hex_char b)) [
  | inl digit ↦ rw digit (behind_mark (in_digits (found ++ (b ∷ []))) bs c rest a apart no_x h)
  | inr other ↦
      let later = behind_mark nowhere bs c rest a apart no_x h in rw other (ground (arith, later))
]

hex_digit-hex_char : (m : ℕ) → m < 16 → hex_char (hex_digit m) ≡ true
unfolding hex_digit
hex_digit-hex_char m below = ground (arith, below)

-- The digits of a number.
hex_digits-All : (fuel n : ℕ) → All (λ c. hex_char c ≡ true) (hex_digits fuel n)
unfolding hex_digits
hex_digits-All zero n = tt
hex_digits-All (suc fuel) n = elim (Bool-cases (ltb n 16)) [
  | inl small ↦ rw small (hex_digit-hex_char n (ground (arith, small)), tt)
  | inr large ↦ rw large (
      All-append _ (hex_digits fuel (n / 16)) (hex_digit (n % 16) ∷ [])
        (hex_digits-All fuel (n / 16)) (hex_digit-hex_char (n % 16) (omega arith), tt))
]

last_digit : (xs : Text) (x : ℕ) → (d : ℕ) × (ds : Text) × (xs ++ (x ∷ []) ≡ d ∷ ds)
last_digit [] x = (x, [], refl)
last_digit (y ∷ ys) x = (y, ys ++ (x ∷ []), refl)

some_digit : (fuel n : ℕ) → (d : ℕ) × (ds : Text) × (hex_digits (suc fuel) n ≡ d ∷ ds)
unfolding hex_digits
some_digit fuel n = elim (Bool-cases (ltb n 16)) [
  | inl small ↦ (hex_digit n, [], rw small refl)
  | inr large ↦
      let (d, ds, e) = last_digit (hex_digits fuel (n / 16)) (hex_digit (n % 16)) in
      (d, ds, rw large e)
]

-- An address that is shown in the text is found.
pub shown-found :
    (n : ℕ) (text : Text)
    → IsShown (hex n) text
    → is_in (hex n) (find_addresses nowhere text) ≡ true
unfolding hex
shown-found n text shown =
    let (d, ds, e) = some_digit 7 n in
    let digits = subst (All (λ c. hex_char c ≡ true)) e (hex_digits-All 8 n) in
    let found =
      subst
        (λ w.
          is_in (codes "0x" ++ w) (find_addresses nowhere (codes "0x" ++ (w ++ shown.after)))
          ≡ true)
        (sym e) (reads_address d ds shown.after digits shown.ends) in
    subst (λ t. is_in (codes "0x" ++ hex_digits 8 n) (find_addresses nowhere t) ≡ true)
      (sym shown.split)
      (behind_mark nowhere shown.before shown.mark _ _ shown.apart shown.no_x found)
