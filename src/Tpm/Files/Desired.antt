-- ===== src/Tpm/Files/Desired.antt =====
-- `ensure_file_has_desired_contents` on files whose characters are a byte each.
use os_lockdown.Base.{
  ℕ, ◌≤◌, ◌≡◌, refl, sym, ap, ◌∙◌, false, Option, none, some, List, [], ◌∷◌, ◌++◌, arith, Text,
  text_eq, text_eq_iff, ltb, length, drop, append-nil, Bool-cases, inl, inr, zero, suc,
}
use os_lockdown.Tpm.Files.{
  File, Codec, overwrite, update_contents, set_mode, ensure_file_has_desired_contents,
}

-- The bytes of an old file stand for as many characters, and are what these are written as.
pub record IsPlain (codec : Codec) (old : List ℕ) : Type 0 where
  pub same_length : length (codec.decode old) ≡ length old
  pub round_trip : codec.encode (codec.decode old) ≡ old

-- What holds of a file that may be missing.
abbrev pub IsPlainFile : Codec → Option File → Type 0
IsPlainFile codec none = Unit
IsPlainFile codec (some f) = IsPlain codec f.contents

drop_all : (n : ℕ) (xs : List ℕ) → length xs ≤ n → drop n xs ≡ []
drop_all zero [] h = refl
drop_all zero (x ∷ xs) h = absurd (omega arith)
drop_all (suc n) [] h = refl
drop_all (suc n) (x ∷ xs) h = drop_all n xs (omega arith)

ltb-false : (a b : ℕ) → ltb a b ≡ false → b ≤ a
ltb-false a b h = ground arith

update_contents_lem :
    (codec : Codec) (desired : Text) (old : List ℕ)
    → IsPlain codec old
    → length (codec.encode desired) ≡ length desired
    → update_contents codec desired old ≡ codec.encode desired
unfolding update_contents overwrite
update_contents_lem codec desired old plain size =
    elim (Bool-cases (text_eq (codec.decode old) desired)) [
      | inl same ↦ rw same (sym plain.round_trip ∙ ap codec.encode ((text_eq_iff _ _).0 same))
      | inr other ↦ elim (Bool-cases (ltb (length desired) (length (codec.decode old)))) [
        | inl shorter ↦ rw (other, shorter) refl
        | inr longer ↦
            let enough = ltb-false _ _ longer in
            let covered : length old ≤ length (codec.encode desired) =
              omega (arith, enough, size, plain.same_length) in
            rw (other, longer)
              (ap (λ r. codec.encode desired ++ r) (drop_all _ old covered) ∙ append-nil _)
      ]
    ]

-- Where the characters of the desired text and of an old file are one byte each, the file holds the
-- desired text afterwards and nothing behind it, whether it was missing or not.
pub ensure_file_has_desired_contents_lem :
    (codec : Codec) (desired : Text) (mode : Option ℕ) (file : Option File)
    → IsPlainFile codec file
    → length (codec.encode desired) ≡ length desired
    → (ensure_file_has_desired_contents codec desired mode file).contents ≡ codec.encode desired
unfolding ensure_file_has_desired_contents set_mode
ensure_file_has_desired_contents_lem codec desired none none plain size = refl
ensure_file_has_desired_contents_lem codec desired (some m) none plain size = refl
ensure_file_has_desired_contents_lem codec desired none (some f) plain size =
    update_contents_lem codec desired f.contents plain size
ensure_file_has_desired_contents_lem codec desired (some m) (some f) plain size =
    update_contents_lem codec desired f.contents plain size
