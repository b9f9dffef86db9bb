-- ===== src/Tpm/Fstab/Marks.antt =====
-- The two comments on the lines of a table: what marking a line does.
use os_lockdown.Base.{
  ℕ, ◌≡◌, refl, sym, subst, ◌∙◌, ap, Bool, true, false, ◌&&◌, List, [], ◌∷◌, ◌++◌, arith, Text,
  codes, text_eq, text_eq_iff, starts_with, starts_with-append, drop-append, ends_with, any,
  any-append, ◌==◌, drop, length, Bool-cases, ◌⊎◌, inl, inr, if◌then◌else◌,
}
use os_lockdown.Tpm.Fstab.{
  removed_comment, added_comment, Setup, names_encrypted, mark_line, flat_map, restore_line,
}

abbrev pub has_char : ℕ → Text → Bool
has_char c = any (λ d. d == c)

-- A suffix that lacks a character of `line` cannot reach beyond `line`.
pub ends_with_past :
    (c : ℕ) (s line a : Text)
    → has_char c line ≡ true
    → has_char c a ≡ false
    → ends_with (s ++ line) a ≡ ends_with line a
unfolding ends_with
ends_with_past c [] line a h n = refl
ends_with_past c (x ∷ s) line a h n = elim (Bool-cases (text_eq (x ∷ s ++ line) a)) [
  | inl same ↦
      let e : x ∷ s ++ line ≡ a = (text_eq_iff _ _).0 same in
      let has = any-append (λ d. d == c) (x ∷ s) line in
      let n' = subst (λ t. has_char c t ≡ false) (sym e) n in ground (arith, n', has, h)
  | inr other ↦ rw other (ends_with_past c s line a h n)
]

-- A line that carries neither comment.
pub record IsClean (line : Text) : Type 0 where
  pub not_removed : starts_with line removed_comment ≡ false
  pub not_added : ends_with line added_comment ≡ false

restore_line-mark : (line : Text) → restore_line (removed_comment ++ line) ≡ line ∷ []
unfolding restore_line
restore_line-mark line =
    let starts = starts_with-append removed_comment line in
    let rest = ap (λ l. l ∷ []) (drop-append removed_comment line) in
    ap (restored (removed_comment ++ line)) starts ∙ rest
  where
    restored : Text → Bool → List Text
    restored l b =
        if b
        then drop (length removed_comment) l ∷ []
        else if ends_with l added_comment
        then []
        else l ∷ []

pub restore_line-IsClean : (line : Text) → IsClean line → restore_line line ≡ line ∷ []
unfolding restore_line
restore_line-IsClean line h = rw (h.not_removed, h.not_added)

-- The four ways through `mark_line`.
mark_choice :
    {x y : List Text} (b c d : Bool)
    → b ≡ false
    → ((if b then [] else if c then x else if d then x else y) ≡ x)
      ⊎ ((if b then [] else if c then x else if d then x else y) ≡ y)
mark_choice true c d h = ground arith
mark_choice false true d h = inl refl
mark_choice false false true h = inl refl
mark_choice false false false h = inr refl

-- What `mark_line` may return.
pub mark_line_cases :
    (s : Setup) (line : Text)
    → ends_with line added_comment ≡ false
    → (mark_line s line ≡ (removed_comment ++ line) ∷ []) ⊎ (mark_line s line ≡ line ∷ [])
unfolding mark_line
mark_line_cases s line h =
    mark_choice (ends_with line added_comment)
      (s.on_steamos && starts_with line (codes "/dev/disk/by-partsets/"))
      (names_encrypted s.encrypted_uuids line) h

-- Restoring a marked line gives the line back.
pub restore_line-mark_line :
    (s : Setup) (line : Text) → IsClean line → flat_map restore_line (mark_line s line) ≡ line ∷ []
restore_line-mark_line s line h = elim (mark_line_cases s line h.not_added) [
  | inl marked ↦ rw (marked, restore_line-mark line)
  | inr kept ↦ rw (kept, restore_line-IsClean line h)
]
