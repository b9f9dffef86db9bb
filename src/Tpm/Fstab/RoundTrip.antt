-- ===== src/Tpm/Fstab/RoundTrip.antt =====
-- `decrypt` after `setup_auto_tpm_decrypt`, on /etc/fstab.
use os_lockdown.Base.{
  ◌≡◌, refl, sym, ◌∙◌, ap, ap₂, Bool, true, false, ◌||◌, List, [], ◌∷◌, ◌++◌, arith, Text, text_eq,
  text_eq_iff, append_assoc, append-nil, All, Bool-cases, inl, inr, All-append, drop, any,
  any-append, subst, ends_with, ◌↔◌, starts_with,
}
use os_lockdown.Base.Lines.{
  IsLine, read_lines, write_lines, join_lines, read_lines-join_lines, strip, lstrip, rstrip,
  rstrip_cons, is_space, HasNoNewline-any,
}
use os_lockdown.Base.Lines.Laws.{IsLine-mark, read_lines-IsLine}
use os_lockdown.Tpm.Fstab.{
  removed_comment, added_comment, names_encrypted, home_line, var_line, Setup, mark_line,
  added_lines, flat_map, update_lines, pop_blank, lines_eq, update_fstab, restore_line, restore_tab,
}
use os_lockdown.Tpm.Fstab.Marks.{IsClean, restore_line-mark_line, mark_line_cases}

pub flat_map-append :
    (f : Text → List Text) (xs ys : List Text)
    → flat_map f (xs ++ ys) ≡ flat_map f xs ++ flat_map f ys
flat_map-append f [] ys = refl
flat_map-append f (x ∷ xs) ys =
    rw (flat_map-append f xs ys) (sym (append_assoc (f x) (flat_map f xs) (flat_map f ys)))

restore-mark :
    (s : Setup) (ls : List Text)
    → All IsClean ls
    → flat_map restore_line (flat_map (mark_line s) ls) ≡ ls
restore-mark s [] h = refl
restore-mark s (l ∷ ls) h =
    flat_map-append restore_line (mark_line s l) (flat_map (mark_line s) ls)
    ∙ ap₂ ◌++◌ (restore_line-mark_line s l h.0) (restore-mark s ls h.1)

restore-added : (home var : Bool) → flat_map restore_line (added_lines home var) ≡ []
unfolding restore_line text_eq
restore-added true true = refl
restore-added true false = refl
restore-added false true = refl
restore-added false false = refl

restore-update_lines :
    (s : Setup) (ls : List Text) → All IsClean ls → flat_map restore_line (update_lines s ls) ≡ ls
restore-update_lines s ls h =
    flat_map-append restore_line (flat_map (mark_line s) ls) (added_lines s.has_home s.has_var)
    ∙ ap₂ ◌++◌ (restore-mark s ls h) (restore-added s.has_home s.has_var)
    ∙ append-nil ls

is_added : Text → Bool
is_added line = ends_with line added_comment

any-is_added-IsClean : (ls : List Text) → All IsClean ls → any is_added ls ≡ false
unfolding is_added
any-is_added-IsClean [] h = refl
any-is_added-IsClean (l ∷ ls) h = rw (h.0.not_added) (any-is_added-IsClean ls h.1)

any-is_added-added_lines : (home var : Bool) → any is_added (added_lines home var) ≡ home || var
unfolding is_added ends_with text_eq
any-is_added-added_lines true true = refl
any-is_added-added_lines true false = refl
any-is_added-added_lines false true = refl
any-is_added-added_lines false false = refl

any-is_added-update_lines :
    (s : Setup) (ls : List Text)
    → s.has_home || s.has_var ≡ true
    → any is_added (update_lines s ls) ≡ true
any-is_added-update_lines s ls h =
    let split =
      any-append is_added (flat_map (mark_line s) ls) (added_lines s.has_home s.has_var) in
    let added = any-is_added-added_lines s.has_home s.has_var in ground (arith, split, added, h)

lines_eq_iff : (ls ms : List Text) → (lines_eq ls ms ≡ true) ↔ (ls ≡ ms)
unfolding lines_eq
lines_eq_iff [] [] = (λ _. refl, λ _. refl)
lines_eq_iff [] (d ∷ t) = ground arith
lines_eq_iff (c ∷ s) [] = ground arith
lines_eq_iff (c ∷ s) (d ∷ t) = ground (arith, text_eq_iff c d, lines_eq_iff s t)

-- A setup with a partition of its own rewrites a clean table.
update_lines_changes :
    (s : Setup) (ls : List Text)
    → All IsClean ls
    → s.has_home || s.has_var ≡ true
    → lines_eq (update_lines s ls) ls ≡ false
update_lines_changes s ls clean h = elim (Bool-cases (lines_eq (update_lines s ls) ls)) [
  | inl same ↦
      let e = (lines_eq_iff _ _).0 same in
      let a = any-is_added-update_lines s ls h in
      let b = any-is_added-IsClean ls clean in
      let a' = subst (λ l. any is_added l ≡ true) e a in ground (arith, a', b)
  | inr other ↦ other
]

write_lines-any :
    (p : Text → Bool) (ls : List Text) → any p ls ≡ true → write_lines ls ≡ join_lines ls
unfolding write_lines
write_lines-any p [] h = ground arith
write_lines-any p (l ∷ ls) h = refl

mark_line-blank : (s : Setup) → mark_line s [] ≡ [] ∷ []
unfolding mark_line ends_with starts_with names_encrypted text_eq
mark_line-blank s = elim (Bool-cases s.on_steamos) [
  | inl steam ↦ rw steam refl
  | inr other ↦ rw other refl
]

mark_line-IsLine :
    (s : Setup) (l : Text)
    → ends_with l added_comment ≡ false
    → IsLine l
    → All IsLine (mark_line s l)
unfolding is_space
mark_line-IsLine s [] h line = subst (All IsLine) (sym (mark_line-blank s)) (line, tt)
mark_line-IsLine s (c ∷ l) h line = elim (mark_line_cases s (c ∷ l) h) [
  | inl marked ↦
      let words = HasNoNewline-any removed_comment refl in
      subst (All IsLine) (sym marked)
        (IsLine-mark 35 (drop 1 removed_comment) (c ∷ l) refl words (ground arith) line, tt)
  | inr kept ↦ subst (All IsLine) (sym kept) (line, tt)
]

mark-IsLine :
    (s : Setup) (ls : List Text)
    → All IsClean ls
    → All IsLine ls
    → All IsLine (flat_map (mark_line s) ls)
mark-IsLine s [] c h = tt
mark-IsLine s (l ∷ ls) c h =
    All-append IsLine (mark_line s l) _ (mark_line-IsLine s l c.0.not_added h.0)
      (mark-IsLine s ls c.1 h.1)

home_line-IsLine : IsLine home_line
unfolding strip lstrip rstrip rstrip_cons is_space
home_line-IsLine = record { stripped = refl; one_line = HasNoNewline-any home_line refl }

var_line-IsLine : IsLine var_line
unfolding strip lstrip rstrip rstrip_cons is_space
var_line-IsLine = record { stripped = refl; one_line = HasNoNewline-any var_line refl }

added_lines-IsLine : (home var : Bool) → All IsLine (added_lines home var)
added_lines-IsLine true true = (home_line-IsLine, (var_line-IsLine, tt))
added_lines-IsLine true false = (home_line-IsLine, tt)
added_lines-IsLine false true = (var_line-IsLine, tt)
added_lines-IsLine false false = tt

pub pop_blank-All : (P : Text → Type 0) (ls : List Text) → All P ls → All P (pop_blank ls)
unfolding pop_blank
pop_blank-All P [] h = tt
pop_blank-All P (l ∷ []) h = h
pop_blank-All P (l ∷ [] ∷ []) h = (h.0, tt)
pop_blank-All P (l ∷ [] ∷ n ∷ ls) h = (h.0, pop_blank-All P ([] ∷ n ∷ ls) h.1)
pop_blank-All P (l ∷ (c ∷ m) ∷ ls) h = (h.0, pop_blank-All P ((c ∷ m) ∷ ls) h.1)

-- Where no line of /etc/fstab carries a comment of the program, and a home or a var partition is
-- encrypted, `decrypt` after `setup_auto_tpm_decrypt` leaves the lines that were there before, each
-- stripped, without one blank line at the end.
pub restore_tab-update_fstab :
    (s : Setup) (file : Text)
    → All IsClean (read_lines file)
    → s.has_home || s.has_var ≡ true
    → restore_tab (update_fstab s file) ≡ write_lines (pop_blank (read_lines file))
unfolding restore_tab update_fstab
restore_tab-update_fstab s file clean own =
    let original = pop_blank (read_lines file) in
    let clean' = pop_blank-All IsClean (read_lines file) clean in
    let changed = update_lines_changes s original clean' own in
    let lines =
      All-append IsLine _ _
        (mark-IsLine s original clean' (pop_blank-All IsLine _ (read_lines-IsLine file)))
        (added_lines-IsLine s.has_home s.has_var) in
    let read : read_lines (write_lines (update_lines s original)) ≡ update_lines s original =
      ap read_lines (
        write_lines-any is_added (update_lines s original)
          (any-is_added-update_lines s original own))
      ∙ read_lines-join_lines (update_lines s original) lines in
    rw (changed, read) (ap write_lines (restore-update_lines s original clean'))
