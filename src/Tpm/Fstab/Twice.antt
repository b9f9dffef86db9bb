-- ===== src/Tpm/Fstab/Twice.antt =====
-- `setup_auto_tpm_decrypt` run again, on /etc/fstab.
use os_lockdown.Base.{
  ℕ, ◌≡◌, refl, sym, ◌∙◌, ap, ap₂, Bool, true, false, ◌&&◌, List, [], ◌∷◌, ◌++◌, arith, Text, codes,
  starts_with, starts_with-split, ends_with, drop, length, any-append, All, All-append, Bool-cases,
  inl, inr, ◌==◌, append-nil, subst, text_eq,
}
use os_lockdown.Tpm.Fstab.{
  removed_comment, added_comment, names_encrypted, Setup, mark_line, added_lines, flat_map,
  update_lines,
}
use os_lockdown.Tpm.Fstab.Marks.{has_char, ends_with_past}
use os_lockdown.Tpm.Fstab.RoundTrip.{flat_map-append}

-- A line that a setup leaves as it is.
abbrev Settled : Setup → Text → Type 0
Settled s line = mark_line s line ≡ line ∷ []

-- What a setup looks for at the start of a line.
by_partsets : Setup → Text → Bool
unfolding starts_with
by_partsets s line = s.on_steamos && starts_with line (codes "/dev/disk/by-partsets/")

mark_line-keep :
    (s : Setup) (line : Text)
    → ends_with line added_comment ≡ false
    → by_partsets s line ≡ false
    → names_encrypted s.encrypted_uuids line ≡ false
    → Settled s line
unfolding mark_line by_partsets
mark_line-keep s line a b c = rw (a, b, c) refl

removed_by_partsets : (s : Setup) (line : Text) → by_partsets s (removed_comment ++ line) ≡ false
unfolding by_partsets starts_with
removed_by_partsets s line = ground arith

has_char-starts_with :
    (c : ℕ) (line s : Text)
    → starts_with line s ≡ true
    → has_char c s ≡ true
    → has_char c line ≡ true
has_char-starts_with c line s h has =
    let e = starts_with-split line s h in
    let a = any-append (λ d. d == c) s (drop (length s) line) in
    subst (λ t. has_char c t ≡ true) (sym e) (ground (arith, a, has))

-- A line that was marked is settled.
marked-Settled :
    (s : Setup) (line : Text) (c : ℕ)
    → ends_with line added_comment ≡ false
    → has_char c line ≡ true
    → has_char c added_comment ≡ false
    → Settled s (removed_comment ++ line)
unfolding names_encrypted starts_with
marked-Settled s line c e has lacks =
    mark_line-keep s (removed_comment ++ line)
      (ends_with_past c removed_comment line added_comment has lacks ∙ e)
      (removed_by_partsets s line) refl

mark_line-added :
    (s : Setup) (line : Text) → ends_with line added_comment ≡ true → mark_line s line ≡ []
unfolding mark_line
mark_line-added s line h = rw h refl

mark_line-partset :
    (s : Setup) (line : Text)
    → ends_with line added_comment ≡ false
    → by_partsets s line ≡ true
    → mark_line s line ≡ (removed_comment ++ line) ∷ []
unfolding mark_line by_partsets
mark_line-partset s line a b = rw (a, b) refl

mark_line-names :
    (s : Setup) (line : Text)
    → ends_with line added_comment ≡ false
    → by_partsets s line ≡ false
    → names_encrypted s.encrypted_uuids line ≡ true
    → mark_line s line ≡ (removed_comment ++ line) ∷ []
unfolding mark_line by_partsets
mark_line-names s line a b c = rw (a, b, c) refl

by_partsets-slash : (s : Setup) (line : Text) → by_partsets s line ≡ true → has_char 47 line ≡ true
unfolding by_partsets
by_partsets-slash s line h =
    has_char-starts_with 47 line (codes "/dev/disk/by-partsets/") (and_right s.on_steamos _ h) refl
  where
    and_right : (a b : Bool) → a && b ≡ true → b ≡ true
    and_right true b h = h
    and_right false b h = ground arith

names_encrypted-equals :
    (uuids : List Text) (line : Text) → names_encrypted uuids line ≡ true → has_char 61 line ≡ true
unfolding names_encrypted
names_encrypted-equals uuids line h =
    has_char-starts_with 61 line (codes "UUID=") (and_left (starts_with line (codes "UUID=")) _ h)
      refl
  where
    and_left : (a b : Bool) → a && b ≡ true → a ≡ true
    and_left true b h = refl
    and_left false b h = ground arith

-- Whatever a setup makes of a line, it makes it once.
mark_line-Settled : (s : Setup) (line : Text) → All (Settled s) (mark_line s line)
mark_line-Settled s line = elim (Bool-cases (ends_with line added_comment)) [
  | inl a ↦ subst (All (Settled s)) (sym (mark_line-added s line a)) tt
  | inr a ↦ elim (Bool-cases (by_partsets s line)) [
    | inl b ↦
        subst (All (Settled s)) (sym (mark_line-partset s line a b))
          (marked-Settled s line 47 a (by_partsets-slash s line b) refl, tt)
    | inr b ↦ elim (Bool-cases (names_encrypted s.encrypted_uuids line)) [
      | inl c ↦
          let equals = names_encrypted-equals s.encrypted_uuids line c in
          subst (All (Settled s)) (sym (mark_line-names s line a b c))
            (marked-Settled s line 61 a equals refl, tt)
      | inr c ↦
          let keep = mark_line-keep s line a b c in subst (All (Settled s)) (sym keep) (keep, tt)
    ]
  ]
]

mark-Settled : (s : Setup) (ls : List Text) → All (Settled s) (flat_map (mark_line s) ls)
mark-Settled s [] = tt
mark-Settled s (l ∷ ls) =
    All-append (Settled s) (mark_line s l) _ (mark_line-Settled s l) (mark-Settled s ls)

mark-keeps : (s : Setup) (ls : List Text) → All (Settled s) ls → flat_map (mark_line s) ls ≡ ls
mark-keeps s [] h = refl
mark-keeps s (l ∷ ls) h = ap₂ ◌++◌ h.0 (mark-keeps s ls h.1)

mark-added_lines :
    (s : Setup) (home var : Bool) → flat_map (mark_line s) (added_lines home var) ≡ []
unfolding mark_line ends_with text_eq
mark-added_lines s true true = refl
mark-added_lines s true false = refl
mark-added_lines s false true = refl
mark-added_lines s false false = refl

-- The lines that a setup leaves are left as they are by the same setup, whatever the table held.
pub update_lines-twice :
    (s : Setup) (ls : List Text) → update_lines s (update_lines s ls) ≡ update_lines s ls
update_lines-twice s ls =
    ap (λ r. r ++ added_lines s.has_home s.has_var)
      (flat_map-append (mark_line s) (flat_map (mark_line s) ls) (added_lines s.has_home s.has_var)
        ∙ ap₂ ◌++◌ (mark-keeps s _ (mark-Settled s ls)) (mark-added_lines s s.has_home s.has_var)
        ∙ append-nil _)
