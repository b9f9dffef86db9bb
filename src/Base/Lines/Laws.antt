-- ===== src/Base/Lines/Laws.antt =====
-- Lemmas on the lines of a text file, as read and as marked.
use os_lockdown.Base.{
  ℕ, ◌≡◌, refl, ◌≢◌, sym, ◌∙◌, ap, false, List, [], ◌∷◌, ◌++◌, arith, Text, All, All-append, ◌==◌,
  map, Bool-cases, inl, inr,
}
use os_lockdown.Base.Lines.{
  is_space, lstrip, rstrip_cons, rstrip, strip, cons_line, split_lines, read_lines, HasNoNewline,
  IsLine,
}

rstrip_cons-rstrip : (c : ℕ) (t : Text) → rstrip t ≡ t → rstrip (rstrip_cons c t) ≡ rstrip_cons c t
unfolding rstrip
rstrip_cons-rstrip c [] h = ground arith
rstrip_cons-rstrip c (d ∷ t) h = rw h

rstrip-rstrip : (t : Text) → rstrip (rstrip t) ≡ rstrip t
unfolding rstrip
rstrip-rstrip [] = refl
rstrip-rstrip (c ∷ t) = rstrip_cons-rstrip c (rstrip t) (rstrip-rstrip t)

lstrip-rstrip_cons :
    (c : ℕ) (t : Text) → is_space c ≡ false → lstrip (rstrip_cons c t) ≡ rstrip_cons c t
unfolding lstrip rstrip_cons
lstrip-rstrip_cons c [] h = rw (h, h)
lstrip-rstrip_cons c (d ∷ t) h = rw h

lstrip-rstrip-lstrip : (t : Text) → lstrip (rstrip (lstrip t)) ≡ rstrip (lstrip t)
unfolding lstrip rstrip
lstrip-rstrip-lstrip [] = refl
lstrip-rstrip-lstrip (c ∷ t) = elim (Bool-cases (is_space c)) [
  | inl space ↦ rw space (lstrip-rstrip-lstrip t)
  | inr word ↦ rw word (lstrip-rstrip_cons c (rstrip t) word)
]

pub strip-strip : (t : Text) → strip (strip t) ≡ strip t
unfolding strip
strip-strip t = ap rstrip (lstrip-rstrip-lstrip t) ∙ rstrip-rstrip (lstrip t)

module _ {κ} (P : ℕ → Type κ) where
  All-lstrip : (t : Text) → All P t → All P (lstrip t)
  unfolding lstrip
  All-lstrip [] h = h
  All-lstrip (c ∷ t) h = elim (Bool-cases (is_space c)) [
    | inl space ↦ rw space (All-lstrip t h.1)
    | inr word ↦ rw word h
  ]

  All-rstrip_cons : (c : ℕ) (t : Text) → P c → All P t → All P (rstrip_cons c t)
  unfolding rstrip_cons
  All-rstrip_cons c [] p h = elim (Bool-cases (is_space c)) [
    | inl space ↦ rw space tt
    | inr word ↦ rw word (p, tt)
  ]
  All-rstrip_cons c (d ∷ t) p h = (p, h)

  All-rstrip : (t : Text) → All P t → All P (rstrip t)
  unfolding rstrip
  All-rstrip [] h = h
  All-rstrip (c ∷ t) h = All-rstrip_cons c (rstrip t) h.0 (All-rstrip t h.1)

  All-strip : (t : Text) → All P t → All P (strip t)
  unfolding strip
  All-strip t h = All-rstrip (lstrip t) (All-lstrip t h)

cons_line-HasNoNewline :
    (c : ℕ) (ls : List Text) → c ≢ 10 → All HasNoNewline ls → All HasNoNewline (cons_line c ls)
unfolding cons_line
cons_line-HasNoNewline c [] h a = ((h, tt), tt)
cons_line-HasNoNewline c (l ∷ ls) h a = ((h, a.0), a.1)

split_lines-HasNoNewline : (t : Text) → All HasNoNewline (split_lines t)
unfolding split_lines
split_lines-HasNoNewline [] = tt
split_lines-HasNoNewline (c ∷ t) = elim (Bool-cases (c == 10)) [
  | inl newline ↦ rw newline (tt, split_lines-HasNoNewline t)
  | inr other ↦
      rw other
        (cons_line-HasNoNewline c (split_lines t) (ground arith) (split_lines-HasNoNewline t))
]

-- What is read is a list of stripped lines.
pub read_lines-IsLine : (t : Text) → All IsLine (read_lines t)
unfolding read_lines
read_lines-IsLine t = each (split_lines t) (split_lines-HasNoNewline t)
  where
    each : (ls : List Text) → All HasNoNewline ls → All IsLine (map strip ls)
    each [] h = tt
    each (l ∷ ls) h =
        (record { stripped = strip-strip l; one_line = All-strip _ l h.0 }, each ls h.1)

pub rstrip_append : (s l : Text) → l ≢ [] → rstrip l ≡ l → rstrip (s ++ l) ≡ s ++ l
unfolding rstrip rstrip_cons
rstrip_append [] l ne h = h
rstrip_append (c ∷ []) [] ne h = absurd (ne refl)
rstrip_append (c ∷ []) (d ∷ l) ne h = rw h
rstrip_append (c ∷ d ∷ s) l ne h = rw (rstrip_append (d ∷ s) l ne h)

rstrip-eq_of_strip : (l : Text) → strip l ≡ l → rstrip l ≡ l
unfolding strip
rstrip-eq_of_strip l h = sym (ap rstrip h) ∙ rstrip-rstrip (lstrip l) ∙ h

-- A mark that begins with no space, put before a line that is not empty, leaves it stripped.
pub IsLine-mark :
    (c : ℕ) (s l : Text)
    → is_space c ≡ false
    → HasNoNewline (c ∷ s)
    → l ≢ []
    → IsLine l
    → IsLine (c ∷ s ++ l)
unfolding strip lstrip
IsLine-mark c s l word mark ne h = record {
  stripped = rw word (rstrip_append (c ∷ s) l ne (rstrip-eq_of_strip l h.stripped));
  one_line = All-append _ (c ∷ s) l mark h.one_line;
}
