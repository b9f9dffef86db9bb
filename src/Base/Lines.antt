-- ===== src/Base/Lines.antt =====
-- Texts as lines: `str.strip`, `str.split()[0]`, iteration over a text file after its newlines are
-- translated, and `'\n'.join(lines) + '\n'`.
pub mod Laws
use os_lockdown.Base.{
  ℕ, ◌≤◌, ◌≡◌, refl, ◌≢◌, sym, ◌∙◌, ap, ap₂, Bool, true, false, not, ◌&&◌, ◌||◌, List, [], ◌∷◌,
  ◌++◌, arith, Text, codes, length, All, ◌==◌, ltb, leb, if◌then◌else◌, map, Bool-cases, inl, inr,
  append_assoc, text_eq, text_eq_iff, ends_with, any,
}

-- `str.isspace` on one character.
unfoldable pub is_space : ℕ → Bool
is_space c =
    (leb 9 c && leb c 13)
    || (leb 28 c && leb c 32)
    || c == 0x85
    || c == 0xa0
    || c == 0x1680
    || (leb 0x2000 c && leb c 0x200a)
    || c == 0x2028
    || c == 0x2029
    || c == 0x202f
    || c == 0x205f
    || c == 0x3000

unfoldable pub lstrip : Text → Text
unfolding is_space
lstrip [] = []
lstrip (c ∷ t) = let rest = lstrip t in if is_space c then rest else c ∷ t

-- A character in front of a stripped rest.
unfoldable pub rstrip_cons : ℕ → Text → Text
unfolding is_space
rstrip_cons c [] = if is_space c then [] else c ∷ []
rstrip_cons c (d ∷ t) = c ∷ d ∷ t

unfoldable pub rstrip : Text → Text
unfolding rstrip_cons
rstrip [] = []
rstrip (c ∷ t) = rstrip_cons c (rstrip t)

unfoldable pub strip : Text → Text
unfolding lstrip rstrip
strip t = rstrip (lstrip t)

-- The first word of a text that begins with one: `t.split()[0]`.
unfoldable pub first_word : Text → Text
unfolding is_space
first_word [] = []
first_word (c ∷ t) = let rest = first_word t in if is_space c then [] else c ∷ rest

pub cons_line : ℕ → List Text → List Text
cons_line c [] = (c ∷ []) ∷ []
cons_line c (l ∷ ls) = (c ∷ l) ∷ ls

-- `for line in f`, each line without its newline.
unfoldable pub split_lines : Text → List Text
unfolding cons_line
split_lines [] = []
split_lines (c ∷ t) = if c == 10 then [] ∷ split_lines t else cons_line c (split_lines t)

-- Each line with a newline behind it.
unfoldable pub join_lines : List Text → Text
join_lines [] = []
join_lines (l ∷ ls) = l ++ (10 ∷ join_lines ls)

-- `'\n'.join(lines) + '\n'`
unfoldable pub write_lines : List Text → Text
unfolding join_lines
write_lines [] = 10 ∷ []
write_lines (l ∷ ls) = join_lines (l ∷ ls)

-- `map(str.strip, f)`
unfoldable pub read_lines : Text → List Text
unfolding split_lines strip
read_lines t = map strip (split_lines t)

abbrev pub HasNoNewline : Text → Type 0
HasNoNewline = All (λ c. c ≢ 10)

pub HasNoNewline-any : (t : Text) → any (λ c. c == 10) t ≡ false → HasNoNewline t
HasNoNewline-any [] h = tt
HasNoNewline-any (c ∷ t) h = (ground arith, HasNoNewline-any t (ground (arith, h)))

-- A line as the program holds it: stripped, and without a newline.
pub record IsLine (l : Text) : Type 0 where
  pub stripped : strip l ≡ l
  pub one_line : HasNoNewline l

split_lines-line :
    (l rest : Text) → HasNoNewline l → split_lines (l ++ (10 ∷ rest)) ≡ l ∷ split_lines rest
unfolding split_lines
split_lines-line [] rest h = refl
split_lines-line (c ∷ l) rest h = ground (arith, h.0, split_lines-line l rest h.1)

split_lines-join_lines : (ls : List Text) → All HasNoNewline ls → split_lines (join_lines ls) ≡ ls
unfolding join_lines
split_lines-join_lines [] h = unfold split_lines in refl
split_lines-join_lines (l ∷ ls) h =
    split_lines-line l (join_lines ls) h.0 ∙ ap (λ r. l ∷ r) (split_lines-join_lines ls h.1)

-- Lines that are written are read back.
pub read_lines-join_lines : (ls : List Text) → All IsLine ls → read_lines (join_lines ls) ≡ ls
unfolding read_lines
read_lines-join_lines ls h =
    ap (map strip) (split_lines-join_lines ls (no_newlines ls h)) ∙ all_stripped ls h
  where
    no_newlines : (ls : List Text) → All IsLine ls → All HasNoNewline ls
    no_newlines [] h = tt
    no_newlines (l ∷ ls) h = (h.0.one_line, no_newlines ls h.1)

    all_stripped : (ls : List Text) → All IsLine ls → map strip ls ≡ ls
    all_stripped [] h = refl
    all_stripped (l ∷ ls) h = ap₂ ◌∷◌ h.0.stripped (all_stripped ls h.1)
