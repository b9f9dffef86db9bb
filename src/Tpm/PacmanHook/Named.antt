-- ===== src/Tpm/PacmanHook/Named.antt =====
-- What `get_non_root_partitions_from_hook` reads in the pacman hook that the setup writes.
use os_lockdown.Base.{
  ℕ, ◌≡◌, refl, sym, ap, subst, Bool, true, false, ◌&&◌, not, ◌==◌, some, option_map, [], ◌∷◌, ◌++◌,
  arith, Text, starts_with,
}
use os_lockdown.Base.Lines.{is_space}
use os_lockdown.Tpm.PacmanHook.{ends_here, take_value, search_value, contains}

-- No two dashes side by side, and none at the end.
unfoldable pub no_dashes : Text → Bool
no_dashes [] = true
no_dashes (c ∷ []) = not (c == 45)
no_dashes (c ∷ d ∷ t) = not (c == 45 && d == 45) && no_dashes (d ∷ t)

-- A word without a space.
unfoldable pub is_word : Text → Bool
is_word [] = true
is_word (c ∷ t) = not (is_space c) && is_word t

-- A value for an option: not empty, without a space, and without two dashes side by side or one at
-- the end.
pub record IsValue (v : Text) : Type 0 where
  pub first : ℕ
  pub others : Text
  pub shape : v ≡ first ∷ others
  pub plain : no_dashes v ≡ true
  pub word : is_word v ≡ true

tail_plain : (c : ℕ) (t : Text) → no_dashes (c ∷ t) ≡ true → no_dashes t ≡ true
unfolding no_dashes
tail_plain c [] h = refl
tail_plain c (d ∷ t) h = ground (arith, h)

no_option :
    (c : ℕ) (t rest n : Text)
    → no_dashes (c ∷ t) ≡ true
    → starts_with (c ∷ (t ++ rest)) (45 ∷ 45 ∷ n) ≡ false
unfolding no_dashes starts_with
no_option c [] [] n h = ground (arith, h)
no_option c [] (r ∷ rest) n h = ground (arith, h)
no_option c (d ∷ t) rest n h = ground (arith, h)

pub contains-plain :
    (n t rest : Text)
    → no_dashes t ≡ true
    → contains (45 ∷ 45 ∷ n) (t ++ rest) ≡ contains (45 ∷ 45 ∷ n) rest
unfolding contains
contains-plain n [] rest h = refl
contains-plain n (c ∷ t) rest h =
    rw (no_option c t rest n h) (contains-plain n t rest (tail_plain c t h))

pub search_value-plain :
    (n t rest : Text)
    → no_dashes t ≡ true
    → search_value (45 ∷ 45 ∷ n) (t ++ rest) ≡ search_value (45 ∷ 45 ∷ n) rest
unfolding search_value
search_value-plain n [] rest h = refl
search_value-plain n (c ∷ t) rest h =
    rw (no_option c t rest n h) (search_value-plain n t rest (tail_plain c t h))

no_newline : (c : ℕ) → is_space c ≡ false → (c == 10) ≡ false
unfolding is_space
no_newline c h = ground (arith, h)

goes_on :
    (c : ℕ) (t rest : Text)
    → no_dashes (c ∷ t) ≡ true
    → is_word (c ∷ t) ≡ true
    → ends_here (c ∷ (t ++ rest)) ≡ false
unfolding ends_here is_word
goes_on c t rest plain word =
    let solid : is_space c ≡ false = ground (arith, word) in
    rw (no_newline c solid, solid) (no_option c t rest [] plain)

take_value-value :
    (c : ℕ) (t rest : Text)
    → no_dashes (c ∷ t) ≡ true
    → is_word (c ∷ t) ≡ true
    → ends_here rest ≡ true
    → take_value (c ∷ (t ++ rest)) ≡ some (c ∷ t)
unfolding take_value is_word
take_value-value c [] rest plain word end =
    let solid : is_space c ≡ false = ground (arith, word) in rw (no_newline c solid, end) refl
take_value-value c (d ∷ t) rest plain word end =
    let solid : is_space c ≡ false = ground (arith, word) in
    let more : is_word (d ∷ t) ≡ true = ground (arith, word) in
    let on = goes_on d t rest (tail_plain c (d ∷ t) plain) more in
    let inner = take_value-value d t rest (tail_plain c (d ∷ t) plain) more end in
    rw (no_newline c solid, on) (ap (option_map (λ v. c ∷ v)) inner)

pub take_value-IsValue :
    (v rest : Text) → IsValue v → ends_here rest ≡ true → take_value (v ++ rest) ≡ some v
take_value-IsValue v rest is end =
    let plain = subst (λ w. no_dashes w ≡ true) is.shape is.plain in
    let word = subst (λ w. is_word w ≡ true) is.shape is.word in
    subst (λ w. take_value (w ++ rest) ≡ some w) (sym is.shape)
      (take_value-value is.first is.others rest plain word end)
