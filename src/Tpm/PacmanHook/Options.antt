-- ===== src/Tpm/PacmanHook/Options.antt =====
-- The options of a command line, and the searches that hit them or go past them.
use os_lockdown.Base.{
  ◌≡◌, refl, ap, ◌∙◌, true, false, Option, none, some, List, [], ◌∷◌, ◌++◌, append_assoc, Text,
  codes, starts_with,
}
use os_lockdown.Base.Lines.{is_space}
use os_lockdown.Tpm.Result.{ok}
use os_lockdown.Tpm.PacmanHook.{
  ends_here, take_value, search_value, contains, optional_value, option_words,
}
use os_lockdown.Tpm.PacmanHook.Named.{
  IsValue, contains-plain, search_value-plain, take_value-IsValue,
}

unfoldable pub behind : List Text → Text
behind [] = []
behind (w ∷ ws) = codes " " ++ (w ++ behind ws)

-- The words with a space between them.
unfoldable pub join_words : List Text → Text
join_words [] = []
join_words (w ∷ ws) = w ++ behind ws

-- The rest of the line, with its end.
unfoldable pub line : List Text → Text
line ws = behind ws ++ codes "\n"

abbrev pub IsOption : Option Text → Type 0
IsOption none = Unit
IsOption (some v) = IsValue v

pub line-option :
    (name v : Text) (ws : List Text)
    → line (name ∷ v ∷ ws) ≡ codes " " ++ (name ++ (codes " " ++ (v ++ line ws)))
unfolding line behind
line-option name v ws =
    ap (λ t. codes " " ++ t)
      (append_assoc name (codes " " ++ (v ++ behind ws)) (codes "\n")
        ∙ ap (λ t. name ++ (codes " " ++ t)) (append_assoc v (behind ws) (codes "\n")))

pub ends-option :
    (m : Text) (o : Option Text) (ws : List Text)
    → ends_here (line ws) ≡ true
    → ends_here (line (option_words (45 ∷ 45 ∷ m) o ++ ws)) ≡ true
unfolding line behind ends_here is_space starts_with
ends-option m none ws h = h
ends-option m (some v) ws h = refl

-- A search for the option `--n` that goes past another option.
module _ (n m : Text) where
  pub contains-option :
      (o : Option Text) (ws : List Text)
      → ((t : Text)
          → contains (45 ∷ 45 ∷ n) (codes " " ++ (m ++ (codes " " ++ t)))
            ≡ contains (45 ∷ 45 ∷ n) t)
      → IsOption o
      → contains (45 ∷ 45 ∷ n) (line (option_words m o ++ ws)) ≡ contains (45 ∷ 45 ∷ n) (line ws)
  contains-option none ws skips is = refl
  contains-option (some v) ws skips is =
      ap (contains (45 ∷ 45 ∷ n)) (line-option m v ws)
      ∙ skips (v ++ line ws)
      ∙ contains-plain n v (line ws) is.plain

  pub search_value-option :
      (o : Option Text) (ws : List Text)
      → ((t : Text)
          → search_value (45 ∷ 45 ∷ n) (codes " " ++ (m ++ (codes " " ++ t)))
            ≡ search_value (45 ∷ 45 ∷ n) t)
      → IsOption o
      → search_value (45 ∷ 45 ∷ n) (line (option_words m o ++ ws))
        ≡ search_value (45 ∷ 45 ∷ n) (line ws)
  search_value-option none ws skips is = refl
  search_value-option (some v) ws skips is =
      ap (search_value (45 ∷ 45 ∷ n)) (line-option m v ws)
      ∙ skips (v ++ line ws)
      ∙ search_value-plain n v (line ws) is.plain

-- The value of the option that is searched for, where it comes next.
module _ (name : Text)
    (hits : (t w : Text)
      → take_value t ≡ some w
      → search_value name (codes " " ++ (name ++ (codes " " ++ t))) ≡ some w)
    (there : (t : Text) → contains name (codes " " ++ (name ++ t)) ≡ true) where
  pub optional_value-option :
      (o : Option Text) (ws : List Text) (text : Text)
      → contains name text ≡ contains name (line (option_words name o ++ ws))
      → search_value name text ≡ search_value name (line (option_words name o ++ ws))
      → IsOption o
      → contains name (line ws) ≡ false
      → ends_here (line ws) ≡ true
      → optional_value name text ≡ ok o
  unfolding optional_value
  optional_value-option none ws text has finds is others end = let no = has ∙ others in rw no refl
  optional_value-option (some v) ws text has finds is others end =
      let shape = line-option name v ws in
      let yes_ = has ∙ ap (contains name) shape ∙ there (codes " " ++ (v ++ line ws)) in
      let value =
        finds
        ∙ ap (search_value name) shape
        ∙ hits (v ++ line ws) v (take_value-IsValue v (line ws) is end) in
      rw (yes_, value) refl

pub esp_hits :
    (t w : Text)
    → take_value t ≡ some w
    → search_value (codes "--esp") (codes " --setup_auto_tpm_decrypt --esp " ++ t) ≡ some w
unfolding search_value starts_with is_space
esp_hits t w h = rw h refl

pub home_hits :
    (t w : Text)
    → take_value t ≡ some w
    → search_value (codes "--home") (codes " " ++ (codes "--home" ++ (codes " " ++ t))) ≡ some w
unfolding search_value starts_with is_space
home_hits t w h = rw h refl

pub var_hits :
    (t w : Text)
    → take_value t ≡ some w
    → search_value (codes "--var") (codes " " ++ (codes "--var" ++ (codes " " ++ t))) ≡ some w
unfolding search_value starts_with is_space
var_hits t w h = rw h refl
