-- ===== src/Tpm/Power/Laws.antt =====
-- When `die_if_not_on_ac_power` lets the program go on.
use os_lockdown.Base.{
  ◌≡◌, ap, ◌∙◌, Bool, true, false, ◌&&◌, ◌||◌, not, Option, none, some, List, [], ◌∷◌, arith, Text,
  codes, any, text_eq, if◌then◌else◌,
}
use os_lockdown.Base.Lines.{strip}
use os_lockdown.Tpm.Result.{Result, ok, err, die, die_if, ◌>>◌}
use os_lockdown.Tpm.Power.{
  Supply, Power, read_online, read_kind, read_supplies, die_if_not_on_ac_power,
}

is_text : Text → Option Text → Bool
is_text t none = false
is_text t (some u) = text_eq (strip u) t

is_readable : Option Text → Bool
is_readable none = false
is_readable (some t) = true

-- A mains supply whose state can be read.
pub is_mains : Supply → Bool
is_mains s = is_text (codes "Mains") s.kind && is_readable s.online

-- A mains supply that is online.
pub is_online : Supply → Bool
is_online s = is_text (codes "Mains") s.kind && is_text (codes "1") s.online

read_one-checked :
    (kind online : Option Text) (p : Power)
    → (read_kind kind online p).checked
      ≡ p.checked || (is_text (codes "Mains") kind && is_readable online)
unfolding read_kind read_online is_text is_readable
read_one-checked none online p = ground arith
read_one-checked (some k) none p = ground arith
read_one-checked (some k) (some o) p = ground arith

read_one-on_ac_power :
    (kind online : Option Text) (p : Power)
    → (read_kind kind online p).on_ac_power
      ≡ p.on_ac_power || (is_text (codes "Mains") kind && is_text (codes "1") online)
unfolding read_kind read_online is_text
read_one-on_ac_power none online p = ground arith
read_one-on_ac_power (some k) none p = ground arith
read_one-on_ac_power (some k) (some o) p = ground arith

or_assoc : (a b c : Bool) → (a || b) || c ≡ a || (b || c)
or_assoc a b c = ground arith

read_supplies-checked :
    (ss : List Supply) (p : Power) → (read_supplies ss p).checked ≡ p.checked || any is_mains ss
unfolding read_supplies is_mains
read_supplies-checked [] p = ground arith
read_supplies-checked (s ∷ ss) p =
    read_supplies-checked ss (read_kind s.kind s.online p)
    ∙ ap (λ b. b || any is_mains ss) (read_one-checked s.kind s.online p)
    ∙ or_assoc p.checked (is_mains s) (any is_mains ss)

read_supplies-on_ac_power :
    (ss : List Supply) (p : Power)
    → (read_supplies ss p).on_ac_power ≡ p.on_ac_power || any is_online ss
unfolding read_supplies is_online
read_supplies-on_ac_power [] p = ground arith
read_supplies-on_ac_power (s ∷ ss) p =
    read_supplies-on_ac_power ss (read_kind s.kind s.online p)
    ∙ ap (λ b. b || any is_online ss) (read_one-on_ac_power s.kind s.online p)
    ∙ or_assoc p.on_ac_power (is_online s) (any is_online ss)

abbrev done : Result (Unit {0})
done = ok tt

two_checks :
    (m b c a : Bool)
    → (die_if (not c && not m) >> (die_if (not a && not b) >> done))
      ≡ (if (c || m) && (a || b) then done else err die)
two_checks m b true true = ground arith
two_checks m b true false = ground arith
two_checks m b false true = ground arith
two_checks m b false false = ground arith

-- The program goes on where a mains supply can be read, or IGNORE_MISSING_AC_STATE is set, and
-- besides a mains supply is online, or IGNORE_IF_ON_BATTERY is set. It dies otherwise.
pub die_if_not_on_ac_power_lem :
    (ignore_missing ignore_battery : Bool) (supplies : List Supply)
    → die_if_not_on_ac_power ignore_missing ignore_battery supplies ≡ (
        if (any is_mains supplies || ignore_missing) && (any is_online supplies || ignore_battery)
        then ok tt
        else err die)
unfolding die_if_not_on_ac_power
die_if_not_on_ac_power_lem m b ss =
    let start : Power = record { on_ac_power = false; checked = false } in
    let c = read_supplies-checked ss start in
    let a = read_supplies-on_ac_power ss start in
    rw (c, a) (two_checks m b (any is_mains ss) (any is_online ss))
