-- ===== src/Tpm/Power.antt =====
-- `die_if_not_on_ac_power`: what the supplies under /sys/class/power_supply say.
pub mod Laws
use os_lockdown.Base.{
  Bool, true, false, ◌&&◌, ◌||◌, not, Option, none, some, List, [], ◌∷◌, Text, codes, text_eq,
  if◌then◌else◌,
}
use os_lockdown.Base.Lines.{strip}
use os_lockdown.Tpm.Result.{Result, ok, err, die, die_if, ◌>>=◌, ◌>>◌}

-- A supply's two files, none where one is missing.
pub record Supply : Type 0 where
  pub kind : Option Text
  pub online : Option Text

-- `on_ac_power` and `checked`
pub record Power : Type 0 where
  pub on_ac_power : Bool
  pub checked : Bool

unfoldable pub read_online : Option Text → Power → Power
unfolding strip text_eq
read_online none p = p
read_online (some text) p =
    if text_eq (strip text) (codes "1")
    then record { on_ac_power = true; checked = true }
    else record p { checked = true }

unfoldable pub read_kind : Option Text → Option Text → Power → Power
unfolding strip text_eq
read_kind none online p = p
read_kind (some kind) online p =
    if text_eq (strip kind) (codes "Mains") then read_online online p else p

unfoldable pub read_supplies : List Supply → Power → Power
read_supplies [] p = p
read_supplies (s ∷ ss) p = read_supplies ss (read_kind s.kind s.online p)

-- The two flags are the environment's IGNORE_MISSING_AC_STATE and IGNORE_IF_ON_BATTERY.
unfoldable pub die_if_not_on_ac_power : Bool → Bool → List Supply → Result (Unit {0})
unfolding read_supplies
die_if_not_on_ac_power ignore_missing ignore_battery supplies = do
  let p = read_supplies supplies (record { on_ac_power = false; checked = false })
  die_if (not p.checked && not ignore_missing)
  die_if (not p.on_ac_power && not ignore_battery)
  ok tt
