-- ===== src/Pivot/Tests.antt =====
-- A zone with one service that is excluded and one that is restarted for the users.
use os_lockdown.Base.{◌≡◌, refl, true, false, none, some, List, [], ◌∷◌, Text, codes, text_eq, any}
use os_lockdown.Base.Outcome.{ok}
use os_lockdown.Pivot.Services.{
  Coordinator, Units, Call, distinct, services, has_services, record_statuses, enter_stops,
  exit_restarts,
}
use os_lockdown.Pivot.Services.Stops.{same_call, is_to_stop, enter_stops_iff}
use os_lockdown.Pivot.Services.Restored.{IsRestored, exit_restarts-IsRestored}

abbrev coordinator : Coordinator
coordinator = record {
  excluded_services = record { name = codes "swap"; for_user = false } ∷ [];
  restartable_services = record { name = codes "sound"; for_user = true } ∷ [];
}

abbrev system_units : Units
system_units = (codes "sound", true) ∷ (codes "swap", true) ∷ []

abbrev user_units : Text → Units
user_units user = (codes "sound", text_eq user (codes "deck")) ∷ []

abbrev users : List Text
users = codes "deck" ∷ codes "guest" ∷ codes "deck" ∷ []

abbrev calls : List Call
calls =
    record { service_name = codes "swap"; user = none }
    ∷ record { service_name = codes "sound"; user = some (codes "deck") }
    ∷ []

enter_stops_iff_example :
    any
      (same_call (record { service_name = codes "sound"; user = some (codes "deck") }))
      (enter_stops coordinator (record_statuses coordinator users system_units user_units))
    ≡ is_to_stop
        (services coordinator)
        users
        system_units
        user_units
        (codes "sound")
        (some (codes "deck"))
enter_stops_iff_example =
    enter_stops_iff coordinator users system_units user_units (codes "sound") (some (codes "deck"))

stopped :
    enter_stops coordinator (record_statuses coordinator users system_units user_units) ≡ calls
unfolding enter_stops record_statuses services text_eq distinct
stopped = refl

coordinator-services : has_services (services coordinator) ≡ true
unfolding has_services services
coordinator-services = refl

exit_restarts-IsRestored_example :
    (restarts : List Call) × (exit_restarts coordinator
        (record_statuses coordinator users system_units user_units)
      ≡ ok restarts)
    × IsRestored
        (enter_stops coordinator (record_statuses coordinator users system_units user_units))
        restarts
exit_restarts-IsRestored_example =
    exit_restarts-IsRestored coordinator users system_units user_units coordinator-services
