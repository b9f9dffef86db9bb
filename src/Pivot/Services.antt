-- ===== src/Pivot/Services.antt =====
-- The services that `PivotZoneCoordinator.enter` stops and restarts, and `exit` restarts.
pub mod Collate
pub mod Restored
pub mod Stops
use os_lockdown.Base.{
  Bool, true, false, ◌&&◌, ◌||◌, not, Option, none, some, List, [], ◌∷◌, ◌++◌, if◌then◌else◌, Text,
  text_eq, any, keep,
}
use os_lockdown.Base.Sort.{is_in}
use os_lockdown.Base.Outcome.{Outcome, ok, err}

-- An element of `excluded_services` or `restartable_services`.
pub record Service : Type 0 where
  pub name : Text
  pub for_user : Bool

pub record Coordinator : Type 0 where
  pub excluded_services : List Service
  pub restartable_services : List Service

-- What `get_active_units` returns: whether a unit is running or listening.
abbrev pub Units : Type 0
Units = List (Text × Bool)

-- `system_service_statuses` and `user_service_statuses`
pub record Statuses : Type 0 where
  pub system : Units
  pub users : List (Text × Units)

-- A call of `stop_service` or `restart_service`; the user is none for a system service.
pub record Call : Type 0 where
  pub service_name : Text
  pub user : Option Text

pub data ExitError : Type 0 where
  attribute_error : ExitError

abbrev pub same_flag : Bool → Bool → Bool
same_flag true b = b
same_flag false b = not b

unfoldable pub services : Coordinator → List Service
services c = c.excluded_services ++ c.restartable_services

-- A service name of interest, to the users or to the system.
unfoldable pub is_of_interest : List Service → Bool → Text → Bool
unfolding text_eq
is_of_interest ss for_user name = any (λ s. same_flag s.for_user for_user && text_eq s.name name) ss

unfoldable pub filter_units : (Text → Bool) → Units → Units
filter_units p [] = []
filter_units p (u ∷ us) = let rest = filter_units p us in if p u.0 then u ∷ rest else rest

-- `__collate_services_status`
unfoldable pub collate_services_status : List Service → Bool → Units → Units
unfolding is_of_interest filter_units
collate_services_status ss for_user units = filter_units (is_of_interest ss for_user) units

-- `statuses.get(service_name)`, as a condition.
unfoldable pub is_active : Units → Text → Bool
unfolding text_eq
is_active [] name = false
is_active (u ∷ us) name = let rest = is_active us name in if text_eq u.0 name then u.1 else rest

-- The loop over the users that one service leads to.
unfoldable pub user_calls : Text → List (Text × Units) → List Call
unfolding is_active
user_calls name [] = []
user_calls name (u ∷ us) =
    let rest = user_calls name us in
    if is_active u.1 name then record { service_name = name; user = some u.0 } ∷ rest else rest

unfoldable pub calls_for : Statuses → Service → List Call
unfolding user_calls is_active
calls_for t s =
    if s.for_user
    then user_calls s.name t.users
    else if is_active t.system s.name
    then record { service_name = s.name; user = none } ∷ []
    else []

unfoldable pub all_calls : Statuses → List Service → List Call
unfolding calls_for
all_calls t [] = []
all_calls t (s ∷ ss) = calls_for t s ++ all_calls t ss

-- The keys of a dict that is made of `users`: each user once.
unfoldable pub distinct : List Text → List Text
distinct [] = []
distinct (u ∷ us) = u ∷ keep (λ v. not (text_eq v u)) (distinct us)

-- What `enter` records for each key of the dict; `user_units` is what the service manager lists for a user.
unfoldable pub collate_users : List Service → (Text → Units) → List Text → List (Text × Units)
unfolding collate_services_status
collate_users ss user_units [] = []
collate_users ss user_units (u ∷ us) =
    (u, collate_services_status ss true (user_units u)) ∷ collate_users ss user_units us

unfoldable pub has_services : List Service → Bool
has_services [] = false
has_services (s ∷ ss) = true

unfoldable pub record_statuses : Coordinator → List Text → Units → (Text → Units) → Option Statuses
unfolding has_services collate_services_status collate_users distinct
record_statuses c logged_in_users system_units user_units =
    if has_services (services c)
    then some (record {
      system = collate_services_status (services c) false system_units;
      users = collate_users (services c) user_units (distinct logged_in_users);
    })
    else none

-- The calls of `stop_service` in `enter`.
unfoldable pub enter_stops : Coordinator → Option Statuses → List Call
unfolding all_calls
enter_stops c none = []
enter_stops c (some t) = all_calls t (services c)

unfoldable pub keep_users : List Text → List (Text × Units) → List (Text × Units)
unfolding is_in
keep_users logged_in [] = []
keep_users logged_in (u ∷ us) =
    let rest = keep_users logged_in us in if is_in u.0 logged_in then u ∷ rest else rest

-- The calls of `restart_service` in `enter`; the users are those logged in by then.
unfoldable pub enter_restarts : Coordinator → List Text → Option Statuses → List Call
unfolding all_calls keep_users
enter_restarts c logged_in none = []
enter_restarts c logged_in (some t) =
    all_calls (record t { users = keep_users logged_in t.users }) c.restartable_services

unfoldable pub reversed : List Service → List Service
reversed [] = []
reversed (s ∷ ss) = reversed ss ++ (s ∷ [])

-- The calls of `restart_service` in `exit`. The statuses are logged before, and where `enter`
-- recorded none there is no such attribute.
unfoldable pub exit_restarts : Coordinator → Option Statuses → Outcome ExitError (List Call)
unfolding reversed all_calls
exit_restarts c none = err attribute_error
exit_restarts c (some t) = ok (all_calls t (reversed (services c)))
