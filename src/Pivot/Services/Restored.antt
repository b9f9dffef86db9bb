-- ===== src/Pivot/Services/Restored.antt =====
-- The services that `exit` restarts, against those that `enter` stopped.
use os_lockdown.Base.{
  ◌≡◌, refl, sym, ap, ◌∙◌, Bool, true, false, ◌||◌, some, List, [], ◌∷◌, ◌++◌, arith, Text, any,
  any-append,
}
use os_lockdown.Base.Outcome.{ok}
use os_lockdown.Pivot.Services.{
  Service, Coordinator, Units, Statuses, Call, services, calls_for, all_calls, has_services,
  collate_services_status, collate_users, distinct, record_statuses, enter_stops, reversed,
  exit_restarts,
}

all_calls-append :
    (t : Statuses) (p : Call → Bool) (ss rs : List Service)
    → any p (all_calls t (ss ++ rs)) ≡ any p (all_calls t ss) || any p (all_calls t rs)
unfolding all_calls
all_calls-append t p [] rs = refl
all_calls-append t p (s ∷ ss) rs =
    let front = any-append p (calls_for t s) (all_calls t (ss ++ rs)) in
    let short = any-append p (calls_for t s) (all_calls t ss) in
    ground (arith, front, short, all_calls-append t p ss rs)

all_calls-reversed :
    (t : Statuses) (p : Call → Bool) (ss : List Service)
    → any p (all_calls t (reversed ss)) ≡ any p (all_calls t ss)
unfolding all_calls reversed
all_calls-reversed t p [] = refl
all_calls-reversed t p (s ∷ ss) =
    let whole = all_calls-append t p (reversed ss) (s ∷ []) in
    let one = any-append p (calls_for t s) [] in
    let front = any-append p (calls_for t s) (all_calls t ss) in
    ground (arith, whole, one, front, all_calls-reversed t p ss)

recorded_some :
    (c : Coordinator) (users : List Text) (system_units : Units) (user_units : Text → Units)
    → has_services (services c) ≡ true
    → (t : Statuses) × (record_statuses c users system_units user_units ≡ some t)
unfolding record_statuses
recorded_some c users system_units user_units h = (
  record {
    system = collate_services_status (services c) false system_units;
    users = collate_users (services c) user_units (distinct users);
  },
  rw h refl,
)

-- What holds of the calls of `restart_service`.
pub record IsRestored (stops restarts : List Call) : Type 0 where
  pub same : (p : Call → Bool) → any p restarts ≡ any p stops

-- Where services are listed, `exit` after `enter` restarts the services that `enter` stopped, for
-- the same users, and no other.
pub exit_restarts-IsRestored :
    (c : Coordinator) (users : List Text) (system_units : Units) (user_units : Text → Units)
    → has_services (services c) ≡ true
    → (restarts : List Call) × (exit_restarts c (record_statuses c users system_units user_units)
        ≡ ok restarts)
      × IsRestored (enter_stops c (record_statuses c users system_units user_units)) restarts
unfolding exit_restarts enter_stops
exit_restarts-IsRestored c users system_units user_units h =
    let (t, recorded) = recorded_some c users system_units user_units h in
    (
      all_calls t (reversed (services c)),
      ap (exit_restarts c) recorded,
      record {
        same = λ p.
            all_calls-reversed t p (services c) ∙ ap (λ o. any p (enter_stops c o)) (sym recorded);
      },
    )
