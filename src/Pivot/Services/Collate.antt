-- ===== src/Pivot/Services/Collate.antt =====
-- The statuses that `enter` records, against the whole lists of units.
use os_lockdown.Base.{
  ◌≡◌, refl, sym, ap, ap₂, ◌∙◌, subst, Bool, true, false, Option, none, some, List, [], ◌∷◌, ◌++◌,
  arith, if◌then◌else◌, Text, text_eq, text_eq_iff, any-append, Bool-cases, inl, inr, append_assoc,
}
use os_lockdown.Pivot.Services.{
  Service, Coordinator, Units, Statuses, Call, same_flag, services, is_of_interest, filter_units,
  collate_services_status, is_active, user_calls, calls_for, all_calls, collate_users, distinct,
  has_services, record_statuses, enter_stops,
}

-- Filtering by names does not change what is found under a name that passes.
is_active-filter_units :
    (p : Text → Bool) (us : Units) (name : Text)
    → p name ≡ true
    → is_active (filter_units p us) name ≡ is_active us name
unfolding is_active filter_units
is_active-filter_units p [] name h = refl
is_active-filter_units p (u ∷ us) name h = elim (Bool-cases (text_eq u.0 name)) [
  | inl same ↦ let passes = ap p ((text_eq_iff u.0 name).0 same) ∙ h in rw (passes, same) refl
  | inr other ↦ elim (Bool-cases (p u.0)) [
    | inl passes ↦ rw (passes, other) (is_active-filter_units p us name h)
    | inr fails ↦ rw (fails, other) (is_active-filter_units p us name h)
  ]
]

same_flag_refl : (b : Bool) → same_flag b b ≡ true
same_flag_refl true = refl
same_flag_refl false = refl

-- The name of a service is of interest among any services that have it.
of_interest :
    (s : Service) (before behind : List Service)
    → is_of_interest (before ++ (s ∷ behind)) s.for_user s.name ≡ true
unfolding is_of_interest
of_interest s before behind =
    any-append _ before (s ∷ behind)
    ∙ ground (arith, same_flag_refl s.for_user, (text_eq_iff s.name s.name).1 refl)

-- All units of the users, without a filter.
unfoldable pub all_users : (Text → Units) → List Text → List (Text × Units)
all_users user_units [] = []
all_users user_units (u ∷ us) = (u, user_units u) ∷ all_users user_units us

user_calls-collate_users :
    (ss : List Service) (user_units : Text → Units) (users : List Text) (name : Text)
    → is_of_interest ss true name ≡ true
    → user_calls name (collate_users ss user_units users)
      ≡ user_calls name (all_users user_units users)
unfolding user_calls collate_users all_users collate_services_status
user_calls-collate_users ss user_units [] name h = refl
user_calls-collate_users ss user_units (u ∷ us) name h =
    rw
      (
        is_active-filter_units (is_of_interest ss true) (user_units u) name h,
        user_calls-collate_users ss user_units us name h,
      )
      refl

-- The statuses as they would be without a filter.
abbrev pub whole_statuses : List Text → Units → (Text → Units) → Statuses
whole_statuses logged_in_users system_units user_units = record {
  system = system_units;
  users = all_users user_units logged_in_users;
}

abbrev collated : List Service → List Text → Units → (Text → Units) → Statuses
collated ss logged_in_users system_units user_units = record {
  system = collate_services_status ss false system_units;
  users = collate_users ss user_units logged_in_users;
}

module _ (users : List Text) (system_units : Units) (user_units : Text → Units) where
  calls_for-collated :
      (ss : List Service) (name : Text) (for_user : Bool)
      → is_of_interest ss for_user name ≡ true
      → calls_for
          (collated ss users system_units user_units)
          (record { name = name; for_user = for_user })
        ≡ calls_for
            (whole_statuses users system_units user_units)
            (record { name = name; for_user = for_user })
  unfolding calls_for collate_services_status
  calls_for-collated ss name true h = user_calls-collate_users ss user_units users name h
  calls_for-collated ss name false h =
      rw (is_active-filter_units (is_of_interest ss false) system_units name h) refl

  -- The services behind `before` in the whole list `before ++ ss`.
  all_calls-collated :
      (before ss : List Service)
      → all_calls (collated (before ++ ss) users system_units user_units) ss
        ≡ all_calls (whole_statuses users system_units user_units) ss
  unfolding all_calls
  all_calls-collated before [] = refl
  all_calls-collated before (s ∷ ss) =
      let shift = sym (append_assoc before (s ∷ []) ss) in
      ap₂ ◌++◌ (calls_for-collated (before ++ (s ∷ ss)) s.name s.for_user (of_interest s before ss))
        (subst
          (λ whole.
            all_calls (collated whole users system_units user_units) ss
            ≡ all_calls (whole_statuses users system_units user_units) ss)
          (sym shift) (all_calls-collated (before ++ (s ∷ [])) ss))

calls_of : List Service → Option Statuses → List Call
calls_of ss none = []
calls_of ss (some t) = all_calls t ss

enter_stops-calls_of :
    (c : Coordinator) (t : Option Statuses) → enter_stops c t ≡ calls_of (services c) t
unfolding enter_stops calls_of
enter_stops-calls_of c none = refl
enter_stops-calls_of c (some t) = refl

calls_of-collated :
    (ss : List Service) (users : List Text) (system_units : Units) (user_units : Text → Units)
    → calls_of ss
        (if has_services ss then some (collated ss users system_units user_units) else none)
      ≡ all_calls (whole_statuses users system_units user_units) ss
unfolding calls_of has_services all_calls
calls_of-collated [] users system_units user_units = refl
calls_of-collated (s ∷ ss) users system_units user_units =
    all_calls-collated users system_units user_units [] (s ∷ ss)

-- The filter by the names of interest decides nothing.
pub enter_stops-record_statuses :
    (c : Coordinator) (users : List Text) (system_units : Units) (user_units : Text → Units)
    → enter_stops c (record_statuses c users system_units user_units)
      ≡ all_calls (whole_statuses (distinct users) system_units user_units) (services c)
unfolding record_statuses
enter_stops-record_statuses c users system_units user_units =
    enter_stops-calls_of c _
    ∙ calls_of-collated (services c) (distinct users) system_units user_units
