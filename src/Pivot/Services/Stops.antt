-- ===== src/Pivot/Services/Stops.antt =====
-- Which calls of `stop_service` `enter` makes.
use os_lockdown.Base.{
  ◌≡◌, refl, sym, ap, ◌∙◌, Bool, true, false, ◌&&◌, ◌||◌, not, Option, none, some, List, [], ◌∷◌,
  arith, if◌then◌else◌, Text, text_eq, text_eq_iff, any, any-append, keep, Bool-cases, inl, inr,
}
use os_lockdown.Pivot.Services.{
  Service, Coordinator, Units, Statuses, Call, services, is_active, user_calls, calls_for,
  all_calls, distinct, record_statuses, enter_stops,
}
use os_lockdown.Pivot.Services.Collate.{all_users, whole_statuses, enter_stops-record_statuses}

abbrev pub same_user : Option Text → Option Text → Bool
same_user none none = true
same_user none (some v) = false
same_user (some u) none = false
same_user (some u) (some v) = text_eq u v

pub same_call : Call → Call → Bool
same_call k l = text_eq l.service_name k.service_name && same_user l.user k.user

-- The service manager lists the unit as running.
pub is_running : Units → Text → Bool
is_running [] name = false
is_running ((unit, running) ∷ us) name = if text_eq unit name then running else is_running us name

-- The service is listed, as excluded or restartable.
pub is_listed : List Service → Bool → Text → Bool
is_listed ss for_user name =
    any (λ s. (if for_user then s.for_user else not s.for_user) && text_eq s.name name) ss

pub one_of : Text → List Text → Bool
one_of u us = any (λ v. text_eq v u) us

-- A service that is to be stopped, for the system or for a user.
pub is_to_stop : List Service → List Text → Units → (Text → Units) → Text → Option Text → Bool
is_to_stop ss users system_units user_units name none =
    is_listed ss false name && is_running system_units name
is_to_stop ss users system_units user_units name (some u) =
    is_listed ss true name && (one_of u users && is_running (user_units u) name)

is_active-is_running : (us : Units) (name : Text) → is_active us name ≡ is_running us name
unfolding is_active is_running
is_active-is_running [] name = refl
is_active-is_running (u ∷ us) name = elim (Bool-cases (text_eq u.0 name)) [
  | inl same ↦ rw same refl
  | inr other ↦ rw other (is_active-is_running us name)
]

text_eq_turned : (u v : Text) → text_eq v u ≡ false → text_eq u v ≡ false
text_eq_turned u v h = ground (arith, text_eq_iff u v, text_eq_iff v u, h)

any-keep :
    (u v : Text) (us : List Text)
    → text_eq v u ≡ false
    → one_of v (keep (λ x. not (text_eq x u)) us) ≡ one_of v us
unfolding one_of
any-keep u v [] other = refl
any-keep u v (w ∷ us) other = elim (Bool-cases (text_eq w u)) [
  | inl same ↦
      let apart = ap (λ x. text_eq x v) ((text_eq_iff w u).0 same) ∙ text_eq_turned u v other in
      rw (same, apart) (any-keep u v us other)
  | inr differs ↦ rw differs (ap (λ b. text_eq w v || b) (any-keep u v us other))
]

one_of-distinct : (v : Text) (us : List Text) → one_of v (distinct us) ≡ one_of v us
unfolding one_of distinct
one_of-distinct v [] = refl
one_of-distinct v (u ∷ us) = elim (Bool-cases (text_eq u v)) [
  | inl same ↦ rw same refl
  | inr other ↦
      rw other (any-keep u v (distinct us) (text_eq_turned v u other) ∙ one_of-distinct v us)
]

no_system_calls :
    (name n : Text) (users : List (Text × Units))
    → any (same_call (record { service_name = n; user = none })) (user_calls name users) ≡ false
unfolding user_calls same_call
no_system_calls name n [] = refl
no_system_calls name n (u ∷ us) = elim (Bool-cases (is_active u.1 name)) [
  | inl active ↦ rw active (ground (arith, no_system_calls name n us))
  | inr idle ↦ rw idle (no_system_calls name n us)
]

user_calls-all_users :
    (name n u : Text) (user_units : Text → Units) (us : List Text)
    → any
        (same_call (record { service_name = n; user = some u }))
        (user_calls name (all_users user_units us))
      ≡ (text_eq name n && (one_of u us && is_running (user_units u) name))
unfolding user_calls all_users same_call one_of
user_calls-all_users name n u user_units [] = ground arith
user_calls-all_users name n u user_units (v ∷ us) =
    let rest = user_calls-all_users name n u user_units us in
    let here = is_active-is_running (user_units v) name in
    elim (Bool-cases (is_active (user_units v) name)) [
      | inl active ↦ elim (Bool-cases (text_eq v u)) [
        | inl same ↦
            let own : is_running (user_units u) name ≡ true =
              ap (λ x. is_running (user_units x) name) (sym ((text_eq_iff v u).0 same))
              ∙ sym here
              ∙ active in
            rw (active, same) (ground (arith, rest, own))
        | inr other ↦ rw (active, other) (ground (arith, rest))
      ]
      | inr idle ↦ elim (Bool-cases (text_eq v u)) [
        | inl same ↦
            let own : is_running (user_units u) name ≡ false =
              ap (λ x. is_running (user_units x) name) (sym ((text_eq_iff v u).0 same))
              ∙ sym here
              ∙ idle in
            rw (idle, same) (ground (arith, rest, own))
        | inr other ↦ rw (idle, other) (ground (arith, rest))
      ]
    ]

-- What is asked of a name may be asked of one that equals it.
under_name :
    (f : Text → Bool) (name n : Text) → (text_eq name n && f name) ≡ (text_eq name n && f n)
under_name f name n = elim (Bool-cases (text_eq name n)) [
  | inl same ↦ ap (λ x. text_eq name n && f x) ((text_eq_iff name n).0 same)
  | inr other ↦ rw other refl
]

module _ (users : List Text) (system_units : Units) (user_units : Text → Units) where
  abbrev whole : Statuses
  whole = whole_statuses users system_units user_units

  system_call :
      (n name : Text) (for_user : Bool)
      → any
          (same_call (record { service_name = n; user = none }))
          (calls_for whole (record { name = name; for_user = for_user }))
        ≡ (not for_user && text_eq name n && is_running system_units n)
  unfolding calls_for same_call
  system_call n name true = no_system_calls name n (all_users user_units users)
  system_call n name false =
      let here = is_active-is_running system_units name in
      let turned = under_name (is_running system_units) name n in
      elim (Bool-cases (is_active system_units name)) [
        | inl active ↦ rw active (ground (arith, here, active, turned))
        | inr idle ↦ rw idle (ground (arith, here, idle, turned))
      ]

  user_call :
      (n u name : Text) (for_user : Bool)
      → any
          (same_call (record { service_name = n; user = some u }))
          (calls_for whole (record { name = name; for_user = for_user }))
        ≡ (for_user && text_eq name n && (one_of u users && is_running (user_units u) n))
  unfolding calls_for same_call
  user_call n u name true =
      user_calls-all_users name n u user_units users
      ∙ under_name (λ x. one_of u users && is_running (user_units u) x) name n
  user_call n u name false = elim (Bool-cases (is_active system_units name)) [
    | inl active ↦ rw active (ground arith)
    | inr idle ↦ rw idle refl
  ]

  all_calls-is_to_stop :
      (name : Text) (user : Option Text) (ss : List Service)
      → any (same_call (record { service_name = name; user = user })) (all_calls whole ss)
        ≡ is_to_stop ss users system_units user_units name user
  unfolding all_calls is_to_stop is_listed
  all_calls-is_to_stop n none [] = refl
  all_calls-is_to_stop n (some u) [] = refl
  all_calls-is_to_stop n none (s ∷ ss) =
      any-append _ (calls_for whole s) (all_calls whole ss)
      ∙ ground (arith, system_call n s.name s.for_user, all_calls-is_to_stop n none ss)
  all_calls-is_to_stop n (some u) (s ∷ ss) =
      any-append _ (calls_for whole s) (all_calls whole ss)
      ∙ ground (arith, user_call n u s.name s.for_user, all_calls-is_to_stop n (some u) ss)

-- `enter` stops a service for the system where it is listed as a service of the system and the
-- service manager says that it runs there; and for a user, where it is listed as a user's service,
-- the user is logged in, and the service manager says that it runs for that user. It stops no other.
pub enter_stops_iff :
    (c : Coordinator) (users : List Text) (system_units : Units) (user_units : Text → Units)
    (name : Text) (user : Option Text)
    → any
        (same_call (record { service_name = name; user = user }))
        (enter_stops c (record_statuses c users system_units user_units))
      ≡ is_to_stop (services c) users system_units user_units name user
unfolding is_to_stop
enter_stops_iff c users system_units user_units name user =
    ap (any (same_call (record { service_name = name; user = user })))
      (enter_stops-record_statuses c users system_units user_units)
    ∙ all_calls-is_to_stop (distinct users) system_units user_units name user (services c)
    ∙ same_users user
  where
    same_users :
        (o : Option Text)
        → is_to_stop (services c) (distinct users) system_units user_units name o
          ≡ is_to_stop (services c) users system_units user_units name o
    same_users none = refl
    same_users (some u) =
        ap (λ b. is_listed (services c) true name && (b && is_running (user_units u) name))
          (one_of-distinct u users)
