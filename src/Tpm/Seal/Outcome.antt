-- ===== src/Tpm/Seal/Outcome.antt =====
-- How a check of some partitions ends, for every exit code of cryptsetup.
use os_lockdown.Base.{
  ◌≡◌, refl, ap, ◌∙◌, Bool, true, false, ◌||◌, ◌&&◌, not, Option, none, some, List, [], ◌∷◌, arith,
  Text, any, if◌then◌else◌, ◌==◌, Bool-cases, inl, inr,
}
use os_lockdown.Tpm.Result.{Result, Error, ok, err, die, called_process_error, ◌>>=◌, ok-injective}
use os_lockdown.Tpm.Seal.{Opening, Killer, has_blank_password, with_blank_password, Report, report}

-- How opening a partition ends the program: the volume is not closed again, or the exit code neither
-- means a blank password nor none.
pub fault : Opening → Option Error
fault o =
    if o.open_code == 0 && not (o.close_code == 0)
    then some called_process_error
    else if o.open_code == 0 || o.open_code == 5 || o.open_code == 2
    then none
    else some die

-- The password is blank: the volume was opened, or is in use.
pub means_blank : Opening → Bool
means_blank o = o.open_code == 0 || o.open_code == 5

abbrev pub first_of : Option Error → Option Error → Option Error
first_of none other = other
first_of (some e) other = some e

pub first_fault : List (Text × Opening) → Option Error
first_fault [] = none
first_fault (p ∷ ps) = first_of (fault p.1) (first_fault ps)

-- What is returned; where a partition is unsealed, Windows' boot entry is to be deleted, which asks
-- for efibootmgr.
pub told : Killer → Bool → Result Report
told k unsealed =
    if unsealed
    then (if k.should_kill_windows_boot_manager && not k.has_efibootmgr
        then err die
        else ok (record { passed = false; called_kill_windows = true }))
    else ok (record { passed = true; called_kill_windows = false })

abbrev pub verdict {ℓ} : {A : Type ℓ} → Option Error → Result A → Result A
verdict none r = r
verdict (some e) r = err e

-- The outcome of a check on these partitions.
pub outcome : Killer → List (Text × Opening) → Result Report
outcome k ps = verdict (first_fault ps) (told k (any (λ p. means_blank p.1) ps))

abbrev pub is_empty : List Text → Bool
is_empty [] = true
is_empty (x ∷ xs) = false

-- Whether a list of names is empty, for a list that may not have been made.
abbrev pub shown : Result (List Text) → Result Bool
shown (ok blank) = ok (not (is_empty blank))
shown (err e) = err e

pub has_blank_password_lem :
    (o : Opening) → has_blank_password o ≡ verdict (fault o) (ok (means_blank o))
unfolding has_blank_password fault means_blank
has_blank_password_lem o = elim (Bool-cases (o.open_code == 0)) [
  | inl opened ↦ elim (Bool-cases (o.close_code == 0)) [
    | inl closed ↦ rw (opened, closed) refl
    | inr fails ↦ rw (opened, fails) refl
  ]
  | inr shut ↦ elim (Bool-cases (o.open_code == 5)) [
    | inl in_use ↦ rw (shut, in_use) refl
    | inr idle ↦ elim (Bool-cases (o.open_code == 2)) [
      | inl none_ ↦ rw (shut, idle, none_) refl
      | inr other ↦ rw (shut, idle, other) refl
    ]
  ]
]

abbrev pub add_name : Text → Result Bool → Result (List Text) → Result (List Text)
add_name x m ms = m >>= λ blank. ms >>= λ rest. ok (if blank then x ∷ rest else rest)

pub shown-add_name :
    (x : Text) (bad more : Option Error) (blank unsealed : Bool) (ms : Result (List Text))
    → shown ms ≡ verdict more (ok unsealed)
    → shown (add_name x (verdict bad (ok blank)) ms)
      ≡ verdict (first_of bad more) (ok (blank || unsealed))
shown-add_name x (some e) more blank unsealed ms h = refl
shown-add_name x none none true unsealed (ok rest) h = refl
shown-add_name x none (some e) true unsealed (ok rest) h = absurd (ground (arith, h))
shown-add_name x none more false unsealed (ok rest) h = h
shown-add_name x none none blank unsealed (err e) h = absurd (ground (arith, h))
shown-add_name x none (some d) blank unsealed (err e) h = h

pub shown-with_blank_password :
    (ps : List (Text × Opening))
    → shown (with_blank_password ps) ≡ verdict (first_fault ps) (ok (any (λ p. means_blank p.1) ps))
unfolding with_blank_password first_fault
shown-with_blank_password [] = refl
shown-with_blank_password (p ∷ ps) =
    ap (λ m. shown (add_name p.0 m (with_blank_password ps))) (has_blank_password_lem p.1)
    ∙ shown-add_name p.0 (fault p.1) (first_fault ps) (means_blank p.1)
        (any (λ q. means_blank q.1) ps) (with_blank_password ps) (shown-with_blank_password ps)

pub told-report : (k : Killer) (blank : List Text) → report k blank ≡ told k (not (is_empty blank))
unfolding report told
told-report k [] = refl
told-report k (x ∷ xs) =
    elim (Bool-cases (k.should_kill_windows_boot_manager && not k.has_efibootmgr)) [
      | inl dies ↦ rw dies refl
      | inr lives ↦ rw lives refl
    ]

abbrev pub error_of {ℓ} : {A : Type ℓ} → Result A → Option Error
error_of (ok a) = none
error_of (err e) = some e

-- The report on the names, whatever stands between.
pub shown-report :
    (k : Killer) (ms : Result (List Text)) (bad : Option Error) (unsealed : Bool)
    → shown ms ≡ verdict bad (ok unsealed)
    → (ms >>= report k) ≡ verdict bad (told k unsealed)
shown-report k (ok xs) none unsealed h = told-report k xs ∙ ap (told k) (ok-injective _ _ h)
shown-report k (ok xs) (some e) unsealed h = absurd (ground (arith, h))
shown-report k (err e) none unsealed h = absurd (ground (arith, h))
shown-report k (err e) (some d) unsealed h = ap (λ o. verdict o (told k unsealed)) (ap error_of h)

pub report-outcome :
    (k : Killer) (ps : List (Text × Opening)) → (with_blank_password ps >>= report k) ≡ outcome k ps
unfolding outcome
report-outcome k ps = shown-report k (with_blank_password ps) _ _ (shown-with_blank_password ps)
