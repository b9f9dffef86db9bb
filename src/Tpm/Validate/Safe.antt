-- ===== src/Tpm/Validate/Safe.antt =====
-- What holds of a job that `encrypt_or_decrypt` starts.
use os_lockdown.Base.{
  ◌≡◌, ◌≢◌, refl, sym, ap, ◌∙◌, Bool, true, false, ◌&&◌, not, Option, none, some, arith, Text, ◌⊎◌,
  text_eq, text_eq_iff, if◌then◌else◌, Bool-cases, inl, inr,
}
use os_lockdown.Tpm.Result.{
  Result, ok, die_if, raise_if-ok, returned, >>-ok, >>=-ok, ok-injective, ◌>>◌, ◌>>=◌, or_raise,
  os_error,
}
use os_lockdown.Base.Sort.{is_in}
use os_lockdown.Tpm.Validate.{
  Partition, Machine, Job, find_partition, is_left_blank, is_encrypted, is_unencrypted,
  check_partition, check_with_root, check_esp, choose_job, encrypt_or_decrypt,
}
use os_lockdown.Tpm.Validate.Usable.{IsUsable, checked, fits, usable, fstype_of-some}

two_checks : Option Text → Option Text → Result (Unit {0})
two_checks root fstype =
    die_if (is_encrypted root && not (is_encrypted fstype))
    >> die_if (is_unencrypted root && not (is_unencrypted fstype))

check_with_root-some :
    (m : Machine) (root : Option Text) (path : Text) (p : Partition)
    → is_left_blank path ≡ false
    → find_partition path m.partitions ≡ some p
    → check_with_root m root path ≡ two_checks root p.fstype
unfolding check_with_root two_checks
check_with_root-some m root path p given found = rw (given, fstype_of-some m path p found) refl

die_if-tt : (b : Bool) → die_if b ≡ ok tt → b ≡ false
die_if-tt true h = absurd (ground (arith, h))
die_if-tt false h = refl

same_kind :
    (encrypts re pe ru pu : Bool)
    → re && not pe ≡ false
    → ru && not pu ≡ false
    → (if encrypts then ru else re) ≡ true
    → (if encrypts then pu else pe) ≡ true
same_kind true re pe ru pu a b h = ground (arith, b, h)
same_kind false re pe ru pu a b h = ground (arith, a, h)

-- A further partition has the same kind of file system as root.
like_root :
    (m : Machine) (encrypts : Bool) (root : Option Text) (path : Text) (p : Partition)
    → is_left_blank path ≡ false
    → find_partition path m.partitions ≡ some p
    → check_with_root m root path ≡ ok tt
    → fits encrypts root ≡ true
    → fits encrypts p.fstype ≡ true
unfolding two_checks
like_root m encrypts root path p given found h fit =
    let opened = sym (check_with_root-some m root path p given found) ∙ h in
    let (a, rest) = raise_if-ok _ _ _ _ opened in
    let b = die_if-tt _ rest in
    same_kind encrypts (is_encrypted root) _ (is_unencrypted root) _ a b fit

-- The job of one kind on what was entered.
abbrev pub job_on : Bool → Text → Text → Text → Text → Job
job_on encrypts root home var esp = record {
  encrypts = encrypts;
  root_partition = root;
  home_partition = home;
  var_partition = var;
  esp_partition = esp;
}

-- The job is of the kind that root's file system asks for.
chosen :
    (fstype : Option Text) (root home var esp : Text) (job : Job)
    → choose_job fstype root home var esp ≡ ok job
    → (b : Bool) × (job ≡ job_on b root home var esp) × (fits b fstype ≡ true)
unfolding choose_job
chosen fstype root home var esp job h = elim (Bool-cases (is_encrypted fstype)) [
  | inl luks ↦
      let made : returned (job_on false root home var esp) ≡ ok job = ground (arith, luks, h) in
      (false, sym (ok-injective _ _ made), luks)
  | inr other ↦ elim (Bool-cases (is_unencrypted fstype)) [
    | inl plain ↦
        let made : returned (job_on true root home var esp) ≡ ok job =
          ground (arith, other, plain, h) in
        (true, sym (ok-injective _ _ made), plain)
    | inr neither ↦ absurd (ground (arith, other, neither, h))
  ]
]

-- An ESP of the machine, or a link to one.
abbrev pub IsEsp : Machine → Text → Type 0
IsEsp m esp =
    (is_in esp m.esp_partitions ≡ true)
    ⊎ ((target : Text) × (m.link_target esp ≡ some target) × (is_in target m.esp_partitions ≡ true))

linked_esp :
    (m : Machine) (o : Option Text)
    → (or_raise os_error o >>= λ target. die_if (not (is_in target m.esp_partitions))) ≡ ok tt
    → (target : Text) × (o ≡ some target) × (is_in target m.esp_partitions ≡ true)
linked_esp m none h = absurd (ground (arith, h))
linked_esp m (some t) h =
    let listed = die_if-tt (not (is_in t m.esp_partitions)) h in (t, refl, ground (arith, listed))

check_esp-IsEsp : (m : Machine) (esp : Text) → check_esp m esp ≡ ok tt → IsEsp m esp
unfolding check_esp
check_esp-IsEsp m esp h = elim (Bool-cases (is_in esp m.esp_partitions)) [
  | inl listed ↦ inl listed
  | inr other ↦ inr (
      linked_esp m (m.link_target esp) (
        sym (
          ap
            (λ b.
              if b
              then ok tt
              else (or_raise os_error (m.link_target esp) >>= λ target.
                  die_if (not (is_in target m.esp_partitions))))
            other)
        ∙ h))
]

-- What a job may rely on.
pub record IsSafe (m : Machine) (b : Bool) (root home var esp : Text) : Type 0 where
  pub root_given : is_left_blank root ≡ false
  pub home_apart : home ≢ root
  pub var_apart : var ≢ root
  pub root_usable : IsUsable m b root
  pub home_usable : is_left_blank home ≡ false → IsUsable m b home
  pub var_usable : is_left_blank var ≡ false → IsUsable m b var
  pub esp_valid : IsEsp m esp

differs : (s t : Text) → text_eq s t ≡ false → s ≢ t
differs s t h e = ground (arith, h, (text_eq_iff s t).1 e)

further :
    (m : Machine) (b : Bool) (fstype : Option Text) (path : Text)
    → check_partition m path ≡ ok tt
    → check_with_root m fstype path ≡ ok tt
    → fits b fstype ≡ true
    → is_left_blank path ≡ false
    → IsUsable m b path
further m b fstype path alone with_root fit given =
    let (p, found, h) = checked m path given alone in
    usable m b path p found h (like_root m b fstype path p given found with_root fit)

-- A job that is started is on the partitions that were entered, and they are safe to work on: root
-- is given, home and var are other partitions than root, and root, home and var, as far as they are
-- given, are usable for the job's kind. The ESP is one, or a link to one.
pub encrypt_or_decrypt-IsSafe :
    (m : Machine) (root home var esp : Text) (job : Job)
    → encrypt_or_decrypt m root home var esp ≡ ok job
    → (b : Bool) × (job ≡ job_on b root home var esp) × IsSafe m b root home var esp
unfolding encrypt_or_decrypt
encrypt_or_decrypt-IsSafe m root home var esp job h =
    let (given, h) = raise_if-ok _ _ _ _ h in
    let (home_apart, h) = raise_if-ok _ _ _ _ h in
    let (var_apart, h) = raise_if-ok _ _ _ _ h in
    let (root_alone, h) = >>-ok _ _ _ h in
    let (home_alone, h) = >>-ok _ _ _ h in
    let (var_alone, h) = >>-ok _ _ _ h in
    let (fstype, looked_up, h) = >>=-ok _ _ _ h in
    let (home_with, h) = >>-ok _ _ _ h in
    let (var_with, h) = >>-ok _ _ _ h in
    let (esp_checked, h) = >>-ok _ _ _ h in
    let (b, made, fit) = chosen fstype root home var esp job h in
    let (p, found, loop) = checked m root given root_alone in
    let same = ok-injective _ _ (sym looked_up ∙ fstype_of-some m root p found) in
    (
      b,
      made,
      record {
        root_given = given;
        home_apart = differs home root home_apart;
        var_apart = differs var root var_apart;
        root_usable = usable m b root p found loop (ap (fits b) (sym same) ∙ fit);
        home_usable = further m b fstype home home_alone home_with fit;
        var_usable = further m b fstype var var_alone var_with fit;
        esp_valid = check_esp-IsEsp m esp esp_checked;
      },
    )
