-- ===== src/Tpm/Effects/Runs.antt =====
-- Runs of auto_tpm_encrypt.py that keep their log in order, put together from parts that do.
use os_lockdown.Base.{
  ℕ, ==_iff, ◌≡◌, refl, sym, subst, Bool, true, false, ◌||◌, ◌∷◌, Text, ◌==◌, if◌then◌else◌, inl,
}
use os_lockdown.Tpm.Result.{Result, ok, err, Error, die, called_process_error}
use os_lockdown.Tpm.Validate.{find_partition}
use os_lockdown.Tpm.Power.{die_if_not_on_ac_power}
use os_lockdown.Tpm.Effects.{
  Command, Log, Run, return_, raise_, lift_, look_at, continue_, ◌>>=◌, ◌>>◌, at_last, finally_,
  World, issue, run, run_or_die, check_power, fstype_of, found_fstype,
}
use os_lockdown.Tpm.Effects.Order.{
  IsStable, Has, IsNext, IsReady, IsOrdered, is_harmless, Ends, harmless-IsReady,
}

pub record Leads {ℓ} {A : Type ℓ} (P : Log → Type 0) (m : Run A) (Q : A → Log → Type 0)
    : Type ℓ where
  pub ends : (log : Log) → IsOrdered log → P log → Ends Q (m log)

continued {ℓ κ} :
    {A : Type ℓ} {B : Type κ} (Q : A → Log → Type 0) (R : B → Log → Type 0) (next : A → Run B)
    (r : Result A × Log)
    → ((a : A) → Leads (Q a) (next a) R)
    → Ends Q r
    → Ends R (continue_ next r)
continued Q R next (ok a, after) second h = (second a).ends after h.0 h.1
continued Q R next (err e, after) second h = h

pub Leads->>= {ℓ κ} :
    {A : Type ℓ} {B : Type κ} (P : Log → Type 0) (Q : A → Log → Type 0) (R : B → Log → Type 0)
    (m : Run A) (next : A → Run B)
    → Leads P m Q
    → ((a : A) → Leads (Q a) (next a) R)
    → Leads P (m >>= next) R
unfolding ◌>>=◌
Leads->>= P Q R m next first second = record {
  ends = λ log ordered p. continued Q R next (m log) second (first.ends log ordered p);
}

mapped {ℓ} :
    {A : Type ℓ} (Q R : A → Log → Type 0) (r : Result A × Log)
    → ((a : A) (log : Log) → Q a log → R a log)
    → Ends Q r
    → Ends R r
mapped Q R (ok a, after) f h = (h.0, f a after h.1)
mapped Q R (err e, after) f h = h

pub Leads-map {ℓ} :
    {A : Type ℓ} (P : Log → Type 0) (Q R : A → Log → Type 0) (m : Run A)
    → Leads P m Q
    → ((a : A) (log : Log) → Q a log → R a log)
    → Leads P m R
Leads-map P Q R m h f = record {
  ends = λ log ordered p. mapped Q R (m log) f (h.ends log ordered p);
}

pub Leads-if {ℓ} :
    {A : Type ℓ} (P : Log → Type 0) (Q : A → Log → Type 0) (b : Bool) (m n : Run A)
    → ((b ≡ true) → Leads P m Q)
    → ((b ≡ false) → Leads P n Q)
    → Leads P (if b then m else n) Q
Leads-if P Q true m n h k = h refl
Leads-if P Q false m n h k = k refl

pub Leads-raise_ {ℓ} :
    (A : Type ℓ) (P : Log → Type 0) (Q : A → Log → Type 0) (e : Error) → Leads P (raise_ e) Q
unfolding raise_
Leads-raise_ A P Q e = record { ends = λ log ordered p. ordered }

pub Leads-return_ {ℓ} :
    {A : Type ℓ} (P : Log → Type 0) (Q : A → Log → Type 0) (a : A)
    → ((log : Log) → P log → Q a log)
    → Leads P (return_ a) Q
unfolding return_
Leads-return_ P Q a f = record { ends = λ log ordered p. (ordered, f log p) }

module _ (P : Log → Type 0) where
  -- The same holds behind a run, whatever its value.
  abbrev pub Keeps {ℓ} : {A : Type ℓ} → Run A → Type ℓ
  Keeps m = Leads P m (λ a. P)

  pub Keeps->>= {ℓ κ} :
      {A : Type ℓ} {B : Type κ} (m : Run A) (next : A → Run B)
      → Keeps m
      → ((a : A) → Keeps (next a))
      → Keeps (m >>= next)
  Keeps->>= m next first second = Leads->>= P (λ a. P) (λ b. P) m next first second

  pub Keeps-return_ {ℓ} : {A : Type ℓ} (a : A) → Keeps (return_ a)
  unfolding return_
  Keeps-return_ a = record { ends = λ log ordered p. (ordered, p) }

  pub Keeps-raise_ {ℓ} : (A : Type ℓ) (e : Error) → Keeps {A = A} (raise_ e)
  unfolding raise_
  Keeps-raise_ A e = record { ends = λ log ordered p. ordered }

  pub Keeps-look_at {ℓ} : {A : Type ℓ} (find : Log → A) → Keeps (look_at find)
  unfolding look_at
  Keeps-look_at find = record { ends = λ log ordered p. (ordered, p) }

  lifted {ℓ} :
      {A : Type ℓ} (r : Result A) (log : Log) → IsOrdered log → P log → Ends (λ a. P) (r, log)
  lifted (ok a) log ordered p = (ordered, p)
  lifted (err e) log ordered p = ordered

  pub Keeps-lift_ {ℓ} : {A : Type ℓ} (r : Result A) → Keeps (lift_ r)
  unfolding lift_
  Keeps-lift_ r = record { ends = lifted r }

  pub Keeps-if {ℓ} :
      {A : Type ℓ} (b : Bool) (m n : Run A) → Keeps m → Keeps n → Keeps (if b then m else n)
  Keeps-if true m n h k = h
  Keeps-if false m n h k = k

  -- One run after the other.
  pub Keeps->> : (m n : Run (Unit {0})) → Keeps m → Keeps n → Keeps (m >> n)
  Keeps->> m n h k = Keeps->>= m (λ done. n) h (λ done. k)

  pub Keeps-check_power : (w : World) → Keeps (check_power w)
  unfolding check_power
  Keeps-check_power w = Keeps->>= _ _ (Keeps-look_at w.supplies) (λ supplies.
      Keeps-lift_
        (die_if_not_on_ac_power w.ignore_missing_ac_state w.ignore_if_on_battery supplies))

  pub Keeps-fstype_of : (w : World) (q : Text) → Keeps (fstype_of w q)
  unfolding fstype_of
  Keeps-fstype_of w q =
      Keeps->>= _ _ (Keeps-look_at w.partitions)
        (λ ps. Keeps-lift_ (found_fstype (find_partition q ps)))

-- A command is run; `Q` holds of its exit code and the log behind it.
module _ (P : Log → Type 0) (w : World) (c : Command) where
  pub Leads-issue :
      (Q : ℕ → Log → Type 0)
      → ((log : Log) → P log → IsReady c log)
      → ((n : ℕ) (log : Log) → P log → Q n (record { command = c; status = n } ∷ log))
      → Leads P (issue w c) Q
  unfolding issue
  Leads-issue Q ready then_ = record {
    ends = λ log ordered p. ((ready log p, ordered), then_ (w.status log c) log p);
  }

  -- It goes on only where the command succeeded.
  pub Leads-run :
      (Q : Log → Type 0)
      → ((log : Log) → P log → IsReady c log)
      → ((log : Log) → P log → Q (record { command = c; status = 0 } ∷ log))
      → Leads P (run w c) (λ a. Q)
  unfolding run
  Leads-run Q ready then_ =
      Leads->>= P (λ n log. n ≡ 0 → Q log) (λ a. Q) (issue w c) _
        (Leads-issue (λ n log. n ≡ 0 → Q log) ready
          (λ n log p e.
            subst (λ m. Q (record { command = c; status = m } ∷ log)) (sym e) (then_ log p)))
        (λ n.
          Leads-if (λ log. n ≡ 0 → Q log) (λ a. Q) (n == 0) _ _
            (λ zero_. Leads-return_ _ _ tt (λ log h. h ((==_iff n 0).0 zero_)))
            (λ other. Leads-raise_ (Unit {0}) _ _ called_process_error))

  pub Leads-run_or_die :
      (Q : Log → Type 0)
      → ((log : Log) → P log → IsReady c log)
      → ((n : ℕ) (log : Log) → P log → Q (record { command = c; status = n } ∷ log))
      → Leads P (run_or_die w c) (λ a. Q)
  unfolding run_or_die
  Leads-run_or_die Q ready then_ =
      Leads->>= P (λ n. Q) (λ a. Q) (issue w c) _ (Leads-issue (λ n. Q) ready then_)
        λ n. Keeps-if Q (n == 0 || n == 1) _ _ (Keeps-return_ Q tt) (Keeps-raise_ Q (Unit {0}) die)

-- Harmless commands keep what is stable.
module _ (P : Log → Type 0) (stable : IsStable P) (w : World) (c : Command)
    (h : is_harmless c ≡ true) where
  kept : (n : ℕ) (log : Log) → P log → P (record { command = c; status = n } ∷ log)
  kept n log p = stable.keeps (record { command = c; status = n }) log h p

  pub Keeps-run : Keeps P (run w c)
  Keeps-run = Leads-run P w c P (λ log p. harmless-IsReady c log h) (kept 0)

  pub Keeps-issue : Keeps P (issue w c)
  Keeps-issue = Leads-issue P w c (λ n. P) (λ log p. harmless-IsReady c log h) kept

  pub Keeps-run_or_die : Keeps P (run_or_die w c)
  Keeps-run_or_die = Leads-run_or_die P w c P (λ log p. harmless-IsReady c log h) kept

  -- The command succeeded then.
  pub Leads-run-Has : Leads P (run w c) (λ a log. P log × Has c log)
  Leads-run-Has =
      Leads-run P w c (λ log. P log × Has c log) (λ log p. harmless-IsReady c log h)
        (λ log p. (kept 0 log p, inl (refl, refl)))

  pub Leads-run-IsNext : Leads P (run w c) (λ a log. P log × IsNext c log)
  Leads-run-IsNext =
      Leads-run P w c (λ log. P log × IsNext c log) (λ log p. harmless-IsReady c log h)
        (λ log p. (kept 0 log p, (refl, refl)))

raise_ends :
    (Q P : Unit {0} → Log → Type 0) (e : Error) (r : Result (Unit {0}) × Log)
    → Ends {A = Unit {0}} Q r
    → Ends {A = Unit {0}} P (continue_ (λ done l. (err e, l)) r)
raise_ends Q P e (ok done, log) h = h.0
raise_ends Q P e (err d, log) h = h

last_ends :
    (P : Log → Type 0) (last : Run (Unit {0})) (r : Result (Unit {0}) × Log)
    → Keeps P last
    → Keeps (λ log. Unit {0}) last
    → Ends {A = Unit {0}} (λ a. P) r
    → Ends {A = Unit {0}} (λ a. P) (at_last last r)
last_ends P last (ok done, log) keeps anyway h = keeps.ends log h.0 h.1
last_ends P last (err e, log) keeps anyway h =
    raise_ends (λ a l. Unit {0}) (λ a. P) e (last log) (anyway.ends log h tt)

-- What is done at last is done after an exception, too.
pub Keeps-finally_ :
    (P : Log → Type 0) (body last : Run (Unit {0}))
    → Keeps P body
    → Keeps P last
    → Keeps (λ log. Unit {0}) last
    → Keeps P (finally_ body last)
unfolding finally_
Keeps-finally_ P body last first second anyway = record {
  ends = λ log ordered p. last_ends P last (body log) second anyway (first.ends log ordered p);
}
