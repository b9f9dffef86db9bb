-- ===== src/Base/Outcome.antt =====
-- What a part of a program that may raise comes to: a value, or an exception out of `E`.
use os_lockdown.Base.{◌≡◌, refl, sym, ap, subst, Bool, true, false, Option, none, some, arith}

pub data Outcome {ℓ} (E : Type 0) (A : Type ℓ) : Type ℓ where
  ok : A → Outcome E A
  err : E → Outcome E A

module _ {E : Type 0} where
  infixl 5 ◌>>=◌ ◌>>◌
  abbrev pub ◌>>=◌ {ℓ κ} : {A : Type ℓ} {B : Type κ} → Outcome E A → (A → Outcome E B) → Outcome E B
  ok a >>= next = next a
  err raised >>= next = err raised

  abbrev pub ◌>>◌ {ℓ} : {B : Type ℓ} → Outcome E (Unit {0}) → Outcome E B → Outcome E B
  before >> after = before >>= λ done. after

  -- The value of a look-up, or an exception where there is none.
  abbrev pub or_raise {ℓ} : {A : Type ℓ} → E → Option A → Outcome E A
  or_raise raised none = err raised
  or_raise raised (some a) = ok a

  abbrev pub raise_if : E → Bool → Outcome E (Unit {0})
  raise_if raised true = err raised
  raise_if raised false = ok tt

  -- Inversion of a run that gave a value.
  pub >>=-ok {ℓ κ} :
      {A : Type ℓ} {B : Type κ} (m : Outcome E A) (next : A → Outcome E B) (b : B)
      → (m >>= next) ≡ ok b
      → (a : A) × (m ≡ ok a) × (next a ≡ ok b)
  >>=-ok (ok a) next b runs = (a, refl, runs)
  >>=-ok (err raised) next b runs = absurd (ground (arith, runs))

  pub >>-ok {ℓ} :
      {B : Type ℓ} (before : Outcome E (Unit {0})) (after : Outcome E B) (b : B)
      → (before >> after) ≡ ok b
      → (before ≡ ok tt) × (after ≡ ok b)
  >>-ok (ok tt) after b runs = (refl, runs)
  >>-ok (err raised) after b runs = absurd (ground (arith, runs))

  pub raise_if-ok {ℓ} :
      {B : Type ℓ} (raised : E) (test : Bool) (after : Outcome E B) (b : B)
      → (raise_if raised test >> after) ≡ ok b
      → (test ≡ false) × (after ≡ ok b)
  raise_if-ok raised true after b runs = absurd (ground (arith, runs))
  raise_if-ok raised false after b runs = (refl, runs)

  abbrev pub returns {ℓ} : {A : Type ℓ} → A → Outcome E A
  returns a = ok a

  abbrev value_or {ℓ} : {A : Type ℓ} → A → Outcome E A → A
  value_or a (ok b) = b
  value_or a (err raised) = a

  pub ok-injective {ℓ} : {A : Type ℓ} (a b : A) → returns a ≡ returns b → a ≡ b
  ok-injective a b = ap (value_or a)

  -- An outcome whose value has `P`, and whose exceptions are among those that `Q` allows.
  abbrev pub Holds {ℓ} : {A : Type ℓ} → (E → Type 0) → (A → Type 0) → Outcome E A → Type 0
  Holds Q P (ok a) = P a
  Holds Q P (err raised) = Q raised

  pub Holds->>= {ℓ κ} :
      {A : Type ℓ} {B : Type κ} (Q : E → Type 0) (P : A → Type 0) (R : B → Type 0) (m : Outcome E A)
      (next : A → Outcome E B)
      → Holds Q P m
      → ((a : A) → P a → Holds Q R (next a))
      → Holds Q R (m >>= next)
  Holds->>= Q P R (ok a) next h then_ = then_ a h
  Holds->>= Q P R (err raised) next h then_ = h

  pub Holds-map {ℓ} :
      {A : Type ℓ} (Q : E → Type 0) (P R : A → Type 0) (m : Outcome E A)
      → Holds Q P m
      → ((a : A) → P a → R a)
      → Holds Q R m
  Holds-map Q P R (ok a) h f = f a h
  Holds-map Q P R (err raised) h f = h

  -- A look-up that finds something raises nothing.
  pub Holds-or_raise {ℓ κ} :
      {A : Type ℓ} {B : Type κ} (Q : E → Type 0) (R : B → Type 0) (raised : E) (o : Option A)
      (a : A) (next : A → Outcome E B)
      → o ≡ some a
      → Holds Q R (next a)
      → Holds Q R (or_raise raised o >>= next)
  Holds-or_raise Q R raised o a next found h =
      subst (λ p. Holds Q R (or_raise raised p >>= next)) (sym found) h
