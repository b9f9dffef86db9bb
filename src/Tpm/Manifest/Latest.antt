-- ===== src/Tpm/Manifest/Latest.antt =====
-- `get_last_esp_manifest` where the keys are times.
use os_lockdown.Base.{
  ◌≡◌, refl, sym, ap, ◌∙◌, ◌⊎◌, inl, inr, Bool, true, false, Option, none, some, some-injective,
  List, [], ◌∷◌, Text, All, Bool-cases, arith, if◌then◌else◌, option_map, subst, text_eq,
  text_eq_iff, none-ne-some,
}
use os_lockdown.Tpm.Result.{ok, ◌>>=◌}
use os_lockdown.Tpm.Manifest.{
  Dict, find, Manifest, Floats, dump, times, latest, at_latest, get_last_esp_manifest,
}

-- What Python documents of floats: `float` reads what `str` gives, and the order is total but for nan.
pub record IsFloats {T : Type 0} (floats : Floats T) : Type 0 where
  pub parse-print : (t : T) → floats.parse (floats.print t) ≡ some t
  pub total : (t u : T) → floats.leb t u ≡ false → floats.leb u t ≡ true

not_both : (b : Bool) → b ≡ true → b ≡ false → ⊥
not_both b holds fails = ground arith

pub find-dump : (k : Text) (d : Dict Manifest) → find k (dump d) ≡ option_map some (find k d)
unfolding find
find-dump k [] = refl
find-dump k (x ∷ xs) = elim (Bool-cases (text_eq k x.0)) [
  | inl e ↦ rw e refl
  | inr e ↦ rw e (find-dump k xs)
]

module _ {T : Type 0} (floats : Floats T) (are : IsFloats floats) where
  -- `u` is `t`, or before it.
  unfoldable pub IsTop : T → T → Type 0
  IsTop t u = (u ≡ t) ⊎ (floats.leb t u ≡ false)

  IsAmong : T → List T → Type 0
  IsAmong t [] = ⊥
  IsAmong t (u ∷ us) = (u ≡ t) ⊎ IsAmong t us

  latest-All {κ} : (Q : T → Type κ) (a : T) (us : List T) → Q a → All Q us → Q (latest floats a us)
  unfolding latest
  latest-All Q a [] h hs = h
  latest-All Q a (b ∷ bs) h hs = elim (Bool-cases (floats.leb b a)) [
    | inl e ↦ rw e (latest-All Q a bs h hs.1)
    | inr e ↦ rw e (latest-All Q b bs hs.0 hs.1)
  ]

  latest-top :
      (t a : T) (us : List T)
      → IsTop t a
      → All (IsTop t) us
      → (a ≡ t) ⊎ IsAmong t us
      → latest floats a us ≡ t
  unfolding latest IsTop IsAmong
  latest-top t a [] h hs (inl e) = e
  latest-top t a [] h hs (inr x) = elim x [ ]
  latest-top t a (b ∷ bs) h hs among = elim (Bool-cases (floats.leb b a)) [
    | inl le ↦ rw le (
        latest-top t a bs h hs.1 (elim among [
          | inl e ↦ inl e
          | inr (inl e) ↦ inl (elim h [
            | inl same ↦ same
            | inr below ↦ absurd (not_both _ le (ap (λ u. floats.leb u a) e ∙ below))
          ])
          | inr (inr rest) ↦ inr rest
        ]))
    | inr gt ↦ rw gt (
        latest-top t b bs hs.0 hs.1 (elim among [
          | inl e ↦ inl (elim hs.0 [
            | inl same ↦ same
            | inr below ↦ absurd (not_both _ (are.total t b below) (ap (floats.leb b) (sym e) ∙ gt))
          ])
          | inr (inl e) ↦ inl e
          | inr (inr rest) ↦ inr rest
        ]))
  ]

  -- The times that the keys of `d` are read as.
  record Read (R : T → Type 0) (t : T) (d : Dict Manifest) : Type 0 where
    times_of : List T
    reads : times floats d ≡ ok times_of
    all : All R times_of
    among : (v : Manifest) → find (floats.print t) d ≡ some v → IsAmong t times_of

  -- A key that is a time of which `R` holds.
  pub record IsStamp (R : T → Type 0) (k : Text) : Type 0 where
    pub stamp : T
    pub is_printed : k ≡ floats.print stamp
    pub holds : R stamp

  read : (R : T → Type 0) (t : T) (d : Dict Manifest) → All (λ e. IsStamp R e.0) d → Read R t d
  unfolding times find IsAmong
  read R t [] h = record {
    times_of = [];
    reads = refl;
    all = tt;
    among = λ v e. absurd (none-ne-some v e);
  }
  read R t (e ∷ es) h =
      let r = read R t es h.1 in
      record {
        times_of = h.0.stamp ∷ r.times_of;
        reads = rw (h.0.is_printed, are.parse-print h.0.stamp, r.reads) refl;
        all = (h.0.holds, r.all);
        among = λ v found. elim (Bool-cases (text_eq (floats.print t) e.0)) [
          | inl same ↦ inl (
              some-injective _ _ (
                sym (are.parse-print h.0.stamp)
                ∙ ap floats.parse (sym h.0.is_printed)
                ∙ ap floats.parse (sym ((text_eq_iff _ _).0 same))
                ∙ are.parse-print t))
          | inr other ↦ inr (
              r.among v
                (sym (ap (λ b. if b then some e.1 else find (floats.print t) es) other) ∙ found))
        ];
      }

  -- Some member of `d` has the key `k`.
  HasKey : Dict Manifest → Text → Type 0
  HasKey d k = (m : Manifest) × (find k d ≡ some m)

  HasKey-behind :
      (x : Text × Manifest) (xs es : Dict Manifest)
      → All (λ e. HasKey xs e.0) es
      → All (λ e. HasKey (x ∷ xs) e.0) es
  unfolding HasKey find
  HasKey-behind x xs [] h = tt
  HasKey-behind x xs (e ∷ es) h = (
    elim (Bool-cases (text_eq e.0 x.0)) [
      | inl same ↦ (x.1, rw same refl)
      | inr differs ↦ (h.0.0, rw differs h.0.1)
    ],
    HasKey-behind x xs es h.1,
  )

  HasKey-all : (d : Dict Manifest) → All (λ e. HasKey d e.0) d
  unfolding HasKey find
  HasKey-all [] = tt
  HasKey-all (x ∷ xs) =
      ((x.1, rw ((text_eq_iff x.0 x.0).1 refl) refl), HasKey-behind x xs xs (HasKey-all xs))

  -- What is read of the last manifest, where the keys are times.
  at_latest-ends :
      (d : Dict Manifest) (us : List T)
      → All (λ u. HasKey d (floats.print u)) us
      → (o : Option Manifest) × (at_latest floats d us ≡ ok o)
  unfolding at_latest HasKey
  at_latest-ends d [] h = (none, refl)
  at_latest-ends d (u ∷ us) h =
      let found = latest-All (λ a. HasKey d (floats.print a)) u us h.0 h.1 in
      (some found.0, rw found.1 refl)

  at_latest-top :
      (t : T) (m : Manifest) (d : Dict Manifest) (us : List T)
      → All (IsTop t) us
      → IsAmong t us
      → find (floats.print t) d ≡ some m
      → at_latest floats d us ≡ ok (some m)
  unfolding at_latest IsAmong
  at_latest-top t m d [] h among found = elim among [ ]
  at_latest-top t m d (u ∷ us) h among found = rw (latest-top t u us h.0 h.1 among, found) refl

  stamps_with_keys :
      (R : T → Type 0) (d es : Dict Manifest)
      → All (λ e. IsStamp R e.0) es
      → All (λ e. HasKey d e.0) es
      → All (λ e. IsStamp (λ u. HasKey d (floats.print u)) e.0) es
  stamps_with_keys R d [] h hs = tt
  stamps_with_keys R d (e ∷ es) h hs = (
    record {
      stamp = h.0.stamp;
      is_printed = h.0.is_printed;
      holds = subst (HasKey d) h.0.is_printed hs.0;
    },
    stamps_with_keys R d es h.1 hs.1,
  )

  pub get_last-ends :
      (R : T → Type 0) (t : T) (d : Dict Manifest)
      → All (λ e. IsStamp R e.0) d
      → (o : Option Manifest) × (get_last_esp_manifest floats d ≡ ok o)
  unfolding get_last_esp_manifest
  get_last-ends R t d h =
      let r = read _ t d (stamps_with_keys R d d h (HasKey-all d)) in
      let end = at_latest-ends d r.times_of r.all in
      (end.0, ap (λ ts. ts >>= at_latest floats d) r.reads ∙ end.1)

  pub get_last-top :
      (t : T) (m : Manifest) (d : Dict Manifest)
      → All (λ e. IsStamp (IsTop t) e.0) d
      → find (floats.print t) d ≡ some m
      → get_last_esp_manifest floats d ≡ ok (some m)
  unfolding get_last_esp_manifest
  get_last-top t m d h found =
      let r = read _ t d h in
      ap (λ ts. ts >>= at_latest floats d) r.reads
      ∙ at_latest-top t m d r.times_of r.all (r.among m found) found
