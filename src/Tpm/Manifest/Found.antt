-- ===== src/Tpm/Manifest/Found.antt =====
-- The dicts of the ESP manifests: what is found in them, and when two of them are equal.
use os_lockdown.Base.{
  ◌≡◌, refl, sym, ap, ◌∙◌, true, false, Option, none, some, List, [], ◌∷◌, ◌++◌, arith, Text,
  text_eq, text_eq_iff, none-ne-some, All, Bool-cases, inl, inr, subst, if◌then◌else◌,
}
use os_lockdown.Tpm.Manifest.{Dict, find, put, puts, Manifest, value_eq, all_in, manifest_eq}

text_eq_refl : (t : Text) → text_eq t t ≡ true
text_eq_refl t = (text_eq_iff t t).1 refl

text_eq_sym : (s t : Text) → text_eq s t ≡ false → text_eq t s ≡ false
text_eq_sym s t h = ground (arith, text_eq_iff s t, text_eq_iff t s)

module _ {ℓ} {V : Type ℓ} where
  -- No key of the list comes twice.
  abbrev pub IsDict : List (Text × V) → Type ℓ
  IsDict [] = Unit
  IsDict (x ∷ xs) = (find x.0 xs ≡ none) × IsDict xs

  pub find-put : (k : Text) (v : V) (d : Dict V) → find k (put k v d) ≡ some v
  unfolding find put
  find-put k v [] = rw (text_eq_refl k) refl
  find-put k v (x ∷ xs) = elim (Bool-cases (text_eq k x.0)) [
    | inl e ↦ rw (e, text_eq_refl k) refl
    | inr e ↦ rw (e, e) (find-put k v xs)
  ]

  pub find-puts :
      (k : Text) (v : V) (d : Dict V) (es : List (Text × V))
      → find k (puts d (es ++ (k, v) ∷ [])) ≡ some v
  unfolding puts
  find-puts k v d [] = find-put k v d
  find-puts k v d (e ∷ es) = find-puts k v (put e.0 e.1 d) es

  put-All {κ} :
      (P : Text × V → Type κ) (k : Text) (v : V) (d : Dict V)
      → P (k, v)
      → All P d
      → All P (put k v d)
  unfolding put
  put-All P k v [] p h = (p, tt)
  put-All P k v (x ∷ xs) p h = elim (Bool-cases (text_eq k x.0)) [
    | inl e ↦ rw e (p, h.1)
    | inr e ↦ rw e (h.0, put-All P k v xs p h.1)
  ]

  pub puts-All {κ} :
      (P : Text × V → Type κ) (d : Dict V) (es : List (Text × V))
      → All P d
      → All P es
      → All P (puts d es)
  unfolding puts
  puts-All P d [] h hs = h
  puts-All P d (e ∷ es) h hs = puts-All P (put e.0 e.1 d) es (put-All P e.0 e.1 d hs.0 h) hs.1

  find-other :
      (j k : Text) (v : V) (d : Dict V)
      → text_eq j k ≡ false
      → find j d ≡ none
      → find j (put k v d) ≡ none
  unfolding find put
  find-other j k v [] other h = rw other refl
  find-other j k v (x ∷ xs) other h = elim (Bool-cases (text_eq j x.0)) [
    | inl same ↦ absurd (none-ne-some _ (sym h ∙ ap (λ b. if b then some x.1 else find j xs) same))
    | inr differs ↦
        let rest : find j xs ≡ none =
          sym (ap (λ b. if b then some x.1 else find j xs) differs) ∙ h in
        elim (Bool-cases (text_eq k x.0)) [
          | inl e ↦ rw (e, other) rest
          | inr e ↦ rw (e, differs) (find-other j k v xs other rest)
        ]
  ]

  put-IsDict : (k : Text) (v : V) (d : Dict V) → IsDict d → IsDict (put k v d)
  unfolding put find
  put-IsDict k v [] h = (refl, tt)
  put-IsDict k v (x ∷ xs) h = elim (Bool-cases (text_eq k x.0)) [
    | inl e ↦ rw e (subst (λ t. find t xs ≡ none) (sym ((text_eq_iff k x.0).0 e)) h.0, h.1)
    | inr e ↦ rw e (find-other x.0 k v xs (text_eq_sym k x.0 e) h.0, put-IsDict k v xs h.1)
  ]

  pub puts-IsDict : (d : Dict V) (es : List (Text × V)) → IsDict d → IsDict (puts d es)
  unfolding puts
  puts-IsDict d [] h = h
  puts-IsDict d (e ∷ es) h = puts-IsDict (put e.0 e.1 d) es (put-IsDict e.0 e.1 d h)

  -- An entry that is found under its key.
  abbrev pub IsFound : Dict V → Text × V → Type ℓ
  IsFound d e = find e.0 d ≡ some e.1

  IsFound-behind :
      (x : Text × V) (xs es : List (Text × V))
      → find x.0 xs ≡ none
      → All (IsFound xs) es
      → All (IsFound (x ∷ xs)) es
  unfolding find
  IsFound-behind x xs [] h hs = tt
  IsFound-behind x xs (e ∷ es) h hs = (
    elim (Bool-cases (text_eq e.0 x.0)) [
      | inl same ↦
          absurd (
            none-ne-some _
              (sym h ∙ ap (λ t. find t xs) (sym ((text_eq_iff e.0 x.0).0 same)) ∙ hs.0))
      | inr differs ↦ rw differs hs.0
    ],
    IsFound-behind x xs es h hs.1,
  )

  pub IsFound-all : (d : Dict V) → IsDict d → All (IsFound d) d
  unfolding find
  IsFound-all [] h = tt
  IsFound-all (x ∷ xs) h =
      (rw (text_eq_refl x.0) refl, IsFound-behind x xs xs h.0 (IsFound-all xs h.1))

value_eq_refl : (v : Option Text) → value_eq v v ≡ true
unfolding value_eq
value_eq_refl none = refl
value_eq_refl (some t) = text_eq_refl t

all_in-found :
    (es : List (Text × Option Text)) (b : Manifest) → All (IsFound b) es → all_in es b ≡ true
unfolding all_in
all_in-found [] b h = refl
all_in-found (e ∷ es) b h = rw (h.0, value_eq_refl e.1) (all_in-found es b h.1)

pub manifest_eq_refl : (m : Manifest) → IsDict m → manifest_eq m m ≡ true
unfolding manifest_eq
manifest_eq_refl m h = rw (all_in-found m m (IsFound-all m h)) (ground arith)
