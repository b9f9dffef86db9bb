-- ===== src/Tpm/Manifest/Recorded.antt =====
-- `update_esp_manifest_if_changed`, and `esp_matches_manifest` behind it.
use os_lockdown.Base.{
  ◌≡◌, refl, sym, ap, ◌∙◌, inl, inr, true, false, Option, none, some, some-injective, List, [], ◌∷◌,
  ◌++◌, Text, All, Bool-cases, option_map, subst, All-append, none-ne-some,
}
use os_lockdown.Tpm.Result.{ok, ◌>>=◌, >>=-ok, ok-injective}
use os_lockdown.Tpm.Manifest.{
  Dict, find, puts, Manifest, Folder, with_trailing_sep, walk_entries, capture_current_esp_manifest,
  Stored, members, other_value, not_json, checked, load_esp_manifests, Floats, dump,
  get_last_esp_manifest, is_last, update_esp_manifest_if_changed, esp_matches_manifest,
}
use os_lockdown.Tpm.Manifest.Found.{IsDict, find-puts, puts-All, puts-IsDict, manifest_eq_refl}
use os_lockdown.Tpm.Manifest.Latest.{
  IsFloats, find-dump, IsTop, IsStamp, get_last-ends, get_last-top,
}

-- A member whose value is a manifest.
pub record IsManifest (P : Text → Type 0) (e : Text × Option Manifest) : Type 0 where
  pub manifest : Manifest
  pub is_value : e.1 ≡ some manifest
  pub key : P e.0

-- What loading gives of members that are all manifests.
record Loaded (P : Text → Type 0) (es : Dict (Option Manifest)) : Type 0 where
  loaded : Dict Manifest
  loads : checked es ≡ ok loaded
  same : es ≡ dump loaded
  keys : All (λ e. P e.0) loaded

load : (P : Text → Type 0) (es : Dict (Option Manifest)) → All (IsManifest P) es → Loaded P es
unfolding checked
load P [] h = record { loaded = []; loads = refl; same = refl; keys = tt }
load P ((k, none) ∷ es) h = absurd (none-ne-some _ h.0.is_value)
load P ((k, some m) ∷ es) h =
    let rest = load P es h.1 in
    record {
      loaded = (k, m) ∷ rest.loaded;
      loads = rw rest.loads refl;
      same = ap (λ xs. (k, some m) ∷ xs) rest.same;
      keys = (h.0.key, rest.keys);
    }

dump-IsManifest :
    (P : Text → Type 0) (d : Dict Manifest) → All (λ e. P e.0) d → All (IsManifest P) (dump d)
dump-IsManifest P [] h = tt
dump-IsManifest P (e ∷ es) h =
    (record { manifest = e.1; is_value = refl; key = h.0 }, dump-IsManifest P es h.1)

some_of : (o : Option Manifest) (m : Manifest) → option_map some o ≡ some (some m) → o ≡ some m
some_of none m h = absurd (none-ne-some _ h)
some_of (some n) m h = some-injective _ _ h

dump-append :
    (d : Dict Manifest) (k : Text) (m : Manifest)
    → dump (d ++ (k, m) ∷ []) ≡ dump d ++ (k, some m) ∷ []
dump-append [] k m = refl
dump-append (e ∷ es) k m = ap (λ xs. (e.0, some e.1) ∷ xs) (dump-append es k m)

capture-IsDict :
    (hash_file : Text → Text) (esp_root : Text) (walk : List Folder) (m : Manifest)
    → capture_current_esp_manifest hash_file esp_root walk ≡ ok m
    → IsDict m
unfolding capture_current_esp_manifest
capture-IsDict hash_file esp_root walk m captures =
    let (es, runs, result) =
      >>=-ok (walk_entries hash_file (with_trailing_sep esp_root) walk) (λ es. ok (puts [] es)) m
        captures in
    subst IsDict (ok-injective _ _ result) (puts-IsDict [] es tt)

module _ {T : Type 0} (floats : Floats T) (are : IsFloats floats) where
  unfoldable pub IsBefore : T → T → Type 0
  IsBefore t u = floats.leb t u ≡ false

  -- No file, or one of manifests, whose keys are all times before `t`.
  unfoldable pub IsEarlier : T → Option Stored → Type 0
  IsEarlier t none = Unit
  IsEarlier t (some (members es)) = All (IsManifest (IsStamp floats are (IsBefore t))) es
  IsEarlier t (some other_value) = ⊥
  IsEarlier t (some not_json) = ⊥

  load_earlier :
      (t : T) (file : Option Stored)
      → IsEarlier t file
      → (d : Dict Manifest) × (load_esp_manifests file ≡ ok d)
        × All (λ e. IsStamp floats are (IsBefore t) e.0) d
  unfolding load_esp_manifests IsEarlier
  load_earlier t none h = ([], refl, tt)
  load_earlier t (some (members es)) h =
      let l = load _ (puts [] es) (puts-All _ [] es tt h) in (l.loaded, l.loads, l.keys)
  load_earlier t (some other_value) h = elim h [ ]
  load_earlier t (some not_json) h = elim h [ ]

  weaken :
      (t : T) (d : Dict Manifest)
      → All (λ e. IsStamp floats are (IsBefore t) e.0) d
      → All (λ e. IsStamp floats are (IsTop floats are t) e.0) d
  unfolding IsTop IsBefore
  weaken t [] h = tt
  weaken t (e ∷ es) h = (
    record { stamp = h.0.stamp; is_printed = h.0.is_printed; holds = inr h.0.holds },
    weaken t es h.1,
  )

  now-IsStamp : (t : T) → IsStamp floats are (IsTop floats are t) (floats.print t)
  unfolding IsTop
  now-IsStamp t = record { stamp = t; is_printed = refl; holds = inl refl }

  -- The file that a change is recorded in is read back with this manifest as the last.
  last_recorded :
      (t : T) (d : Dict Manifest) (m : Manifest)
      → All (λ e. IsStamp floats are (IsBefore t) e.0) d
      → (load_esp_manifests (some (members (dump (d ++ (floats.print t, m) ∷ []))))
          >>= get_last_esp_manifest floats)
        ≡ ok (some m)
  unfolding load_esp_manifests
  last_recorded t d m h =
      let P = IsStamp floats are (IsTop floats are t) in
      let added = dump d ++ (floats.print t, some m) ∷ [] in
      let keys : All (IsManifest P) added =
        All-append _ (dump d) _ (dump-IsManifest P d (weaken t d h))
          (record { manifest = m; is_value = refl; key = now-IsStamp t }, tt) in
      let l = load P (puts [] added) (puts-All _ [] added tt keys) in
      let found = some_of _ m (
        sym (find-dump (floats.print t) l.loaded)
        ∙ ap (find (floats.print t)) (sym l.same)
        ∙ find-puts (floats.print t) (some m) [] (dump d)) in
      ap (λ es. checked (puts [] es) >>= get_last_esp_manifest floats)
        (dump-append d (floats.print t) m)
      ∙ ap (λ r. r >>= get_last_esp_manifest floats) l.loads
      ∙ get_last-top floats are t m l.loaded l.keys found

  -- The update ends, and afterwards the ESP, where it is as it was, matches the manifest: where the
  -- ESP can be read, the file is missing or holds manifests only, and all their times are earlier
  -- than the update's.
  pub matches-update :
      (hash_file : Text → Text) (esp_root : Text) (walk : List Folder) (now : T)
      (file : Option Stored) (current : Manifest)
      → capture_current_esp_manifest hash_file esp_root walk ≡ ok current
      → IsEarlier now file
      → (after : Option Stored) × (update_esp_manifest_if_changed floats hash_file esp_root walk now
            file
          ≡ ok after)
        × (esp_matches_manifest floats hash_file esp_root walk after ≡ ok true)
  unfolding update_esp_manifest_if_changed esp_matches_manifest
  matches-update hash_file esp_root walk now file current captures earlier =
      let (d, loads, keys) = load_earlier now file earlier in
      let (last, lasts) = get_last-ends floats are _ now d keys in
      elim (Bool-cases (is_last floats last current)) [
        | inl same ↦
            (file, rw (captures, loads, lasts, same) refl, rw (captures, loads, lasts, same) refl)
        | inr changed ↦
            let (ms, reloads, is_now) =
              >>=-ok
                (load_esp_manifests (some (members (dump (d ++ (floats.print now, current) ∷ [])))))
                (get_last_esp_manifest floats) (some current) (last_recorded now d current keys) in
            let is_same =
              manifest_eq_refl current (capture-IsDict hash_file esp_root walk current captures) in
            (
              some (members (dump (d ++ (floats.print now, current) ∷ []))),
              rw (captures, loads, lasts, changed) refl,
              rw (captures, reloads, is_now, is_same) refl,
            )
      ]
