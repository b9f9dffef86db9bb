-- ===== src/Tpm/Hooks/Order.antt =====
-- `make_initfs_via_mkinitcpio`: the hooks behind their update.
use os_lockdown.Base.{
  ℕ, zero, suc, ◌≡◌, refl, sym, ap, ◌∙◌, Bool, true, false, ◌||◌, some, List, [], ◌∷◌, ◌++◌, arith,
  Text, codes, text_eq, text_eq_iff, take, drop, Bool-cases, inl, inr,
}
use os_lockdown.Base.Sort.{is_in}
use os_lockdown.Tpm.Result.{ok}
use os_lockdown.Tpm.Hooks.{
  index, insert_at, remove_hook, ensure_behind, ensure_before, ensure_first, device_manager,
  encryption_hook, remove_others, update_hooks,
}

-- A hook that is there has an index, where the list can be taken apart.
index-is_in :
    (hook : Text) (hooks : List Text)
    → is_in hook hooks ≡ true
    → (i : ℕ) × (index hook hooks ≡ some i) × (drop i hooks ≡ hook ∷ drop (suc i) hooks)
unfolding is_in index
index-is_in hook [] h = absurd (ground (arith, h))
index-is_in hook (x ∷ xs) h = elim (Bool-cases (text_eq hook x)) [
  | inl same ↦ (0, rw same refl, ap (λ y. y ∷ xs) (sym ((text_eq_iff hook x).0 same)))
  | inr other ↦
      let (i, at, parts) = index-is_in hook xs (ground (arith, other, h)) in
      (suc i, rw (other, at) refl, parts)
]

is_in-insert_at :
    (y : Text) (i : ℕ) (hook : Text) (hooks : List Text)
    → is_in y (insert_at i hook hooks) ≡ text_eq y hook || is_in y hooks
unfolding is_in insert_at
is_in-insert_at y zero hook hooks = refl
is_in-insert_at y (suc i) hook [] = refl
is_in-insert_at y (suc i) hook (x ∷ xs) = ground (arith, is_in-insert_at y i hook xs)

-- A list with a hook more, unless it was there.
pub record IsGrown (hook : Text) (hooks out : List Text) : Type 0 where
  pub has : is_in hook out ≡ true
  pub keeps : (y : Text) → is_in y hooks ≡ true → is_in y out ≡ true
  pub adds_only : (y : Text) → text_eq y hook ≡ false → is_in y out ≡ is_in y hooks

unchanged : (hook : Text) (hooks : List Text) → is_in hook hooks ≡ true → IsGrown hook hooks hooks
unchanged hook hooks h = record { has = h; keeps = λ y k. k; adds_only = λ y n. refl }

inserted : (hook : Text) (i : ℕ) (hooks : List Text) → IsGrown hook hooks (insert_at i hook hooks)
inserted hook i hooks = record {
  has = is_in-insert_at hook i hook hooks ∙ ground (arith, (text_eq_iff hook hook).1 refl);
  keeps = λ y k. is_in-insert_at y i hook hooks ∙ ground (arith, k);
  adds_only = λ y n. is_in-insert_at y i hook hooks ∙ ground (arith, n);
}

ensure_behind_lem :
    (hook anchor : Text) (hooks : List Text)
    → is_in anchor hooks ≡ true
    → (out : List Text) × (ensure_behind hook anchor hooks ≡ ok out) × IsGrown hook hooks out
unfolding ensure_behind
ensure_behind_lem hook anchor hooks h = elim (Bool-cases (is_in hook hooks)) [
  | inl there ↦ (hooks, rw there refl, unchanged hook hooks there)
  | inr missing ↦
      let (i, at, parts) = index-is_in anchor hooks h in
      (insert_at (suc i) hook hooks, rw (missing, at) refl, inserted hook (suc i) hooks)
]

ensure_first-IsGrown :
    (hook : Text) (hooks : List Text) → IsGrown hook hooks (ensure_first hook hooks)
unfolding ensure_first insert_at
ensure_first-IsGrown hook hooks = elim (Bool-cases (is_in hook hooks)) [
  | inl there ↦ rw there (unchanged hook hooks there)
  | inr missing ↦ rw missing (inserted hook 0 hooks)
]

-- `first` stands right before `second`.
pub record IsBefore (first second : Text) (hooks : List Text) : Type 0 where
  pub before : List Text
  pub behind : List Text
  pub whole : hooks ≡ before ++ (first ∷ second ∷ behind)

ensure_before_lem :
    (hook anchor : Text) (hooks : List Text)
    → is_in anchor hooks ≡ true
    → (out : List Text) × (ensure_before hook anchor hooks ≡ ok out)
      × IsGrown hook hooks out
      × (is_in hook hooks ≡ false → IsBefore hook anchor out)
unfolding ensure_before insert_at
ensure_before_lem hook anchor hooks h = elim (Bool-cases (is_in hook hooks)) [
  | inl there ↦ (
    hooks,
    rw there refl,
    unchanged hook hooks there,
    λ missing. absurd (ground (arith, there, missing)),
  )
  | inr missing ↦
      let (i, at, parts) = index-is_in anchor hooks h in
      (
        insert_at i hook hooks,
        rw (missing, at) refl,
        inserted hook i hooks,
        λ _. record {
          before = take i hooks;
          behind = drop (suc i) hooks;
          whole = ap (λ r. take i hooks ++ (hook ∷ r)) parts;
        },
      )
]

is_in-remove_hook :
    (y hook : Text) (hooks : List Text)
    → is_in y hooks ≡ false
    → is_in y (remove_hook hook hooks) ≡ false
unfolding is_in remove_hook
is_in-remove_hook y hook [] h = h
is_in-remove_hook y hook (x ∷ xs) h = elim (Bool-cases (text_eq hook x)) [
  | inl gone ↦ rw gone (ground (arith, h))
  | inr other ↦ rw other (ground (arith, h, is_in-remove_hook y hook xs))
]

is_in-remove_others :
    (use_systemd_init : Bool) (y : Text) (hooks : List Text)
    → is_in y hooks ≡ false
    → is_in y (remove_others use_systemd_init hooks) ≡ false
unfolding remove_others
is_in-remove_others true y hooks h =
    is_in-remove_hook y (codes "encrypt") _ (is_in-remove_hook y (codes "udev") hooks h)
is_in-remove_others false y hooks h =
    is_in-remove_hook y (codes "sd-encrypt") _ (is_in-remove_hook y (codes "systemd") hooks h)

-- The new hooks have every hook that is needed, and `auto_tpm_encrypt` right before the encryption
-- hook where it is new.
pub record IsUpdated (use_systemd_init : Bool) (hooks out : List Text) : Type 0 where
  pub has_base : is_in (codes "base") out ≡ true
  pub has_device_manager : is_in (device_manager use_systemd_init) out ≡ true
  pub has_autodetect : is_in (codes "autodetect") out ≡ true
  pub has_modconf : is_in (codes "modconf") out ≡ true
  pub has_block : is_in (codes "block") out ≡ true
  pub has_encryption : is_in (encryption_hook use_systemd_init) out ≡ true
  pub has_unseal : is_in (codes "auto_tpm_encrypt") out ≡ true
  pub in_order :
      is_in (codes "auto_tpm_encrypt") hooks ≡ false
      → IsBefore (codes "auto_tpm_encrypt") (encryption_hook use_systemd_init) out

other_than_unseal :
    (use_systemd_init : Bool)
    → (text_eq (codes "auto_tpm_encrypt") (device_manager use_systemd_init) ≡ false)
      × (text_eq (codes "auto_tpm_encrypt") (encryption_hook use_systemd_init) ≡ false)
unfolding text_eq
other_than_unseal true = (refl, refl)
other_than_unseal false = (refl, refl)

-- Whatever the hooks are, their update raises nothing, the hooks that it needs are there behind it,
-- and `auto_tpm_encrypt`, where it was missing, stands right before the encryption hook.
pub update_hooks-IsUpdated :
    (use_systemd_init : Bool) (hooks : List Text)
    → (out : List Text) × (update_hooks use_systemd_init hooks ≡ ok out)
      × IsUpdated use_systemd_init hooks out
unfolding update_hooks text_eq
update_hooks-IsUpdated b hooks =
    let start = remove_others b hooks in
    let base = ensure_first-IsGrown (codes "base") start in
    let (h1, e1, g1) = ensure_behind_lem (device_manager b) (codes "base") _ base.has in
    let (h2, e2, g2) = ensure_behind_lem (codes "autodetect") (device_manager b) h1 g1.has in
    let (h3, e3, g3) = ensure_behind_lem (codes "modconf") (codes "autodetect") h2 g2.has in
    let (h4, e4, g4) = ensure_behind_lem (codes "block") (codes "modconf") h3 g3.has in
    let (h5, e5, g5) = ensure_behind_lem (encryption_hook b) (codes "block") h4 g4.has in
    let (h6, e6, g6, order) =
      ensure_before_lem (codes "auto_tpm_encrypt") (encryption_hook b) h5 g5.has in
    let (not_manager, not_encryption) = other_than_unseal b in
    (
      h6,
      rw (e1, e2, e3, e4, e5) e6,
      record {
        has_base =
            g6.keeps _ (g5.keeps _ (g4.keeps _ (g3.keeps _ (g2.keeps _ (g1.keeps _ base.has)))));
        has_device_manager = g6.keeps _ (g5.keeps _ (g4.keeps _ (g3.keeps _ (g2.keeps _ g1.has))));
        has_autodetect = g6.keeps _ (g5.keeps _ (g4.keeps _ (g3.keeps _ g2.has)));
        has_modconf = g6.keeps _ (g5.keeps _ (g4.keeps _ g3.has));
        has_block = g6.keeps _ (g5.keeps _ g4.has);
        has_encryption = g6.keeps _ g5.has;
        has_unseal = g6.has;
        in_order = λ missing. order (
            g5.adds_only _ not_encryption
            ∙ g4.adds_only _ refl
            ∙ g3.adds_only _ refl
            ∙ g2.adds_only _ refl
            ∙ g1.adds_only _ not_manager
            ∙ base.adds_only _ refl
            ∙ is_in-remove_others b _ hooks missing);
      },
    )
