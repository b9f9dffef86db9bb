-- ===== src/Tpm/Image/Laws.antt =====
-- The places of the sections in the EFI binary of `setup_auto_tpm_decrypt`.
use os_lockdown.Base.{ℕ, ◌+◌, ◌-◌, ◌%◌, ◌≤◌, ◌<◌, ◌≡◌, sym, ap, ◌∙◌, List, [], ◌∷◌, arith, All}
use native.Mathlib.Nat.{mod-add-mod, mod-lt, mod_self}
use os_lockdown.Tpm.Result.{ok}
use os_lockdown.Tpm.Image.{max, section_ends, stub_end, align_up, Layout, place, layout}

max_lem : (a b : ℕ) → (a ≤ max a b) × (b ≤ max a b)
unfolding max
max_lem a b = ground arith

All-le :
    (b c : ℕ) (ss : List (ℕ × ℕ))
    → b ≤ c
    → All (λ t. t.0 + t.1 ≤ b) ss
    → All (λ t. t.0 + t.1 ≤ c) ss
All-le b c [] h p = tt
All-le b c (s ∷ ss) h p = (omega (arith, p.0), All-le b c ss h p.1)

All-lt :
    (b c : ℕ) (ss : List (ℕ × ℕ))
    → b < c
    → All (λ t. t.0 + t.1 ≤ b) ss
    → All (λ t. t.0 + t.1 < c) ss
All-lt b c [] h p = tt
All-lt b c (s ∷ ss) h p = (omega (arith, p.0), All-lt b c ss h p.1)

section_ends_lem :
    (s : ℕ × ℕ) (ss : List (ℕ × ℕ)) → All (λ t. t.0 + t.1 ≤ section_ends s ss) (s ∷ ss)
unfolding section_ends
section_ends_lem s [] = (omega arith, tt)
section_ends_lem s (t ∷ ts) =
    let m = max_lem (s.0 + s.1) (section_ends t ts) in
    (m.0, All-le _ _ (t ∷ ts) m.1 (section_ends_lem t ts))

align_up-lt : (align offset : ℕ) → 0 < align → offset < align_up align offset
unfolding align_up
align_up-lt align offset h = let r = mod-lt offset h in omega (arith, r)

align_up-mod : (align offset : ℕ) → 0 < align → align_up align offset % align ≡ 0
unfolding align_up
align_up-mod align offset h =
    let r = mod-lt offset h in
    let fill : offset % align + (align - offset % align) ≡ align = omega (arith, r) in
    sym (mod-add-mod offset align (align - offset % align))
    ∙ ap (λ n. n % align) fill
    ∙ mod_self align

-- Every section of `sections` lies before the first new one, each new one ends before the next
-- begins, and each begins at a multiple of `align`.
pub record IsPlaced (sections : List (ℕ × ℕ)) (align osrel_size args_length kernel_size : ℕ)
    (l : Layout) : Type 0 where
  pub behind_stub : All (λ t. t.0 + t.1 < l.osrel_offset) sections
  pub behind_osrel : l.osrel_offset + osrel_size < l.kernel_args_offset
  pub behind_args : l.kernel_args_offset + args_length < l.kernel_offset
  pub behind_kernel : l.kernel_offset + kernel_size < l.initramfs_offset
  pub aligned_osrel : l.osrel_offset % align ≡ 0
  pub aligned_args : l.kernel_args_offset % align ≡ 0
  pub aligned_kernel : l.kernel_offset % align ≡ 0
  pub aligned_initramfs : l.initramfs_offset % align ≡ 0

-- For a stub with a section and an alignment that is not 0, the layout exists, the sections do not
-- overlap, counting `args_length` for the command line, and each begins at a multiple of the
-- alignment.
pub layout_lem :
    (s : ℕ × ℕ) (ss : List (ℕ × ℕ)) (align osrel_size args_length kernel_size : ℕ)
    → 0 < align
    → (l : Layout) × (layout (s ∷ ss) align osrel_size args_length kernel_size ≡ ok l)
      × IsPlaced (s ∷ ss) align osrel_size args_length kernel_size l
unfolding layout stub_end place
layout_lem s ss align a b c h = (
  place align (section_ends s ss) a b c,
  ground arith,
  record {
    behind_stub = All-lt _ _ (s ∷ ss) (align_up-lt align _ h) (section_ends_lem s ss);
    behind_osrel = align_up-lt align _ h;
    behind_args = align_up-lt align _ h;
    behind_kernel = align_up-lt align _ h;
    aligned_osrel = align_up-mod align _ h;
    aligned_args = align_up-mod align _ h;
    aligned_kernel = align_up-mod align _ h;
    aligned_initramfs = align_up-mod align _ h;
  },
)
