-- ===== src/Nvdata/Scan/Laws.antt =====
-- The loop over the RW_NVRAM area in `main` of nvdata_tool/nvdata_tool.py.
use os_lockdown.Base.{
  ℕ, zero, suc, ◌+◌, ◌*◌, ◌≤◌, ◌<◌, ◌≡◌, refl, ap, true, false, Option, none, some, List, inl, inr,
  arith, Bool-cases,
}
use os_lockdown.Nvdata.Scan.{slice, is_blank, scan}

-- The start of the last of `n` records from `offset`.
abbrev pub last_of : ℕ → ℕ → ℕ → Option ℕ → Option ℕ
last_of size offset zero last = last
last_of size offset (suc n) last = some (offset + n * size)

-- The first `n` records are not blank, and the next one is, if it lies in the area of `k`.
pub record IsRun (fw : List ℕ) (size offset k n : ℕ) : Type 0 where
  pub within : n ≤ k
  pub used : (i : ℕ) → i < n → is_blank size (slice (offset + i * size) size fw) ≡ false
  pub stop : n < k → is_blank size (slice (offset + n * size) size fw) ≡ true

last_of_later :
    (size offset n : ℕ) (last : Option ℕ)
    → last_of size (offset + size) n (some offset) ≡ last_of size offset (suc n) last
last_of_later size offset zero last = ap some (omega arith)
last_of_later size offset (suc n) last = ap some (omega arith)

module _ (fw : List ℕ) (size : ℕ) (pos : 0 < size) where
  later : (offset i : ℕ) → offset + suc i * size ≡ offset + size + i * size
  later offset i = omega arith

  IsRun-none :
      (offset k : ℕ) → is_blank size (slice offset size fw) ≡ true → IsRun fw size offset k 0
  IsRun-none offset k blank = record {
    within = omega arith;
    used = λ i h. absurd (omega arith);
    stop = λ h. let e : offset + 0 * size ≡ offset = omega arith in rw e blank;
  }

  IsRun-suc :
      (offset k n : ℕ)
      → is_blank size (slice offset size fw) ≡ false
      → IsRun fw size (offset + size) k n
      → IsRun fw size offset (suc k) (suc n)
  IsRun-suc offset k n filled r = record {
    within = omega (arith, r.within);
    used = first;
    stop = λ h. rw (later offset n) (r.stop (omega arith));
  }
    where
      first : (i : ℕ) → i < suc n → is_blank size (slice (offset + i * size) size fw) ≡ false
      first zero h = let e : offset + 0 * size ≡ offset = omega arith in rw e filled
      first (suc i) h = rw (later offset i) (r.used i (omega arith))

  scan-finds_at :
      (fuel k end offset : ℕ) (last : Option ℕ)
      → k < fuel
      → end ≡ offset + k * size
      → (n : ℕ) × IsRun fw size offset k n
        × (scan fuel fw size end offset last ≡ some (last_of size offset n last))
  unfolding scan
  scan-finds_at zero k end offset last enough e = absurd (omega arith)
  scan-finds_at (suc fuel) zero end offset last enough e = (
    0,
    record {
      within = omega arith;
      used = λ i h. absurd (omega arith);
      stop = λ h. absurd (omega arith);
    },
    ground arith,
  )
  scan-finds_at (suc fuel) (suc k) end offset last enough e =
      let more : offset < end = omega arith in
      elim (Bool-cases (is_blank size (slice offset size fw))) [
        | inl blank ↦ (0, IsRun-none offset (suc k) blank, ground arith)
        | inr filled ↦
            let (n, r, found) =
              scan-finds_at fuel k end (offset + size) (some offset) (omega arith) (omega arith) in
            (suc n, IsRun-suc offset k n filled r, ground (arith, last_of_later size offset n last))
      ]

-- In an area of `k` records, whatever the flash holds, the loop ends within `k + 1` rounds: it has
-- passed the records before the first blank one, or all `k`, and returns the last that it passed.
pub scan-finds :
    (fw : List ℕ) (size fuel k offset : ℕ)
    → 0 < size
    → k < fuel
    → (n : ℕ) × IsRun fw size offset k n
      × (scan fuel fw size (offset + k * size) offset none ≡ some (last_of size offset n none))
scan-finds fw size fuel k offset pos enough =
    scan-finds_at fw size pos fuel k (offset + k * size) offset none enough refl
