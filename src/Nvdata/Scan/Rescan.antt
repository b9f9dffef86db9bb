-- ===== src/Nvdata/Scan/Rescan.antt =====
-- The scan of nvdata_tool/nvdata_tool.py on a flash whose current record was edited.
use os_lockdown.Base.{
  ℕ, suc, ◌+◌, ◌*◌, ◌≤◌, ◌<◌, ◌≡◌, ◌∙◌, ap, ◌⊎◌, inl, inr, false, none, some, List, arith,
  get_elem?,
}
use native.Mathlib.Decide.{dec_lt}
use os_lockdown.Base.Slices.{slice_ext}
use os_lockdown.Nvdata.Scan.{slice, is_blank, scan}
use os_lockdown.Nvdata.Scan.Laws.{last_of, IsRun, scan-finds}

module _ (fw : List ℕ) (size offset k : ℕ) where
  IsRun-not-lt : (n m : ℕ) → IsRun fw size offset k n → IsRun fw size offset k m → n < m → ⊥
  IsRun-not-lt n m r s h =
      let used = s.used n h in let stop = r.stop (omega (arith, s.within)) in cc

  IsRun-unique : (n m : ℕ) → IsRun fw size offset k n → IsRun fw size offset k m → n ≡ m
  IsRun-unique n m r s = elim (dec_lt n m) [
    | yes h ↦ absurd (IsRun-not-lt n m r s h)
    | no p ↦ elim (dec_lt m n) [ yes h ↦ absurd (IsRun-not-lt m n s r h) | no q ↦ omega arith ]
  ]

  pub scan-IsRun :
      (fuel n : ℕ)
      → 0 < size
      → k < fuel
      → IsRun fw size offset k n
      → scan fuel fw size (offset + k * size) offset none ≡ some (last_of size offset n none)
  scan-IsRun fuel n pos enough r =
      let (m, s, e) = scan-finds fw size fuel k offset pos enough in
      e ∙ ap (λ i. some (last_of size offset i none)) (IsRun-unique m n s r)

module _ (fw out : List ℕ) (size offset k m : ℕ)
    (outside : (j : ℕ)
      → (j < offset + m * size) ⊎ (offset + m * size + size ≤ j)
      → get_elem? out j ≡ get_elem? fw j) where
  slice_before :
      (i : ℕ) → i < m → slice (offset + i * size) size out ≡ slice (offset + i * size) size fw
  slice_before i h = slice_ext (offset + i * size) size out fw λ j p q. outside j (inl grind arith)

  slice_after : slice (offset + suc m * size) size out ≡ slice (offset + suc m * size) size fw
  slice_after = slice_ext (offset + suc m * size) size out fw λ j p q. outside j (inr (omega arith))

  -- If only the last record of the run has changed, and it is not blank, the run is as long.
  pub IsRun-edited :
      is_blank size (slice (offset + m * size) size out) ≡ false
      → IsRun fw size offset k (suc m)
      → IsRun out size offset k (suc m)
  IsRun-edited filled r = record {
    within = r.within;
    used = λ i h. elim (dec_lt i m) [
      | yes before ↦ ap (is_blank size) (slice_before i before) ∙ r.used i h
      | no here ↦ let e : i ≡ m = omega arith in rw e filled
    ];
    stop = λ h. ap (is_blank size) slice_after ∙ r.stop h;
  }
