-- ===== src/Nvdata/Command/Find.antt =====
-- `find_nvdata` and the run of records before the first blank one.
use os_lockdown.Base.{
  ℕ, suc, ◌+◌, ◌*◌, ◌/◌, ◌%◌, ◌≤◌, ◌<◌, ◌≡◌, refl, ◌∙◌, ap, ◌⊎◌, inl, inr, Option, none, some, List,
  arith, ==_iff,
}
use mathlib.Core.Path.{subst₂}
use os_lockdown.Nvdata.Result.{ok, >>=-ok}
use os_lockdown.Nvdata.Scan.{scan, record_size, check_area}
use os_lockdown.Nvdata.Scan.Laws.{last_of, IsRun, scan-finds}
use os_lockdown.Nvdata.Scan.Rescan.{scan-IsRun}
use os_lockdown.Nvdata.Command.{find_nvdata}

-- A record has 16 or 64 bytes.
pub record_size_cases :
    (fw : List ℕ) (offset size : ℕ) → record_size fw offset ≡ ok size → (size ≡ 16) ⊎ (size ≡ 64)
unfolding record_size
record_size_cases fw offset size h = ground arith

check_area_exact :
    (bufsize size size' : ℕ)
    → check_area bufsize size ≡ ok size'
    → (size' ≡ size) × (bufsize % size ≡ 0)
unfolding check_area
check_area_exact bufsize size size' h = ground arith

pub whole_area :
    (bufsize size : ℕ)
    → (size ≡ 16) ⊎ (size ≡ 64)
    → bufsize % size ≡ 0
    → (bufsize ≡ bufsize / size * size) × (bufsize / size ≤ bufsize)
whole_area bufsize size (inl e) h = rw e (let h' = rw e at h in omega arith)
whole_area bufsize size (inr e) h = rw e (let h' = rw e at h in omega arith)

size_pos : (size : ℕ) → (size ≡ 16) ⊎ (size ≡ 64) → 0 < size
size_pos size h = omega arith

-- The scan as `find_nvdata` calls it, at a number of whole records.
scan_area :
    (fw : List ℕ) (offset bufsize size n : ℕ)
    → (size ≡ 16) ⊎ (size ≡ 64)
    → bufsize % size ≡ 0
    → IsRun fw size offset (bufsize / size) n
    → scan (suc bufsize) fw size (offset + bufsize) offset none ≡ some (last_of size offset n none)
scan_area fw offset bufsize size n sizes exact run =
    let (whole, fits) = whole_area bufsize size sizes exact in
    ap (λ b. scan (suc bufsize) fw size (offset + b) offset none) whole
    ∙ scan-IsRun fw size offset (bufsize / size) (suc bufsize) n (size_pos size sizes) (omega arith)
        run

pub find_nvdata-run :
    (fw : List ℕ) (offset bufsize size n : ℕ)
    → record_size fw offset ≡ ok size
    → bufsize % size ≡ 0
    → IsRun fw size offset (bufsize / size) n
    → find_nvdata offset bufsize fw ≡ ok (size, last_of size offset n none)
unfolding find_nvdata check_area
find_nvdata-run fw offset bufsize size n header exact run = rw (
  header,
  (==_iff (bufsize % size) 0).1 exact,
  scan_area fw offset bufsize size n (record_size_cases fw offset size header) exact run,
)

-- The search succeeds only as in `find_nvdata-run`.
pub find_nvdata-IsFound :
    (fw : List ℕ) (offset bufsize size : ℕ) (last : Option ℕ)
    → find_nvdata offset bufsize fw ≡ ok (size, last)
    → (record_size fw offset ≡ ok size)
      × (bufsize % size ≡ 0)
      × ((n : ℕ) × IsRun fw size offset (bufsize / size) n × (last ≡ last_of size offset n none))
unfolding find_nvdata
find_nvdata-IsFound fw offset bufsize size last h =
    let (size1, header, h1) = >>=-ok (record_size fw offset) _ _ h in
    let (size2, area, h2) = >>=-ok (check_area bufsize size1) _ _ h1 in
    let (same, exact) = check_area_exact bufsize size1 size2 area in
    let sizes = record_size_cases fw offset size1 header in
    let (n, run, e) =
      scan-finds fw size1 (suc bufsize) (bufsize / size1) offset (size_pos size1 sizes)
        (omega (arith, whole_area bufsize size1 sizes exact)) in
    let h3 = find_nvdata-run fw offset bufsize size1 n header exact run in
    let e1 : size1 ≡ size = cc in
    let e2 : last_of size1 offset n none ≡ last = cc in
    subst₂
      (λ sz l.
        (record_size fw offset ≡ ok sz)
        × (bufsize % sz ≡ 0)
        × ((n : ℕ) × IsRun fw sz offset (bufsize / sz) n × (l ≡ last_of sz offset n none)))
      e1 e2 (header, exact, (n, run, refl))
