-- ===== src/Nvdata/Scan.antt =====
-- The scan of `main` in nvdata_tool/nvdata_tool.py: the size of a record from the first header,
-- and the loop that walks the area to the first blank record.
pub mod Laws
pub mod Rescan
use Prim.Native.Nat.{bit_and}
use os_lockdown.Base.{
  ℕ, zero, suc, ◌+◌, ◌%◌, Bool, not, Option, none, some, List, ltb, ◌==◌, if◌then◌else◌, take, drop,
  replicate, text_eq,
}
use os_lockdown.Nvdata.Result.{Result, ok, err, bad_header, area_size, ◌>>=◌, byte_at}

-- `fw[offset:offset+size]`
abbrev pub slice : ℕ → ℕ → List ℕ → List ℕ
slice offset size fw = take size (drop offset fw)

-- 16 bytes for a header of version 1, 64 for one of version 2.
unfoldable pub record_size : List ℕ → ℕ → Result ℕ
record_size fw offset = do
  header ← byte_at fw offset
  if not (bit_and header 0x40 == 0)
      then ok 16
      else if not (bit_and header 0x03 == 0)
      then ok 64
      else err bad_header

-- `if bufsize % vbnv_size != 0: raise`
unfoldable pub check_area : ℕ → ℕ → Result ℕ
check_area bufsize size = if bufsize % size == 0 then ok size else err area_size

-- `nvdata == (b'\xFF' * vbnv_size)`
unfoldable pub is_blank : ℕ → List ℕ → Bool
unfolding text_eq
is_blank size nvdata = text_eq nvdata (replicate size 0xff)

-- `while offset < end`, on fuel; `none` is a loop that is still running.
unfoldable pub scan : ℕ → List ℕ → ℕ → ℕ → ℕ → Option ℕ → Option (Option ℕ)
unfolding is_blank
scan zero fw size end offset last = none
scan (suc fuel) fw size end offset last =
    let rest = scan fuel fw size end (offset + size) (some offset) in
    if ltb offset end
    then (if is_blank size (slice offset size fw) then some last else rest)
    else some last
