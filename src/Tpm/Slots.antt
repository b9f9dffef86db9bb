-- ===== src/Tpm/Slots.antt =====
-- The persistent TPM handle and the PCR bank that `setup_auto_tpm_decrypt` seals the key with.
pub mod Listed
pub mod Found
pub mod Address
pub mod Bank
use os_lockdown.Base.{
  ℕ, zero, suc, ◌+◌, ◌/◌, ◌%◌, Bool, true, false, ◌&&◌, ◌||◌, not, List, [], ◌∷◌, ◌++◌,
  if◌then◌else◌, Text, codes, ltb, leb, ◌==◌, keep, map,
}
use os_lockdown.Base.Sort.{text_leb, sorted, is_in}
use os_lockdown.Tpm.Result.{Result, ok, err, die}

-- The digit of a number below 16.
unfoldable pub hex_digit : ℕ → ℕ
hex_digit n = if ltb n 10 then 48 + n else 87 + n

-- The digits of a number below 16 ^ fuel.
unfoldable pub hex_digits : ℕ → ℕ → Text
unfolding hex_digit
hex_digits zero n = []
hex_digits (suc fuel) n =
    let high = hex_digits fuel (n / 16) in
    if ltb n 16 then hex_digit n ∷ [] else high ++ (hex_digit (n % 16) ∷ [])

-- `hex(n)`, for a number of at most eight digits.
unfoldable pub hex : ℕ → Text
unfolding hex_digits
hex n = codes "0x" ++ hex_digits 8 n

-- `range(first, first + count)`
unfoldable pub range : ℕ → ℕ → List ℕ
range first zero = []
range first (suc count) = first ∷ range (suc first) count

abbrev pub first_handle : ℕ
first_handle = 0x81000000

unfoldable pub possible_addresses : List Text
unfolding hex range
possible_addresses = map hex (range first_handle 0x100)

-- `c` is in `[a-f0-9]`.
unfoldable pub is_hex_digit : ℕ → Bool
is_hex_digit c = (leb 48 c && leb c 57) || (leb 97 c && leb c 102)

-- `str.lower` on the letters that an address can hold.
unfoldable pub lower : ℕ → ℕ
lower c = if leb 65 c && leb c 90 then c + 32 else c

-- Where the scan for `0x[a-f0-9]+` stands: nowhere, after a 0, after 0x, or in the digits, with the
-- match so far.
pub data Scan : Type 0 where
  nowhere after_zero after_x : Scan
  in_digits : Text → Scan

unfoldable pub scan_start : ℕ → Scan
scan_start c = if c == 48 then after_zero else nowhere

unfoldable pub scan_x : ℕ → Scan
unfolding scan_start
scan_x c = if c == 120 then after_x else scan_start c

unfoldable pub scan_first_digit : ℕ → Scan
unfolding is_hex_digit
scan_first_digit c = if is_hex_digit c then in_digits (codes "0x" ++ (c ∷ [])) else nowhere

-- `re.findall('0x[a-f0-9]+', text)`
unfoldable pub find_addresses : Scan → Text → List Text
unfolding scan_start scan_x scan_first_digit is_hex_digit
find_addresses (in_digits found) [] = found ∷ []
find_addresses nowhere [] = []
find_addresses after_zero [] = []
find_addresses after_x [] = []
find_addresses nowhere (c ∷ t) = find_addresses (scan_start c) t
find_addresses after_zero (c ∷ t) = find_addresses (scan_x c) t
find_addresses after_x (c ∷ t) = find_addresses (scan_first_digit c) t
find_addresses (in_digits found) (c ∷ t) =
    let more = find_addresses (in_digits (found ++ (c ∷ []))) t in
    let rest = find_addresses nowhere t in if is_hex_digit c then more else found ∷ rest

unfoldable pub in_use_addresses : Text → List Text
unfolding find_addresses lower
in_use_addresses output = find_addresses nowhere (map lower output)

unfoldable pub first_or_die : List Text → Result Text
first_or_die [] = err die
first_or_die (a ∷ rest) = ok a

-- The address of a key that no hook names yet; `output` is what `tpm2_getcap handles-persistent`
-- prints.
unfoldable pub free_tpm_address : Text → Result Text
free_tpm_address output =
    first_or_die (sorted (keep (λ a. not (is_in a (in_use_addresses output))) possible_addresses))

-- `sorted(..., reverse=True)`
unfoldable pub insert_down : Text → List Text → List Text
unfolding text_leb
insert_down x [] = x ∷ []
insert_down x (y ∷ ys) =
    let rest = insert_down x ys in if text_leb y x then x ∷ y ∷ ys else y ∷ rest

unfoldable pub sorted_down : List Text → List Text
unfolding insert_down
sorted_down [] = []
sorted_down (x ∷ xs) = insert_down x (sorted_down xs)

-- `set(...)`, in one of its orders.
unfoldable pub to_set : List Text → List Text
unfolding is_in
to_set [] = []
to_set (x ∷ xs) = let rest = to_set xs in if is_in x xs then rest else x ∷ rest

-- `hash_algorithm`; `found` are the banks with a PCR 0 that tpm2_pcrread prints.
unfoldable pub hash_algorithm : List Text → Result Text
unfolding sorted_down to_set first_or_die
hash_algorithm found =
    first_or_die (sorted_down (to_set (found ++ (codes "sha1" ∷ codes "sha256" ∷ []))))
