-- ===== src/Tpm/Seal/Removal.antt =====
-- `remove_blank_password` on a cryptsetup that does what its manual says.
use os_lockdown.Base.{ℕ, zero, suc, ◌<◌, ◌≡◌, refl, false, arith, ◌⊎◌, inl, inr}
use os_lockdown.Tpm.Result.{ok}
use os_lockdown.Tpm.Seal.{
  Cryptsetup, remove_blank_password, has_blank_password, success, passphrase_not_found,
}

-- `blank_slots` counts the key slots that the blank password opens: luksRemoveKey clears one of them
-- and exits with 0, and exits with 2 where there is none; open exits with 0 where there is one, and
-- with 2 where there is none.
pub record IsCryptsetup {S : Type 0} (c : Cryptsetup S) (blank_slots : S → ℕ) : Type 0 where
  pub removes_code : (s : S) → 0 < blank_slots s → (c.remove_key s).0 ≡ success
  pub removes_slot :
      (s : S) → 0 < blank_slots s → suc (blank_slots (c.remove_key s).1) ≡ blank_slots s
  pub finds_none_code : (s : S) → blank_slots s ≡ 0 → (c.remove_key s).0 ≡ passphrase_not_found
  pub finds_none_slot : (s : S) → blank_slots s ≡ 0 → blank_slots (c.remove_key s).1 ≡ 0
  pub opens : (s : S) → 0 < blank_slots s → c.open_volume s ≡ success
  pub stays_shut : (s : S) → blank_slots s ≡ 0 → c.open_volume s ≡ passphrase_not_found

zero_or_pos : (n : ℕ) → (n ≡ 0) ⊎ (0 < n)
zero_or_pos zero = inl refl
zero_or_pos (suc n) = inr (omega arith)

module _ {S : Type 0} (c : Cryptsetup S) (blank_slots : S → ℕ)
    (laws : IsCryptsetup c blank_slots) where
  -- With one turn for each slot that the blank password opens, and one turn more, the loop ends with
  -- no such slot, and `has_blank_password` then finds none.
  pub remove_blank_password_lem :
      (fuel : ℕ) (s : S)
      → blank_slots s < fuel
      → (s' : S) × (remove_blank_password c fuel s ≡ ok s')
        × (blank_slots s' ≡ 0)
        × ((n : ℕ)
            → has_blank_password (record { open_code = c.open_volume s'; close_code = n })
              ≡ ok false)
  unfolding remove_blank_password has_blank_password
  remove_blank_password_lem zero s h = absurd (omega arith)
  remove_blank_password_lem (suc fuel) s h = elim (zero_or_pos (blank_slots s)) [
    | inl empty ↦
        let s' = (c.remove_key s).1 in
        let clean = laws.finds_none_slot s empty in
        (s', rw (laws.finds_none_code s empty) refl, clean, λ n. rw (laws.stays_shut s' clean) refl)
    | inr left ↦
        let s' = (c.remove_key s).1 in
        let fewer = laws.removes_slot s left in
        let (last, runs, clean, shut) =
          remove_blank_password_lem fuel s' (omega (arith, fewer, h)) in
        (last, rw (laws.removes_code s left) runs, clean, shut)
  ]
