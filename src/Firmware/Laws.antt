-- ===== src/Firmware/Laws.antt =====
-- The comparison of AutoTpmEncrypt/firmware_audit.py, on any flash.
use os_lockdown.Base.{
  ℕ, zero, suc, ◌-◌, ◌≤◌, ◌≡◌, refl, sym, ap, ◌∙◌, subst, true, List, [], ◌∷◌, ◌++◌, arith, ◌==◌,
  ==_iff, length, length-append, length-replicate, drop, drop-append, starts_with,
  starts_with-append, starts_with-split, replicate, Bool-cases, inl, inr, ◌↔◌, length-drop,
}
use os_lockdown.Firmware.{count, fw_blob_matches_app_fw}

count-le : (b : ℕ) (cs : List ℕ) → count b cs ≤ length cs
unfolding count
count-le b [] = omega arith
count-le b (c ∷ cs) = ground (arith, count-le b cs)

count_full : (b : ℕ) (cs : List ℕ) → count b cs ≡ length cs → cs ≡ replicate (length cs) b
unfolding count
count_full b [] h = refl
count_full b (c ∷ cs) h = elim (Bool-cases (c == b)) [
  | inl same ↦
      let rest : count b cs ≡ length cs = ground (arith, same, h) in
      let e = (==_iff c b).0 same in
      subst (λ d. c ∷ cs ≡ d ∷ replicate (length cs) b) e (ap (λ r. c ∷ r) (count_full b cs rest))
  | inr other ↦ let most = count-le b cs in absurd (ground (arith, other, h, most))
]

count-replicate : (b n : ℕ) → count b (replicate n b) ≡ n
unfolding count
count-replicate b zero = refl
count-replicate b (suc n) = ground (arith, count-replicate b n)

-- The audit's test on a flash that begins with the firmware.
matches-append :
    (blob rest : List ℕ)
    → fw_blob_matches_app_fw blob (blob ++ rest) ≡ (count 0xff rest == length rest)
unfolding fw_blob_matches_app_fw
matches-append blob rest =
    let starts = starts_with-append blob rest in
    let size = length-append blob rest in
    let delta : length (blob ++ rest) - length blob ≡ length rest = omega (arith, size) in
    let kept : length (blob ++ rest) - length rest ≡ length blob = omega (arith, size) in
    let most = count-le 0xff rest in
    rw (starts, delta, kept, drop-append blob rest) (ground (arith, most))

matches-starts_with :
    (blob app : List ℕ) → fw_blob_matches_app_fw blob app ≡ true → starts_with app blob ≡ true
unfolding fw_blob_matches_app_fw
matches-starts_with blob app h = elim (Bool-cases (starts_with app blob)) [
  | inl starts ↦ starts
  | inr other ↦ absurd (ground (arith, other, h))
]

-- A flash matches a firmware where it is the firmware and bytes 0xFF behind it, as many as there
-- are, and no other flash does.
pub fw_blob_matches_app_fw_iff :
    (blob app : List ℕ)
    → (fw_blob_matches_app_fw blob app ≡ true)
      ↔ (app ≡ blob ++ replicate (length app - length blob) 0xff)
fw_blob_matches_app_fw_iff blob app = (only, holds)
  where
    only :
        fw_blob_matches_app_fw blob app ≡ true
        → app ≡ blob ++ replicate (length app - length blob) 0xff
    only h =
        let rest = drop (length blob) app in
        let split = starts_with-split app blob (matches-starts_with blob app h) in
        let at = sym (ap (fw_blob_matches_app_fw blob) split ∙ matches-append blob rest) ∙ h in
        let full = count_full 0xff rest ((==_iff _ _).0 at) in
        let size : length rest ≡ length app - length blob = length-drop (length blob) app in
        split ∙ ap (λ r. blob ++ r) (full ∙ ap (λ n. replicate n 0xff) size)

    holds :
        app ≡ blob ++ replicate (length app - length blob) 0xff
        → fw_blob_matches_app_fw blob app ≡ true
    holds e =
        let tail = replicate (length app - length blob) 0xff in
        let n = count-replicate 0xff (length app - length blob) in
        let size : length tail ≡ length app - length blob = length-replicate _ _ in
        ap (fw_blob_matches_app_fw blob) e
        ∙ matches-append blob tail
        ∙ (==_iff _ _).1 (n ∙ sym size)
