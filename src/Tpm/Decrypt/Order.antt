-- ===== src/Tpm/Decrypt/Order.antt =====
-- The order in which `decrypt` works on the partitions.
use os_lockdown.Base.{ℕ, refl, Bool, List, [], ◌∷◌, Text, if◌then◌else◌, inl, inr, All}
use os_lockdown.Tpm.Result.{die}
use os_lockdown.Tpm.Effects.{
  acquire_wakelock, release_wakelock, reencrypt_decrypt, convert_to_luks1, Log, return_, World,
}
use os_lockdown.Tpm.Effects.Order.{
  Has, Ends, IsStable, IsLasting, lasting-IsStable, both-IsLasting, Has-IsLasting, always-IsStable,
  Has-IsStable, both-IsStable,
}
use os_lockdown.Tpm.Effects.Runs.{
  Leads, Leads->>=, Leads-map, Leads-return_, Keeps->>=, Keeps->>, Keeps-if, Keeps-return_,
  Keeps-raise_, Keeps-check_power, Leads-run, Leads-run-Has,
}
use os_lockdown.Tpm.Encrypt.{Finds, Partitions, is_given}
use os_lockdown.Tpm.Decrypt.{
  Sees, Choices, decrypt_partition, decrypt_partitions, decrypt_all, decrypt,
}
use os_lockdown.Tpm.Decrypt.Steps.{
  look_into_root-Keeps, audit_firmware-Keeps, convert-Leads, restore_filesystem-Keeps,
  restore_boot-Keeps,
}

-- A partition that is given was decrypted.
abbrev pub IsDecrypted : Log → Text → Type 0
IsDecrypted log [] = Unit
IsDecrypted log (c ∷ t) = Has (reencrypt_decrypt (c ∷ t)) log

IsDecrypted-IsLasting : (p : Text) → IsLasting (λ log. IsDecrypted log p)
IsDecrypted-IsLasting [] = record { lasts = λ c log h. tt }
IsDecrypted-IsLasting (b ∷ t) = record { lasts = λ c log h. inr h }

module _ (w : World) (f : Finds) (d : Sees) (o : Choices) (fuel : ℕ) (root : Text) where
  decrypt_partition-Leads :
      (P : Log → Type 0) (p : Text)
      → IsLasting P
      → ((log : Log) → P log → Has acquire_wakelock log)
      → Leads P
          (decrypt_partition w f d o fuel root p)
          (λ a log. P log × Has (reencrypt_decrypt p) log)
  unfolding decrypt_partition
  decrypt_partition-Leads P p lasting awake =
      let stable = lasting-IsStable P lasting in
      let Q : Log → Type 0 = λ log. P log × Has (reencrypt_decrypt p) log in
      let Q_stable : IsStable Q =
        both-IsStable P (Has (reencrypt_decrypt p)) stable (Has-IsStable (reencrypt_decrypt p)) in
      let Old : Log → Type 0 = λ log. P log × Has (convert_to_luks1 p) log in
      Leads->>= P (λ a. Q) (λ a. Q) _ _
        (Leads->>= P (λ a. Old) (λ a. Q) _ _ (convert-Leads P stable w f d o fuel p)
          (λ u.
            Leads-run Old w (reencrypt_decrypt p) Q (λ log h. (h.1, awake log h.0))
              (λ log h. (lasting.lasts _ log h.0, inl (refl, refl)))))
        (λ u. restore_filesystem-Keeps Q Q_stable w f d o root p)

  given-Leads :
      (P : Log → Type 0) (p : Text)
      → IsLasting P
      → ((log : Log) → P log → Has acquire_wakelock log)
      → Leads P
          (if is_given p then decrypt_partition w f d o fuel root p else return_ tt)
          (λ a log. P log × IsDecrypted log p)
  given-Leads P [] lasting awake = Leads-return_ P _ tt (λ log p. (p, tt))
  given-Leads P (c ∷ t) lasting awake = decrypt_partition-Leads P (c ∷ t) lasting awake

  decrypt_partitions-Leads :
      (P : Log → Type 0) (qs : List Text)
      → IsLasting P
      → ((log : Log) → P log → Has acquire_wakelock log)
      → Leads P
          (decrypt_partitions w f d o fuel root qs)
          (λ a log. P log × All (IsDecrypted log) qs)
  unfolding decrypt_partitions
  decrypt_partitions-Leads P [] lasting awake = Leads-return_ P _ tt (λ log p. (p, tt))
  decrypt_partitions-Leads P (q ∷ qs) lasting awake =
      let Q : Log → Type 0 = λ log. P log × IsDecrypted log q in
      Leads->>= P (λ a. Q) (λ a log. P log × All (IsDecrypted log) (q ∷ qs)) _ _
        (given-Leads P q lasting awake)
        λ u.
          Leads-map Q (λ a log. Q log × All (IsDecrypted log) qs) _ _
            (decrypt_partitions-Leads Q qs
              (both-IsLasting P (λ log. IsDecrypted log q) lasting (IsDecrypted-IsLasting q))
              (λ log h. awake log h.0))
            (λ a log h. (h.0.0, (h.0.1, h.1)))

-- Every partition that is given was decrypted, and the wake lock was released.
abbrev pub IsUnlocked : Partitions → Log → Type 0
IsUnlocked ps log =
    All (IsDecrypted log) (ps.root ∷ ps.home ∷ ps.var ∷ []) × Has release_wakelock log

All-IsLasting : (qs : List Text) → IsLasting (λ log. All (IsDecrypted log) qs)
All-IsLasting [] = record { lasts = λ c log h. tt }
All-IsLasting (q ∷ qs) =
    both-IsLasting (λ log. IsDecrypted log q) (λ log. All (IsDecrypted log) qs)
      (IsDecrypted-IsLasting q) (All-IsLasting qs)

decrypt_all-Leads :
    (w : World) (f : Finds) (d : Sees) (o : Choices) (fuel : ℕ) (ps : Partitions) (steamos : Bool)
    → Leads (λ log. Unit {0}) (decrypt_all w f d o fuel ps steamos) (λ u. IsUnlocked ps)
unfolding decrypt_all
decrypt_all-Leads w f d o fuel ps steamos =
    let Start : Log → Type 0 = λ log. Unit {0} in
    let qs = ps.root ∷ ps.home ∷ ps.var ∷ [] in
    let Awake : Log → Type 0 = λ log. Unit {0} × Has acquire_wakelock log in
    let awake_lasts : IsLasting Awake =
      both-IsLasting Start (Has acquire_wakelock) (record { lasts = λ c log h. tt })
        (Has-IsLasting acquire_wakelock) in
    let Done : Log → Type 0 = λ log. All (IsDecrypted log) qs in
    let Done_stable = lasting-IsStable Done (All-IsLasting qs) in
    let Goal_stable : IsStable (IsUnlocked ps) =
      both-IsStable Done (Has release_wakelock) Done_stable (Has-IsStable release_wakelock) in
    Leads->>= Start (λ u. IsUnlocked ps) (λ u. IsUnlocked ps) _ _
      (Leads->>= Start (λ u. Done) (λ u. IsUnlocked ps) _ _
        (Leads->>= Start (λ u. Awake) (λ u. Done) _ _
          (Leads->>= Start (λ u. Start) (λ u. Awake) _ _ (Keeps-check_power Start w)
            (λ u. Leads-run-Has Start always-IsStable w acquire_wakelock refl))
          (λ u.
            Leads-map Awake (λ a log. Awake log × Done log) (λ a. Done) _
              (decrypt_partitions-Leads w f d o fuel ps.root Awake qs awake_lasts (λ log h. h.1))
              (λ a log h. h.1)))
        (λ u. Leads-run-Has Done Done_stable w release_wakelock refl))
      (λ u. restore_boot-Keeps (IsUnlocked ps) Goal_stable w f d o ps steamos)

-- Whatever the programs that decrypt runs answer: the decryption of a partition is started only after
-- the conversion of its header to LUKS1 succeeded and the wake lock was taken; and where decrypt ends
-- without an exception, the decryption of each of the root, home and var partitions that is given
-- succeeded, and so did the release of the wake lock.
pub decrypt-IsOrdered :
    (w : World) (f : Finds) (d : Sees) (o : Choices) (fuel : ℕ) (ps : Partitions)
    → Ends (λ u. IsUnlocked ps) (decrypt w f d o fuel ps [])
unfolding decrypt
decrypt-IsOrdered w f d o fuel ps =
    let Start : Log → Type 0 = λ log. Unit {0} in
    let before =
      Keeps->>= Start _ _
        (Keeps->> Start _ _
          (Keeps-if Start d.has_key_file _ _ (Keeps-return_ Start tt)
            (Keeps-raise_ Start (Unit {0}) die))
          (audit_firmware-Keeps Start always-IsStable w f d o))
        (λ u. look_into_root-Keeps Start always-IsStable w f d o ps.root) in
    let whole =
      Leads->>= Start (λ steamos. Start) (λ u. IsUnlocked ps) _ _ before
        (decrypt_all-Leads w f d o fuel ps) in
    whole.ends [] tt tt
