-- ===== src/Tpm/Encrypt/Order.antt =====
-- The order in which `encrypt` works on the partitions.
use os_lockdown.Base.{[], ◌∷◌, Text}
use os_lockdown.Tpm.Effects.{reencrypt_encrypt, Log}
use os_lockdown.Tpm.Effects.Order.{Has}

-- A partition that is given was reencrypted.
abbrev pub IsEncrypted : Log → Text → Type 0
IsEncrypted log [] = Unit
IsEncrypted log (c ∷ t) = Has (reencrypt_encrypt (c ∷ t)) log
