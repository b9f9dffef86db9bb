-- ===== src/Tpm/Fstab.antt =====
-- The edits of /etc/fstab: `setup_auto_tpm_decrypt` marks the lines of the partitions that it
-- encrypts and adds its own, `decrypt` takes the marks and its lines away.
pub mod Marks
pub mod RoundTrip
pub mod Twice
use os_lockdown.Base.{
  Bool, true, false, ◌&&◌, Option, none, some, List, [], ◌∷◌, ◌++◌, if◌then◌else◌, Text, codes,
  text_eq, starts_with, ends_with, length, drop, any,
}
use os_lockdown.Base.Lines.{first_word, read_lines, write_lines}

-- `REMOVED_COMMENT`, `ADDDED_COMMENT`
abbrev pub removed_comment : Text
removed_comment = codes "# REMOVED_BY_AUTO_TPM_ENCRYPT "

abbrev pub added_comment : Text
added_comment = codes " # ADDED_BY_AUTO_TPM_ENCRYPT"

-- What the edit depends on: whether the OS is SteamOS, the UUIDs of the encrypted partitions, and
-- whether there is a home and a var partition of its own.
pub record Setup : Type 0 where
  pub on_steamos : Bool
  pub encrypted_uuids : List Text
  pub has_home : Bool
  pub has_var : Bool

-- `line.startswith('UUID=') and line.split()[0][5:] in encrypted_uuids`
unfoldable pub names_encrypted : List Text → Text → Bool
unfolding starts_with first_word text_eq
names_encrypted uuids line =
    starts_with line (codes "UUID=") && any (text_eq (drop 5 (first_word line))) uuids

-- One line of the old file: dropped, marked or kept.
unfoldable pub mark_line : Setup → Text → List Text
unfolding names_encrypted starts_with ends_with
mark_line s line =
    if ends_with line added_comment
    then []
    else if s.on_steamos && starts_with line (codes "/dev/disk/by-partsets/")
    then (removed_comment ++ line) ∷ []
    else if names_encrypted s.encrypted_uuids line
    then (removed_comment ++ line) ∷ []
    else line ∷ []

abbrev pub home_line : Text
home_line =
    codes
      "/dev/mapper/tpm_encrypted_home /home ext4 defaults,nofail 0 2 # ADDED_BY_AUTO_TPM_ENCRYPT"

abbrev pub var_line : Text
var_line = codes "/dev/mapper/tpm_encrypted_var /var ext4 defaults 0 2 # ADDED_BY_AUTO_TPM_ENCRYPT"

abbrev pub added_lines : Bool → Bool → List Text
added_lines true true = home_line ∷ var_line ∷ []
added_lines true false = home_line ∷ []
added_lines false true = var_line ∷ []
added_lines false false = []

abbrev pub flat_map {ℓ} : {A : Type ℓ} → (A → List A) → List A → List A
flat_map f [] = []
flat_map f (x ∷ xs) = f x ++ flat_map f xs

-- `working_copy`
abbrev pub update_lines : Setup → List Text → List Text
update_lines s lines = flat_map (mark_line s) lines ++ added_lines s.has_home s.has_var

-- `if len(original_lines) > 1 and original_lines[-1] == '': original_lines.pop()`
unfoldable pub pop_blank : List Text → List Text
pop_blank [] = []
pop_blank (l ∷ []) = l ∷ []
pop_blank (l ∷ [] ∷ []) = l ∷ []
pop_blank (l ∷ m ∷ ls) = l ∷ pop_blank (m ∷ ls)

unfoldable pub lines_eq : List Text → List Text → Bool
unfolding text_eq
lines_eq [] [] = true
lines_eq [] (m ∷ ms) = false
lines_eq (l ∷ ls) [] = false
lines_eq (l ∷ ls) (m ∷ ms) = text_eq l m && lines_eq ls ms

-- The file after `setup_auto_tpm_decrypt`.
unfoldable pub update_fstab : Setup → Text → Text
unfolding mark_line pop_blank lines_eq read_lines write_lines
update_fstab s file =
    let original = pop_blank (read_lines file) in
    let working = update_lines s original in
    if lines_eq working original then file else write_lines working

-- One line in the restoration of `decrypt`.
unfoldable pub restore_line : Text → List Text
unfolding starts_with ends_with
restore_line line =
    if starts_with line removed_comment
    then drop (length removed_comment) line ∷ []
    else if ends_with line added_comment
    then []
    else line ∷ []

-- The file after `decrypt`, for /etc/fstab and /etc/crypttab.initramfs alike.
unfoldable pub restore_tab : Text → Text
unfolding restore_line read_lines write_lines
restore_tab file = write_lines (flat_map restore_line (read_lines file))
