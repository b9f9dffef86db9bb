-- ===== src/Tpm/Files.antt =====
-- `ensure_file_has_desired_contents`, on the bytes of one file.
pub mod Desired
use os_lockdown.Base.{
  ℕ, Bool, true, false, not, Option, none, some, List, [], ◌∷◌, ◌++◌, if◌then◌else◌, Text, text_eq,
  ltb, length, drop,
}

-- A file that is there: its bytes, and its mode, none where the program has not set one.
pub record File : Type 0 where
  pub contents : List ℕ
  pub mode : Option ℕ

-- How Python reads and writes text files: `decode` is what `read` gives of the bytes, `encode` what
-- `write` makes of a text.
pub record Codec : Type 0 where
  pub encode : Text → List ℕ
  pub decode : List ℕ → Text

-- Bytes written over the start of a file; what is behind them stays.
unfoldable pub overwrite : List ℕ → List ℕ → List ℕ
overwrite bytes old = bytes ++ drop (length bytes) old

unfoldable pub update_contents : Codec → Text → List ℕ → List ℕ
unfolding overwrite text_eq
update_contents codec desired old =
    let old_contents = codec.decode old in
    if text_eq old_contents desired
    then old
    else if ltb (length desired) (length old_contents)
    then codec.encode desired
    else overwrite (codec.encode desired) old

-- `os.chmod`, where a mode is given.
unfoldable pub set_mode : Option ℕ → File → File
set_mode none f = f
set_mode (some m) f = record f { mode = some m }

-- The file under the path afterwards; none where it is missing before.
unfoldable pub ensure_file_has_desired_contents : Codec → Text → Option ℕ → Option File → File
unfolding update_contents set_mode
ensure_file_has_desired_contents codec desired mode none =
    set_mode mode (record { contents = codec.encode desired; mode = none })
ensure_file_has_desired_contents codec desired mode (some f) =
    set_mode mode (record f { contents = update_contents codec desired f.contents })
