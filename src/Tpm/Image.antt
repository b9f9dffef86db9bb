-- ===== src/Tpm/Image.antt =====
-- The EFI binary that `setup_auto_tpm_decrypt` puts together: where each section is placed behind
-- those of the stub. `sections` are the (size, VMA) pairs that objdump lists for the stub.
pub mod Laws
use os_lockdown.Base.{ℕ, zero, suc, ◌+◌, ◌-◌, ◌%◌, Bool, List, [], ◌∷◌, if◌then◌else◌, leb, ◌==◌}
use os_lockdown.Tpm.Result.{Result, ok, err, value_error, die_if, ◌>>=◌, ◌>>◌}

-- `max`
unfoldable pub max : ℕ → ℕ → ℕ
max a b = if leb a b then b else a

unfoldable pub section_ends : ℕ × ℕ → List (ℕ × ℕ) → ℕ
unfolding max
section_ends s [] = s.0 + s.1
section_ends s (t ∷ ts) = max (s.0 + s.1) (section_ends t ts)

-- Where the stub's last section ends; an empty list is the ValueError of `max`.
unfoldable pub stub_end : List (ℕ × ℕ) → Result ℕ
stub_end [] = err value_error
stub_end (s ∷ ss) = ok (section_ends s ss)

-- `offset += align - (offset % align)`
unfoldable pub align_up : ℕ → ℕ → ℕ
align_up align offset = offset + (align - offset % align)

pub record Layout : Type 0 where
  pub osrel_offset : ℕ
  pub kernel_args_offset : ℕ
  pub kernel_offset : ℕ
  pub initramfs_offset : ℕ

unfoldable pub place : ℕ → ℕ → ℕ → ℕ → ℕ → Layout
place align offset osrel_size args_length kernel_size =
    let osrel = align_up align offset in
    let args = align_up align (osrel + osrel_size) in
    let kernel = align_up align (args + args_length) in
    let initramfs = align_up align (kernel + kernel_size) in
    record {
      osrel_offset = osrel;
      kernel_args_offset = args;
      kernel_offset = kernel;
      initramfs_offset = initramfs;
    }

-- `align` is the stub's SectionAlignment; the modulo by 0 is an error.
unfoldable pub layout : List (ℕ × ℕ) → ℕ → ℕ → ℕ → ℕ → Result Layout
layout sections align osrel_size args_length kernel_size = do
  offset ← stub_end sections
  if align == 0 then err value_error else ok (place align offset osrel_size args_length kernel_size)
