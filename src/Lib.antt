-- ===== src/Lib.antt =====
-- OS Lockdown: a verification library of the repository's Python programs.
--
-- The repository is a set of programs that each run by themselves and share no code:
-- AutoTpmEncrypt (encrypts an installed OS and has the TPM unseal it), PivotZone (runs an OS from
-- memory), nvdata_tool (edits the flags in a Chromebook's NVRAM), and helpers for Windows and for
-- other desktops. Five parts are modelled here, one module for each.
--
-- Base           what the modules share: lists and texts over the native numbers, lines of a file,
--                exclusive or on bytes, Python's order of texts (Sort), the integers that Python's
--                indices run over (Ints), results and exceptions (Outcome)
-- Nvdata         nvdata_tool/nvdata_tool.py
--   Crc          crc8, bit by bit over unbounded numbers
--   Scan         the loop of main over the records of the RW_NVRAM area
--   Edit         the flags, the reserved byte and the checksum of the current record
--   Command      main as a whole, from the arguments and a World (flashrom, firmware log, work
--                directory, flash) to a report and the flash as it is left
-- Tpm            AutoTpmEncrypt/auto_tpm_encrypt.py
--   Fstab        the marks that setup_auto_tpm_decrypt puts into /etc/fstab (mark_line, update_fstab)
--                and that decrypt takes away (restore_line, restore_tab)
--   Files        ensure_file_has_desired_contents, on one file, with the encoding as a parameter
--   KernelArgs   kernel_arg_index, remove_kernel_arg, and the kernel command line of
--                setup_auto_tpm_decrypt (take_away, systemd_args, kernel_args)
--   Hooks        the HOOKS line of make_initfs_via_mkinitcpio (update_hooks)
--   Image        the offsets of the sections in the EFI binary (layout)
--   Slots        the persistent TPM handle and the PCR bank (free_tpm_address, hash_algorithm)
--   Power        die_if_not_on_ac_power
--   PacmanHook   the pacman hook of setup_auto_tpm_decrypt (script_cmd, PACMAN_HOOK_TEMPLATE), and
--                get_non_root_partitions_from_hook, which reads it
--   Seal         remove_blank_password, has_blank_password, ensure_booted_os_is_sealed,
--                ensure_no_os_are_unsealed
--   Validate     encrypt_or_decrypt: the checks of what the user enters, up to the call of encrypt or
--                decrypt
--   Effects      what encrypt and decrypt run, as a log of commands, and the World that answers them
--   Encrypt      encrypt, setup_chroot, teardown_chroot, die_if_no_usable_tpm_slots,
--                get_filesystem_size and maybe_kill_windows_boot_manager on that log
--   Decrypt      decrypt on the same log
--   Manifest     the manifests of the ESP: capture, load, update and match
-- Firmware       AutoTpmEncrypt/firmware_audit.py: fw_blob_matches_app_fw
-- Pivot          PivotZone/pivotzoneutils.py
--   Services     the services that PivotZoneCoordinator.enter stops and restarts, and exit restarts
-- Lizard         AutoTpmEncrypt/LizardShell.py
--   State        the screen, the keyboard, what is known of the real terminal, and what is written
--   Layout       redraw_screen, resize and the check of the terminal's size
--   Keyboard     keyboard_layout, and keyboard_worker with the keys it moves over and presses
--   Escape       the steps of handle_escape_sequence; Escape/CarryOut carries the sequence out
--   Worker       screen_worker, from the first redraw on
--   Threads      the turns of both threads on one state, in any order
--   Bounds       that no turn leaves the screen, one file for each group of operations
--
-- Exceptions and `die` are values of Base.Outcome: Nvdata.Result.Error and Tpm.Result.Error name
-- them, and each program's Result is the outcome of a part that may end early. A Python str that the
-- program walks is a list of code points; str.strip takes away the code points that str.isspace
-- knows. Printing is left out.
--
-- Loops whose end is not plain take fuel, and an error of its own says that it ran out: the scan
-- of the records takes one round for each record and one more, remove_kernel_arg one turn for each
-- word and one more, remove_blank_password one turn for each slot that the blank password opens and
-- one more: each turn takes a record, a word or a slot away, and the last one finds none. In Lizard
-- the loops take one turn for each byte of the shell's output or each character that is typed. The
-- loop over blank passwords in Decrypt has no such bound, since the answers there are any; and the
-- loops of encrypt that draw a random name until one is free take the draws as a list.
--
-- What is not under the repository is a parameter: cryptsetup's exit codes (Tpm.Seal.Cryptsetup,
-- with its manual as Tpm.Seal.Removal.IsCryptsetup), what lsblk, /proc/mounts and symbolic links say
-- (Tpm.Validate.Machine), what objdump and tpm2_pcrread print, once matched, shlex.join, and what flashrom gives.
-- In Encrypt and Decrypt each command's exit code is an answer of Tpm.Effects.World, which may depend on
-- all the commands before, and the log has each command with its exit code; queries that only read (dumpe2fs, tpm2_getcap, the dump of a header, the
-- files of the mounted root) are answers of the machine in Finds and Sees and are not in the log.
-- In Manifest the digest of a file, what os.walk gives, and Python's floats (Tpm.Manifest.Floats, with
-- what is documented of them as Tpm.Manifest.Latest.IsFloats) are parameters.
-- In the pattern for the drives of a Steam Deck, a digit is an ASCII digit.
--
-- In Lizard the terminal keeps its size once the first redraw fits in it, and a thread's turn, one
-- pass of its loop, is taken whole: the lock and the writes between are not interleaved.
--
-- Not modelled: the rest of auto_tpm_encrypt.py (the edit of /etc/crypttab.initramfs, which runs
-- only without USE_SYSTEMD_INIT, where the run has already ended in a NameError; the sbctl post hook, the config file and its
-- PCR list, the kernels, the menus, the update wizard), of
-- pivotzoneutils.py (zone paths, copies and mounts), mypivotzone.py, the package closure, the search
-- for what keeps a mount busy, the reads of firmware_audit.py, boot_windows.py and
-- wayland_session_helper.py. The shell and batch files and the C daemon are left out, since the
-- library is about the Python code.
pub mod Base
pub mod Nvdata
pub mod Tpm
pub mod Firmware
pub mod Pivot
pub mod Lizard
