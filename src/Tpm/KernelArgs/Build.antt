-- ===== src/Tpm/KernelArgs/Build.antt =====
-- The whole command line: which of the given words stay, and what comes behind them.
use os_lockdown.Base.{
  ◌≡◌, refl, sym, ◌∙◌, ap, Bool, true, false, ◌||◌, ◌&&◌, not, List, [], ◌∷◌, ◌++◌, arith,
  if◌then◌else◌, Text, codes, length, keep, Bool-cases, inl, inr, suc,
}
use os_lockdown.Tpm.Result.{Result, ok, err, name_error, ◌>>=◌}
use os_lockdown.Tpm.KernelArgs.{
  KernelSetup, remove, remove_if, take_away, only_if, systemd_args, kernel_args,
}
use os_lockdown.Tpm.KernelArgs.Remove.{names_arg, remove_kernel_arg_lem}

-- The arguments that the setup removes, each under its condition.
abbrev pub removed_args : KernelSetup → List (Bool × Text)
removed_args s =
    (true, codes "rd.luks")
    ∷ (s.on_steamdeck, codes "fbcon")
    ∷ (s.on_steamos, codes "module_blacklist")
    ∷ (s.show_kernel_messages, codes "quiet")
    ∷ (s.show_kernel_messages, codes "splash")
    ∷ (s.show_kernel_messages, codes "plymouth.ignore-serial-consoles")
    ∷ (s.enable_iommu && s.on_steamos, codes "amd_iommu")
    ∷ []

-- A word that is one of them, or assigns it.
abbrev pub is_one_of : List (Bool × Text) → Text → Bool
is_one_of [] a = false
is_one_of (r ∷ rs) a = (r.0 && names_arg r.1 a) || is_one_of rs a

keep-true : (args : List Text) → keep (λ a. true) args ≡ args
keep-true [] = refl
keep-true (x ∷ xs) = ap (λ r. x ∷ r) (keep-true xs)

remove_lem :
    (arg : Text) (args : List Text) → remove arg args ≡ ok (keep (λ a. not (names_arg arg a)) args)
unfolding remove
remove_lem arg args = rw (remove_kernel_arg_lem (suc (length args)) args arg (omega arith)) refl

remove_if_lem :
    (test : Bool) (arg : Text) (args : List Text)
    → remove_if test arg args ≡ ok (keep (λ a. not (test && names_arg arg a)) args)
unfolding remove_if
remove_if_lem true arg args = remove_lem arg args
remove_if_lem false arg args = ap ok (sym (keep-true args))

keep-keep :
    (p q : Text → Bool) (args : List Text)
    → keep (λ a. not (q a)) (keep (λ a. not (p a)) args) ≡ keep (λ a. not (p a || q a)) args
keep-keep p q [] = refl
keep-keep p q (x ∷ xs) = elim (Bool-cases (p x)) [
  | inl gone ↦ rw (gone, keep-keep p q xs) refl
  | inr other ↦ elim (Bool-cases (q x)) [
    | inl hit ↦ rw (other, hit, keep-keep p q xs) refl
    | inr miss ↦ rw (other, miss, keep-keep p q xs) refl
  ]
]

remove_all : List (Bool × Text) → List Text → Result (List Text)
remove_all [] args = ok args
remove_all (r ∷ rs) args = remove_if r.0 r.1 args >>= remove_all rs

remove_all_lem :
    (rs : List (Bool × Text)) (args : List Text)
    → remove_all rs args ≡ ok (keep (λ a. not (is_one_of rs a)) args)
unfolding remove_all
remove_all_lem [] args = ap ok (sym (keep-true args))
remove_all_lem (r ∷ rs) args =
    ap (λ m. m >>= remove_all rs) (remove_if_lem r.0 r.1 args)
    ∙ remove_all_lem rs (keep (λ a. not (r.0 && names_arg r.1 a)) args)
    ∙ ap ok (keep-keep (λ a. r.0 && names_arg r.1 a) (is_one_of rs) args)

take_away_lem :
    (s : KernelSetup) (args : List Text)
    → take_away s args ≡ ok (keep (λ a. not (is_one_of (removed_args s) a)) args)
unfolding take_away remove_if remove_all
take_away_lem s args = remove_all_lem (removed_args s) args

-- With a systemd initramfs the command line is made: the given words that the setup does not
-- remove, in their order, then the arguments that it adds. Without one, every run of this part ends
-- in the NameError.
pub kernel_args_lem :
    (s : KernelSetup) (given : List Text)
    → kernel_args s given ≡ (
        if s.use_systemd_init
        then ok (
            ((keep (λ a. not (is_one_of (removed_args s) a)) given
                ++ only_if s.on_steamdeck (codes "fbcon=rotate:1" ∷ []))
              ++ only_if s.disable_gpt_auto (codes "systemd.gpt_auto=no" ∷ []))
            ++ systemd_args s)
        else err name_error)
unfolding kernel_args
kernel_args_lem s given = rw (take_away_lem s given) refl
