-- ===== src/Qemu/Identity.antt =====
-- That a process counts as the QEMU of one VM at most.
use lustre_test_vms.Base.{
  ℕ, String, ◌≡◌, refl, ap, sym, ◌∙◌, inl, inr, true, false, some, List, [], ◌∷◌, ◌==◌, nat_eq,
  string_eq, arith, Bool-cases, Option-cases,
}
use lustre_test_vms.Owner.{codes}
use lustre_test_vms.Qemu.{
  same_codes, name_value, next_is, cmdline_names_vm, Sight, starts_with, qemu_pid_is, proc_is,
  words_name,
}

pub same_codes_sound : (xs ys : List ℕ) → same_codes xs ys ≡ true → xs ≡ ys
same_codes_sound [] [] h = refl
same_codes_sound [] (b ∷ ys) h = absurd (ground arith)
same_codes_sound (a ∷ xs) [] h = absurd (ground arith)
same_codes_sound (a ∷ xs) (b ∷ ys) h = ground (arith, same_codes_sound xs ys)

-- A command line with one word at least that the strict test takes for two names spells them alike.
cmdline_one_name :
    (a b : String) (words : List String)
    → cmdline_names_vm true a words ≡ true
    → cmdline_names_vm true b words ≡ true
    → codes a ≡ codes b
unfolding cmdline_names_vm
cmdline_one_name a b [] h k = absurd (ground arith)
cmdline_one_name a b (w ∷ ws) h k = elim (Bool-cases (w == "-name")) [
  | inl e ↦ both_next ws (ground arith) (ground arith)
  | inr e ↦ elim (Option-cases (name_value w)) [
    | inl z ↦ cmdline_one_name a b ws (ground arith) (ground arith)
    | inr (v, z) ↦
        sym (same_codes_sound v (codes a) (ground arith))
        ∙ same_codes_sound v (codes b) (ground arith)
  ]
]
  where
    both_next : (vs : List String) → next_is a vs ≡ true → next_is b vs ≡ true → codes a ≡ codes b
    both_next [] p q = absurd (ground arith)
    both_next (v ∷ vs) p q =
        let one : v ≡ a = ground arith in let two : v ≡ b = ground arith in ap codes (sym one ∙ two)

-- Where the words of the command line can be read from /proc, a process is the QEMU of one VM at most: two
-- VMs for which it is have one name.
pub qemu_pid_is_injective :
    (s : Sight) (pid : ℕ) (a b : String) (w : String) (ws : List String)
    → (s.proc pid).cmdline ≡ some (w ∷ ws)
    → qemu_pid_is false s pid a ≡ true
    → qemu_pid_is false s pid b ≡ true
    → codes a ≡ codes b
unfolding qemu_pid_is proc_is words_name
qemu_pid_is_injective s pid a b w ws c h k = elim (Option-cases (s.proc pid).comm) [
  | inl z ↦ absurd (ground arith)
  | inr (comm, z) ↦ elim (Bool-cases (starts_with "qemu-system" comm)) [
    | inr e ↦ absurd (ground arith)
    | inl e ↦ cmdline_one_name a b (w ∷ ws) (ground arith) (ground arith)
  ]
]
