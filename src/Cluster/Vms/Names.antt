-- ===== src/Cluster/Vms/Names.antt =====
-- That a name with which a VM is made is one by which it can be destroyed.
use lustre_test_vms.Base.{
  ℕ, String, ◌≡◌, ◌≢◌, refl, ap, true, false, ◌||◌, List, [], ◌∷◌, any, contains, arith, nat_eq,
  string_eq, ◌==◌,
}
use lustre_test_vms.Owner.{codes}
use lustre_test_vms.Claim.{is_alnum, is_name_char}
use lustre_test_vms.Cluster.Nodes.{validate_vm_name, matches_name, is_tail}
use lustre_test_vms.Cluster.Vms.{validate_vm_name_for_lookup, vm_name_unsafe}

char_safe : (c : ℕ) → (is_name_char c || c == 10) ≡ true → contains vm_name_unsafe c ≡ false
unfolding is_name_char is_alnum
char_safe c h = ground arith

tail_safe : (cs : List ℕ) → is_tail cs ≡ true → any (contains vm_name_unsafe) cs ≡ false
unfolding is_tail
tail_safe [] h = refl
tail_safe (c ∷ []) h = ground (arith, char_safe c)
tail_safe (c ∷ d ∷ cs) h =
    let here : (is_name_char c || c == 10) ≡ true = ground arith in
    ground (arith, char_safe c here, tail_safe (d ∷ cs) (ground arith))

first_safe : (c : ℕ) → is_alnum c ≡ true → (is_name_char c || c == 10) ≡ true
unfolding is_name_char
first_safe c h = ground arith

name_safe : (cs : List ℕ) → matches_name cs ≡ true → any (contains vm_name_unsafe) cs ≡ false
unfolding matches_name
name_safe [] h = absurd (ground arith)
name_safe (c ∷ cs) h =
    let alnum : is_alnum c ≡ true = ground arith in
    ground (arith, char_safe c (first_safe c alnum), tail_safe cs (ground arith))

-- A name that is valid for a new VM is accepted wherever an existing VM is looked up.
pub validate_vm_name-lookup :
    (name : String) → validate_vm_name name ≡ true → validate_vm_name_for_lookup name ≡ true
unfolding validate_vm_name validate_vm_name_for_lookup matches_name is_tail is_alnum is_name_char
validate_vm_name-lookup name h =
    let matched : matches_name (codes name) ≡ true = ground arith in
    ground (arith, name_safe (codes name) matched, bad "" refl, bad "." refl, bad ".." refl)
  where
    bad : (s : String) → validate_vm_name s ≡ false → name ≢ s
    bad s f e = absurd (ground (arith, ap validate_vm_name e))
