-- ===== src/Net/Names/Others.antt =====
-- That registering and unregistering a name leave the other names alone.
use lustre_test_vms.Base.{
  String, ◌≡◌, refl, ap, ◌∙◌, inl, inr, Bool, true, false, not, ◌&&◌, ◌||◌, Option, none, some,
  List, [], ◌∷◌, ◌++◌, keep, ◌==◌, string_eq, arith, Bool-cases, if◌then◌else◌,
}
use lustre_test_vms.Net.Names.Laws.{append_nil, backwards_twice}
use lustre_test_vms.Net.Names.{
  HostsLine, entry, text, SshLine, host, tabbed, empty, other, Files, Env, unmarked,
  register_etc_hosts, pop_empty, is_body, is_host, strip_blocks, backwards, without_blocks, block,
  register_ssh_config, lines_of, register_ssh_name,
}

-- The address of a VM in /etc/hosts.
abbrev pub address : String → List HostsLine → Option String
address k [] = none
address k (entry ip n ∷ ls) = let rest = address k ls in if n == k then some ip else rest
address k (text t ∷ ls) = address k ls

address-unmarked :
    (k name : String) (ls : List HostsLine)
    → address k (unmarked name ls) ≡ (if k == name then none else address k ls)
address-unmarked k name [] = ground arith
address-unmarked k name (text t ∷ ls) = ground (arith, address-unmarked k name ls)
address-unmarked k name (entry ip n ∷ ls) = elim (Bool-cases (n == name)) [
  | inl e ↦ ground (arith, address-unmarked k name ls)
  | inr e ↦ ground (arith, address-unmarked k name ls)
]

address-append :
    (k : String) (ls : List HostsLine) (name ip : String)
    → address k (ls ++ (entry ip name ∷ []))
      ≡ (elim (address k ls) [ some a ↦ some a | none ↦ if name == k then some ip else none ])
address-append k [] name ip = ground arith
address-append k (text t ∷ ls) name ip = ground (arith, address-append k ls name ip)
address-append k (entry a n ∷ ls) name ip = ground (arith, address-append k ls name ip)

address-register :
    (k name ip : String) (ls : List HostsLine)
    → address k (register_etc_hosts name ip ls) ≡ (if k == name then some ip else address k ls)
unfolding register_etc_hosts
address-register k name ip ls =
    ground (arith, address-append k (unmarked name ls) name ip, address-unmarked k name ls)

-- The lines of a configuration that are no options and do not begin a block of the VM.
abbrev pub is_heading : String → SshLine → Bool
is_heading name l = not (is_body l || is_host name l)

abbrev pub headings : String → List SshLine → List SshLine
headings name ls = keep (is_heading name) ls

headings-backwards :
    (name : String) (ls out : List SshLine)
    → headings name (backwards ls out) ≡ backwards (headings name ls) (headings name out)
headings-backwards name [] out = refl
headings-backwards name (l ∷ ls) out = elim (Bool-cases (is_heading name l)) [
  | inl e ↦ ground (arith, e, headings-backwards name ls (l ∷ out))
  | inr e ↦ ground (arith, e, headings-backwards name ls (l ∷ out))
]

headings-pop :
    (name : String) (out : List SshLine) → headings name (pop_empty out) ≡ headings name out
headings-pop name [] = refl
headings-pop name (host n ∷ out) = refl
headings-pop name (tabbed t ∷ out) = refl
headings-pop name (empty ∷ out) = refl
headings-pop name (other t ∷ out) = refl

headings-strip :
    (name : String) (skip : Bool) (out ls : List SshLine)
    → headings name (strip_blocks name skip out ls)
      ≡ backwards (headings name ls) (headings name out)
unfolding strip_blocks
headings-strip name skip out [] = refl
headings-strip name skip out (l ∷ ls) = elim (Bool-cases (is_host name l)) [
  | inl h ↦ ground (arith, h, headings-strip name true (pop_empty out) ls, headings-pop name out)
  | inr h ↦ elim (Bool-cases (is_body l)) [
    | inl b ↦
        ground
          (arith, h, b, headings-strip name true out ls, headings-strip name false (l ∷ out) ls)
    | inr b ↦ ground (arith, h, b, headings-strip name false (l ∷ out) ls)
  ]
]

headings-without :
    (name : String) (ls : List SshLine) → headings name (without_blocks name ls) ≡ headings name ls
unfolding without_blocks
headings-without name ls =
    headings-backwards name (strip_blocks name false [] ls) []
    ∙ ap (λ xs. backwards xs []) (headings-strip name false [] ls)
    ∙ backwards_twice (headings name ls)

headings-append :
    (name : String) (ls ms : List SshLine)
    → headings name (ls ++ ms) ≡ headings name ls ++ headings name ms
headings-append name [] ms = refl
headings-append name (l ∷ ls) ms = elim (Bool-cases (is_heading name l)) [
  | inl e ↦ ground (arith, e, headings-append name ls ms)
  | inr e ↦ ground (arith, e, headings-append name ls ms)
]

headings-block : (name ip : String) → headings name (empty ∷ block name ip) ≡ []
headings-block name ip = ground arith

headings-register :
    (name ip : String) (ls : List SshLine)
    → headings name (register_ssh_config name ip ls) ≡ headings name ls
unfolding register_ssh_config
headings-register name ip ls =
    headings-append name (without_blocks name ls) (empty ∷ block name ip)
    ∙ ap (λ xs. headings name (without_blocks name ls) ++ xs) (headings-block name ip)
    ∙ append_nil (headings name (without_blocks name ls))
    ∙ headings-without name ls

-- Registering a name gives it its address in /etc/hosts, where that can be edited, and in hosts.d, where it
-- is published; the addresses of all other names stay, and the headings of the ssh configuration that are not
-- of this name stay in their order.
pub register_ssh_name_lem :
    (e : Env) (name ip k : String) (w : Files)
    → (address k (register_ssh_name e name ip w).hosts
        ≡ (if k == name && (not e.shared || e.may_edit) then some ip else address k w.hosts))
      × ((register_ssh_name e name ip w).published k
          ≡ (if k == name && (e.shared && e.publishes) then some ip else w.published k))
      × (headings name (lines_of (register_ssh_name e name ip w).ssh)
          ≡ headings name (lines_of w.ssh))
unfolding register_ssh_name
register_ssh_name_lem e name ip k w = (
  ground (arith, address-register k name ip w.hosts),
  refl,
  headings-register name ip (lines_of w.ssh),
)
