-- ===== src/Net/Names/Laws.antt =====
-- That a name goes as it came.
use lustre_test_vms.Base.{
  String, ◌≡◌, refl, ap, ◌∙◌, inl, inr, Bool, true, false, not, ◌&&◌, some, List, [], ◌∷◌, ◌++◌,
  All, string_eq, arith, Bool-cases,
}
use lustre_test_vms.Net.Names.{
  HostsLine, entry, SshLine, host, tabbed, empty, other, Files, Env, is_marked, unmarked,
  register_etc_hosts, pop_empty, is_body, is_host, strip_blocks, backwards, without_blocks, block,
  register_ssh_config, lines_of, written_back, register_ssh_name, unregister_ssh_name,
}

unmarked_again :
    (name : String) (ls : List HostsLine) → unmarked name (unmarked name ls) ≡ unmarked name ls
unmarked_again name [] = refl
unmarked_again name (l ∷ ls) = elim (Bool-cases (is_marked name l)) [
  | inl e ↦ ground (arith, unmarked_again name ls)
  | inr e ↦ ground (arith, unmarked_again name ls)
]

unmarked_append :
    (name : String) (ls ms : List HostsLine)
    → unmarked name (ls ++ ms) ≡ unmarked name ls ++ unmarked name ms
unmarked_append name [] ms = refl
unmarked_append name (l ∷ ls) ms = elim (Bool-cases (is_marked name l)) [
  | inl e ↦ ground (arith, unmarked_append name ls ms)
  | inr e ↦ ground (arith, unmarked_append name ls ms)
]

pub append_nil {ℓ} : {A : Type ℓ} (xs : List A) → xs ++ [] ≡ xs
append_nil [] = refl
append_nil (x ∷ xs) = ap (λ ys. x ∷ ys) (append_nil xs)

unregister-register_hosts :
    (name ip : String) (ls : List HostsLine)
    → unmarked name (register_etc_hosts name ip ls) ≡ unmarked name ls
unfolding register_etc_hosts
unregister-register_hosts name ip ls =
    unmarked_append name (unmarked name ls) (entry ip name ∷ [])
    ∙ ap (λ ms. unmarked name (unmarked name ls) ++ ms) own
    ∙ append_nil (unmarked name (unmarked name ls))
    ∙ unmarked_again name ls
  where
    own : unmarked name (entry ip name ∷ []) ≡ []
    own = ground arith

-- None of the lines begins a block of the VM.
abbrev Clean : String → List SshLine → Type 0
Clean name ls = All (λ l. is_host name l ≡ false) ls

strip_passes :
    (name : String) (ls out rest : List SshLine)
    → Clean name ls
    → strip_blocks name false out (ls ++ rest) ≡ strip_blocks name false (backwards ls out) rest
unfolding strip_blocks
strip_passes name [] out rest c = refl
strip_passes name (l ∷ ls) out rest (c, cs) =
    ground (arith, c, strip_passes name ls (l ∷ out) rest cs)

pop-Clean : (name : String) (out : List SshLine) → Clean name out → Clean name (pop_empty out)
pop-Clean name [] c = c
pop-Clean name (host n ∷ out) c = c
pop-Clean name (tabbed t ∷ out) c = c
pop-Clean name (empty ∷ out) (c, cs) = cs
pop-Clean name (other t ∷ out) c = c

strip-Clean :
    (name : String) (skip : Bool) (out ls : List SshLine)
    → Clean name out
    → Clean name (strip_blocks name skip out ls)
unfolding strip_blocks
strip-Clean name skip out [] c = c
strip-Clean name skip out (l ∷ ls) c = elim (Bool-cases (is_host name l)) [
  | inl h ↦ rw (h, strip_blocks) (strip-Clean name true (pop_empty out) ls (pop-Clean name out c))
  | inr h ↦ elim (Bool-cases (skip && is_body l)) [
    | inl s ↦ rw (h, s, strip_blocks) (strip-Clean name true out ls c)
    | inr s ↦ rw (h, s, strip_blocks) (strip-Clean name false (l ∷ out) ls (h, c))
  ]
]

backwards-Clean :
    (name : String) (ls out : List SshLine)
    → Clean name ls
    → Clean name out
    → Clean name (backwards ls out)
backwards-Clean name [] out a b = b
backwards-Clean name (l ∷ ls) out (a, rest) b = backwards-Clean name ls (l ∷ out) rest (a, b)

backwards_onto {ℓ} :
    {A : Type ℓ} (xs ys zs : List A) → backwards (backwards xs ys) zs ≡ backwards ys (xs ++ zs)
backwards_onto [] ys zs = refl
backwards_onto (x ∷ xs) ys zs = backwards_onto xs (x ∷ ys) zs

pub backwards_twice {ℓ} : {A : Type ℓ} (xs : List A) → backwards (backwards xs []) [] ≡ xs
backwards_twice xs = backwards_onto xs [] [] ∙ append_nil xs

without-Clean : (name : String) (ls : List SshLine) → Clean name (without_blocks name ls)
unfolding without_blocks
without-Clean name ls =
    backwards-Clean name (strip_blocks name false [] ls) [] (strip-Clean name false [] ls tt) tt

strip_block :
    (name ip : String) (out : List SshLine)
    → strip_blocks name false out (empty ∷ block name ip) ≡ out
unfolding strip_blocks
strip_block name ip out = ground arith

unregister-register_ssh :
    (name ip : String) (ls : List SshLine)
    → without_blocks name (register_ssh_config name ip ls) ≡ without_blocks name ls
unfolding without_blocks register_ssh_config
unregister-register_ssh name ip ls =
    let kept = without_blocks name ls in
    let out =
      strip_passes name kept [] (empty ∷ block name ip) (without-Clean name ls)
      ∙ strip_block name ip (backwards kept []) in
    ap (λ xs. backwards xs []) out ∙ backwards_twice kept

-- Where /etc/hosts can be edited, a name that is registered and then unregistered leaves in /etc/hosts and in
-- the ssh configuration what unregistering it at once leaves, but for a configuration that was not there:
-- that one is left with one empty line.
pub unregister-register :
    (e : Env) (name ip : String) (w : Files)
    → (e.shared && not e.may_edit) ≡ false
    → ((unregister_ssh_name e name (register_ssh_name e name ip w)).hosts
        ≡ (unregister_ssh_name e name w).hosts)
      × ((unregister_ssh_name e name (register_ssh_name e name ip w)).ssh
          ≡ some (written_back (without_blocks name (lines_of w.ssh))))
unfolding unregister_ssh_name register_ssh_name
unregister-register e name ip w h = (
  ground (arith, h, unregister-register_hosts name ip w.hosts),
  ap (λ ls. some (written_back ls)) (unregister-register_ssh name ip (lines_of w.ssh)),
)
