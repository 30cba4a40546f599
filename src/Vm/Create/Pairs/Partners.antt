-- ===== src/Vm/Create/Pairs/Partners.antt =====
-- That disks are shared by two VMs at most, through creations.
use lustre_test_vms.Base.{
  ◌+◌, String, ◌≡◌, ◌≢◌, sym, ap, subst, ◌∙◌, inl, inr, true, false, not, ◌||◌, Option, some, any,
  arith, nat_eq, string_eq, ◌==◌, Bool-cases, Option-cases,
}
use lustre_test_vms.Result.{Result, ok, err, value_error, Result-cases}
use lustre_test_vms.Cluster.Vms.{validate_vm_name_for_lookup}
use lustre_test_vms.Vm.Files.{VmInfo, info, Content, bytes, fields, Files, content, all_vms}
use lustre_test_vms.Vm.Options.{Args, validate_failover_disks, load_owner, is_third}
use lustre_test_vms.Vm.Create.{World, Meets, cmd_create}
use lustre_test_vms.Vm.Create.Pairs.{Loads, New, all_vms-Loads, cmd_create-info}
use lustre_test_vms.Vm.Create.Pairs.Invariants.{Pairwise, Pairwise-create}

-- The two VMs do not use the disks of one other VM.
unfoldable pub OtherDisks : String → VmInfo → String → VmInfo → Type 0
OtherDisks a v b u = v.disks_from ≢ "" → v.disks_from ≢ u.disks_from

-- A VM whose disks are used is there, shares them, and uses no others.
unfoldable pub Owned : Files → Type 0
Owned fs =
    (a : String) (v : VmInfo)
    → Loads a v fs
    → v.disks_from ≢ ""
    → (o : VmInfo) × Loads v.disks_from o fs × (o.disks_from ≡ "") × (o.share_disks ≡ true)

load_owner-Loads :
    (name : String) (fs : Files) (o : VmInfo) → load_owner name fs ≡ ok o → Loads name o fs
unfolding load_owner
load_owner-Loads name fs o h = elim (Option-cases (content (info name) fs)) [
  | inl z ↦ absurd (ground arith)
  | inr (c, z) ↦ z ∙ ap some (is_fields c (ground (arith, z)))
]
  where
    is_fields :
        (c : Content)
        → (elim c as (λ _. Result VmInfo) [ bytes ↦ err value_error | fields vm ↦ ok vm ]) ≡ ok o
        → c ≡ fields o
    is_fields bytes k = absurd (ground arith)
    is_fields (fields vm) k = ground arith

-- What the check of the disks to use says.
record Attaches (a : Args) (fs : Files) : Type 0 where
  pub owner : VmInfo
  pub loads : Loads a.disks_from owner fs
  pub other : a.disks_from ≢ a.name
  pub own_disks : owner.disks_from ≡ ""
  pub shares : owner.share_disks ≡ true
  pub no_third : any (is_third a.name a.disks_from) (all_vms fs) ≡ false

validate_failover_disks-Attaches :
    (a : Args) (fs : Files) (shared : Option VmInfo)
    → validate_failover_disks a fs ≡ ok shared
    → a.disks_from ≢ ""
    → Attaches a fs
unfolding validate_failover_disks
validate_failover_disks-Attaches a fs shared h used = elim (Bool-cases a.share_disks) [
  | inl z ↦ absurd (ground arith)
  | inr z ↦
      elim (Bool-cases (not (validate_vm_name_for_lookup a.disks_from) || a.disks_from == a.name)) [
        | inl n ↦ absurd (ground arith)
        | inr n ↦ elim (Bool-cases a.typed_disks) [
          | inl t ↦ absurd (ground arith)
          | inr t ↦ elim (Result-cases (load_owner a.disks_from fs)) [
            | inr (x, l) ↦ absurd (ground arith)
            | inl (owner, l) ↦
                elim (Bool-cases (not (owner.disks_from == "") || not owner.share_disks)) [
                  | inl c ↦ absurd (ground arith)
                  | inr c ↦ elim (Bool-cases (owner.mdt_disks + owner.ost_disks == 0)) [
                    | inl d ↦ absurd (ground arith)
                    | inr d ↦ elim (Bool-cases (any (is_third a.name a.disks_from) (all_vms fs))) [
                      | inl y ↦ absurd (ground arith)
                      | inr y ↦ record {
                        owner = owner;
                        loads = load_owner-Loads a.disks_from fs owner l;
                        other = ground arith;
                        own_disks = ground arith;
                        shares = ground arith;
                        no_third = y;
                      }
                    ]
                  ]
                ]
          ]
        ]
      ]
]

New-disks_from :
    (e : Meets) (a : Args) (fs : Files) (v : VmInfo) → New e a fs v → v.disks_from ≡ a.disks_from
New-disks_from e a fs v n =
    ap (λ (x : VmInfo). x.disks_from) n.made ∙ ap (λ (x : VmInfo). x.disks_from) n.checked.made

New-OtherDisks :
    (e : Meets) (a : Args) (fs : Files) (v : VmInfo) (m : String) (u : VmInfo)
    → New e a fs v
    → m ≢ a.name
    → Loads m u fs
    → v.disks_from ≢ ""
    → v.disks_from ≢ u.disks_from
New-OtherDisks e a fs v m u n d l used same =
    let from = New-disks_from e a fs v n in
    let t =
      validate_failover_disks-Attaches a fs n.checked.shared n.checked.failover
        (λ p. used (from ∙ p)) in
    let third = all_vms-Loads m u (is_third a.name a.disks_from) fs l t.no_third in
    elim (Bool-cases (m == a.disks_from)) [
      | inr z ↦ ground (arith, third, from, same)
      | inl z ↦
          let at : m ≡ a.disks_from = ground arith in
          let loaded = subst (λ k. Loads k u fs) at l in
          let one : u ≡ t.owner = ground (arith, loaded, t.loads) in
          let none_from : u.disks_from ≡ "" = ap (λ (x : VmInfo). x.disks_from) one ∙ t.own_disks in
          used (same ∙ none_from)
    ]

-- Whatever a `ltvm create` meets and however it ends, if before it no two VMs used the disks of one other,
-- and each VM whose disks were used was there, shared them and used no others, then the same holds after.
pub cmd_create-Owned :
    (e : Meets) (a : Args) (w : World)
    → Pairwise OtherDisks w.files
    → Owned w.files
    → Pairwise OtherDisks (cmd_create e a w).1.files × Owned (cmd_create e a w).1.files
unfolding OtherDisks Owned
cmd_create-Owned e a w apart owned = (
  Pairwise-create OtherDisks e a w
      (λ v m u n d l. (
        New-OtherDisks e a w.files v m u n d l,
        λ used. (λ same. New-OtherDisks e a w.files v m u n d l (λ p. used (same ∙ p)) (sym same)),
      ))
      apart,
  λ x v l. (λ used. elim (cmd_create-info e a w x) [
    | inl same ↦
        let before = owned x v (sym same ∙ l) used in
        (before.0, still v.disks_from before.0 before.1, before.2, before.3)
    | inr (_, _, inl gone) ↦ absurd (ground arith)
    | inr (_, _, inr (v2, l2, new)) ↦
        let one : v2 ≡ v = ground arith in
        let from : v.disks_from ≡ a.disks_from =
          ap (λ (z : VmInfo). z.disks_from) (sym one) ∙ New-disks_from e a w.files v2 new in
        let t =
          validate_failover_disks-Attaches a w.files new.checked.shared new.checked.failover
            (λ p. used (from ∙ p)) in
        (
          t.owner,
          still v.disks_from t.owner (subst (λ k. Loads k t.owner w.files) (sym from) t.loads),
          t.own_disks,
          t.shares,
        )
  ]),
)
  where
    still : (m : String) (o : VmInfo) → Loads m o w.files → Loads m o (cmd_create e a w).1.files
    still m o l = elim (cmd_create-info e a w m) [
      | inl same ↦ same ∙ l
      | inr (_, fresh, _) ↦ absurd (ground arith)
    ]
