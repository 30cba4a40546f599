-- ===== src/Net/AllocIp/Laws.antt =====
-- What `alloc_ip` gives.
use native.Mathlib.Decide.{ℕ_discrete}
use lustre_test_vms.Base.{
  ℕ, zero, suc, ◌+◌, ◌%◌, ◌≤◌, ◌<◌, ◌≡◌, refl, ap, sym, ◌∙◌, subst, inl, inr, String, false, Option,
  none, some, List, [], ◌∷◌, length, arith, contains, nat_eq, Option-cases,
}
use lustre_test_vms.Result.{Result, ok, err, Result-cases}
use lustre_test_vms.Net.Pool.{default_address}
use lustre_test_vms.Net.Pool.Laws.{default_address_sound}
use lustre_test_vms.Net.Alloc.{Site, Stored, subnet_for_nic}
use lustre_test_vms.Net.Alloc.Laws.{Fresh}
use lustre_test_vms.Net.AllocIp.{
  net_of, bucket, used_ips, and_then, alloc_from, explicit_address, alloc_ip,
}

contains-bucket : (a : ℕ) (used : List ℕ) → contains (bucket (net_of a) used) a ≡ contains used a
contains-bucket a [] = refl
contains-bucket a (x ∷ used) = elim (ℕ_discrete a x) [
  | yes e ↦ let g : net_of x ≡ net_of a = ap net_of (sym e) in ground arith
  | no e ↦ elim (ℕ_discrete (net_of x) (net_of a)) [
    | yes g ↦ ground (arith, contains-bucket a used)
    | no g ↦ ground (arith, contains-bucket a used)
  ]
]

-- Both networks are /24 networks: their first addresses are multiples of 256.
unfoldable pub Aligned : Site → Type 0
Aligned s = (s.management % 256 ≡ 0) × (s.extra % 256 ≡ 0)

multiple_of_256 :
    (s : Site) (idx net : ℕ) → Aligned s → subnet_for_nic s idx ≡ ok net → net % 256 ≡ 0
unfolding subnet_for_nic Aligned
multiple_of_256 s zero net h e = ground arith
multiple_of_256 s (suc i) net h e = ground arith

net_of_host : (net a : ℕ) → net % 256 ≡ 0 → net ≤ a → a < net + 256 → net_of a ≡ net
net_of_host net a h l u = omega arith

fresh_default :
    (seed net : ℕ) (used : List ℕ) (a : ℕ)
    → net % 256 ≡ 0
    → default_address seed net (bucket net used) ≡ some a
    → contains used a ≡ false
fresh_default seed net used a h e =
    let (low, high, free) = default_address_sound seed net (bucket net used) a e in
    let same : net_of a ≡ net = net_of_host net a h (omega arith) (omega arith) in
    sym (contains-bucket a used) ∙ (ap (λ n. contains (bucket n used) a) same ∙ free)

abbrev Given : List ℕ → ℕ → Result (List ℕ) → Type 0
Given used n (err e) = Unit
Given used n (ok ips) = Fresh used ips × (length ips ≡ n)

Given-and_then :
    (used : List ℕ) (n a : ℕ) (r : Result (List ℕ))
    → contains used a ≡ false
    → Given (a ∷ used) n r
    → Given used (suc n) (and_then a r)
Given-and_then used n a (err e) f g = tt
Given-and_then used n a (ok ips) f g = ((f, g.0), omega (arith, g.1))

alloc_from-Given :
    (s : Site) (seed idx n : ℕ) (used : List ℕ)
    → Aligned s
    → Given used n (alloc_from s seed idx n used)
unfolding alloc_from
alloc_from-Given s seed idx zero used h = (tt, refl)
alloc_from-Given s seed idx (suc n) used h = elim (Result-cases (subnet_for_nic s idx)) [
  | inr (x, e) ↦ rw (e, alloc_from) tt
  | inl (net, e) ↦ elim (Option-cases (default_address seed net (bucket net used))) [
    | inl f ↦ rw (e, f, alloc_from) tt
    | inr (a, f) ↦
        rw (e, f, alloc_from)
          (Given-and_then used n a _
            (fresh_default seed net used a (multiple_of_256 s idx net h e) f)
            (alloc_from-Given s seed (suc idx) n (a ∷ used) h))
  ]
]

explicit_fresh :
    (s : Site) (text : Option ℕ) (used : List ℕ) (a : ℕ)
    → explicit_address s text used ≡ ok a
    → contains used a ≡ false
unfolding explicit_address
explicit_fresh s text used a e = sym (contains-bucket a used) ∙ ground arith

alloc_ip-Given :
    (s : Site) (seed : ℕ) (vms : List (String × Stored)) (name : String) (count : ℕ)
    (explicit : Option (Option ℕ))
    → Aligned s
    → Given (used_ips name vms) count (alloc_ip s seed vms name count explicit)
unfolding alloc_ip
alloc_ip-Given s seed vms name zero explicit h = tt
alloc_ip-Given s seed vms name (suc n) none h =
    alloc_from-Given s seed 0 (suc n) (used_ips name vms) h
alloc_ip-Given s seed vms name (suc n) (some text) h =
    elim (Result-cases (explicit_address s text (used_ips name vms))) [
      | inr (x, e) ↦ rw (e, alloc_ip) tt
      | inl (a, e) ↦
          rw (e, alloc_ip)
            (Given-and_then (used_ips name vms) n a _
              (explicit_fresh s text (used_ips name vms) a e)
              (alloc_from-Given s seed 1 n (a ∷ used_ips name vms) h))
    ]

-- On /24 networks, an allocation that succeeds gives as many addresses as were asked for; none is used by
-- another VM that can be read, and no two are the same.
pub alloc_ip-Fresh :
    (s : Site) (seed : ℕ) (vms : List (String × Stored)) (name : String) (count : ℕ)
    (explicit : Option (Option ℕ)) (ips : List ℕ)
    → Aligned s
    → alloc_ip s seed vms name count explicit ≡ ok ips
    → Fresh (used_ips name vms) ips × (length ips ≡ count)
alloc_ip-Fresh s seed vms name count explicit ips h e =
    subst (Given (used_ips name vms) count) e (alloc_ip-Given s seed vms name count explicit h)
