-- ===== src/Net/Overlap/Laws.antt =====
-- What a list of subnets without a problem looks like.
use lustre_test_vms.Base.{
  ◌≤◌, length, map, ltb, ◌≡◌, refl, sym, inl, inr, ◌⊎◌, true, false, ◌&&◌, Option, none, some, List,
  [], ◌∷◌, ◌++◌, any, arith, nat_eq, Bool-cases,
}
use lustre_test_vms.Net.Pool.{Network, Family, ipv4, ipv6}
use lustre_test_vms.Net.Overlap.{
  same_family, is_same, overlaps, clash, unique, first_clash, scan, overlap_problem, Nic,
  network_problem, is_explicit, over_management, net4_of, net6_of, data_networks, clashing, or_else,
}

same_family_sound : (f g : Family) → same_family f g ≡ true → f ≡ g
same_family_sound ipv4 ipv4 h = refl
same_family_sound ipv4 ipv6 h = absurd (ground arith)
same_family_sound ipv6 ipv4 h = absurd (ground arith)
same_family_sound ipv6 ipv6 h = refl

same_family-sym : (f g : Family) → same_family f g ≡ same_family g f
same_family-sym ipv4 ipv4 = refl
same_family-sym ipv4 ipv6 = refl
same_family-sym ipv6 ipv4 = refl
same_family-sym ipv6 ipv6 = refl

same_parts :
    (a b : Network)
    → is_same a b ≡ true
    → (a.family ≡ b.family) × (a.first ≡ b.first) × (a.size ≡ b.size)
unfolding is_same
same_parts a b h = (same_family_sound a.family b.family (ground arith), ground arith, ground arith)

same_network : (a b : Network) → is_same a b ≡ true → a ≡ b
same_network a b h =
    let (f, i, s) = same_parts a b h in λ k. record { family = f k; first = i k; size = s k }

clash-sym : (a b : Network) → clash a b ≡ false → clash b a ≡ false
unfolding clash is_same overlaps
clash-sym a b h = ground (arith, same_family-sym a.family b.family)

clash_irrefl : (a b : Network) → is_same a b ≡ true → clash a b ≡ false
unfolding clash
clash_irrefl a b h = ground arith

abbrev pub Listed : Network → List Network → Type 0
Listed a ns = any (is_same a) ns ≡ true

first_clash-none :
    (n b : Network) (os : List Network) → first_clash n os ≡ none → Listed b os → clash n b ≡ false
unfolding first_clash
first_clash-none n b [] h l = absurd (ground arith)
first_clash-none n b (o ∷ os) h l = elim (Bool-cases (is_same b o)) [
  | inl e ↦ rw (same_network b o e) (ground arith)
  | inr e ↦ first_clash-none n b os (ground arith) (ground arith)
]

Listed-append :
    (b n : Network) (es : List Network)
    → Listed b es ⊎ (is_same b n ≡ true)
    → Listed b (es ++ (n ∷ []))
Listed-append b n [] h = ground arith
Listed-append b n (e ∷ es) h = elim (Bool-cases (is_same b e)) [
  | inl s ↦ ground arith
  | inr s ↦ ground (arith, Listed-append b n es (ground arith))
]

scan_earlier :
    (a b : Network) (es ns : List Network)
    → scan es ns ≡ none
    → Listed a ns
    → Listed b es
    → clash a b ≡ false
unfolding scan
scan_earlier a b es [] h l k = absurd (ground arith)
scan_earlier a b es (n ∷ ns) h l k = elim (Bool-cases (is_same a n)) [
  | inl e ↦ rw (same_network a n e) (first_clash-none n b es (ground arith) k)
  | inr e ↦
      scan_earlier a b (es ++ (n ∷ [])) ns (ground arith) (ground arith)
        (Listed-append b n es (inl k))
]

scan-none :
    (a b : Network) (es ns : List Network)
    → scan es ns ≡ none
    → Listed a ns
    → Listed b ns
    → clash a b ≡ false
unfolding scan
scan-none a b es [] h l k = absurd (ground arith)
scan-none a b es (n ∷ ns) h l k =
    let rest : scan (es ++ (n ∷ [])) ns ≡ none = ground arith in
    elim (Bool-cases (is_same a n)) [
      | inl e ↦ elim (Bool-cases (is_same b n)) [
        | inl f ↦ clash_irrefl a b (rw (sym (same_network b n f)) at e)
        | inr f ↦ clash-sym b a (
            scan_earlier b a (es ++ (n ∷ [])) ns rest (ground arith) (Listed-append a n es (inr e)))
      ]
      | inr e ↦ elim (Bool-cases (is_same b n)) [
        | inl f ↦
            scan_earlier a b (es ++ (n ∷ [])) ns rest (ground arith) (Listed-append b n es (inr f))
        | inr f ↦ scan-none a b (es ++ (n ∷ [])) ns rest (ground arith) (ground arith)
      ]
    ]

unique_keeps :
    (a : Network) (seen ns : List Network)
    → Listed a ns
    → any (is_same a) seen ≡ false
    → Listed a (unique seen ns)
unfolding unique
unique_keeps a seen [] l f = absurd (ground arith)
unique_keeps a seen (n ∷ ns) l f = elim (Bool-cases (is_same a n)) [
  | inl e ↦ let g : any (is_same n) seen ≡ false = rw (same_network a n e) at f in ground arith
  | inr e ↦ ground (arith, unique_keeps a seen ns, unique_keeps a (n ∷ seen) ns)
]

same_or_apart : (a b : Network) → clash a b ≡ false → (is_same a b ≡ true) ⊎ (overlaps a b ≡ false)
unfolding clash overlaps
same_or_apart a b h = ground arith

no_clash :
    (ns : List Network) (a b : Network)
    → overlap_problem ns ≡ none
    → Listed a ns
    → Listed b ns
    → clash a b ≡ false
unfolding overlap_problem
no_clash ns a b h l k =
    scan-none a b [] (unique [] ns) h (unique_keeps a [] ns l refl) (unique_keeps b [] ns k refl)

-- If no problem is found, any two of the subnets are the same one or do not overlap.
pub overlap_problem-none :
    (ns : List Network) (a b : Network)
    → overlap_problem ns ≡ none
    → Listed a ns
    → Listed b ns
    → (is_same a b ≡ true) ⊎ (overlaps a b ≡ false)
unfolding overlap_problem
overlap_problem-none ns a b h l k = same_or_apart a b (no_clash ns a b h l k)

over_management-none :
    (mgmt n : Network) (ns : List Network)
    → over_management mgmt ns ≡ none
    → Listed n ns
    → overlaps n mgmt ≡ false
unfolding over_management
over_management-none mgmt n [] h l = absurd (ground arith)
over_management-none mgmt n (m ∷ ns) h l = elim (Bool-cases (is_same n m)) [
  | inl e ↦ rw (same_network n m e) (ground arith)
  | inr e ↦ over_management-none mgmt n ns (ground arith) (ground arith)
]

clashing-none : (o : Option (Network × Network)) → clashing o ≡ none → o ≡ none
clashing-none none h = refl
clashing-none (some (a, b)) h = absurd (ground arith)

or_else-none {ℓ} : {A : Type ℓ} (a b : Option A) → or_else a b ≡ none → (a ≡ none) × (b ≡ none)
or_else-none none b h = (refl, h)
or_else-none (some x) b h = absurd (ground arith)

problem_parts :
    (nics : List Nic) (mgmt d4 d6 : Network)
    → network_problem nics mgmt d4 d6 ≡ none
    → (any is_explicit nics && ltb 8 (length nics) ≡ false)
      × (over_management mgmt (map (net4_of d4) nics) ≡ none)
      × (overlap_problem (d4 ∷ map (net4_of d4) nics) ≡ none)
      × (overlap_problem (d6 ∷ map (net6_of d6) nics) ≡ none)
unfolding network_problem data_networks
problem_parts nics mgmt d4 d6 h = elim (Bool-cases (any is_explicit nics && ltb 8 (length nics))) [
  | inl e ↦ absurd (ground arith)
  | inr e ↦
      let (m, rest) = or_else-none _ _ (rw (e, network_problem, data_networks) at h) in
      let (four, six) = or_else-none _ _ rest in (e, m, clashing-none _ four, clashing-none _ six)
]

-- A layout without a problem has at most 8 NICs unless all of them are implicit; none of its IPv4
-- subnets overlaps the management one, and two subnets of one family, the default one included, are
-- the same or do not overlap.
pub network_problem-none :
    (nics : List Nic) (mgmt d4 d6 : Network)
    → network_problem nics mgmt d4 d6 ≡ none
    → ((any is_explicit nics ≡ false) ⊎ (length nics ≤ 8))
      × ((n : Network) → Listed n (map (net4_of d4) nics) → overlaps n mgmt ≡ false)
      × ((a b : Network)
          → Listed a (d4 ∷ map (net4_of d4) nics)
          → Listed b (d4 ∷ map (net4_of d4) nics)
          → (is_same a b ≡ true) ⊎ (overlaps a b ≡ false))
      × ((a b : Network)
          → Listed a (d6 ∷ map (net6_of d6) nics)
          → Listed b (d6 ∷ map (net6_of d6) nics)
          → (is_same a b ≡ true) ⊎ (overlaps a b ≡ false))
network_problem-none nics mgmt d4 d6 h =
    let (few, m, four, six) = problem_parts nics mgmt d4 d6 h in
    (
      ground arith,
      λ n l. over_management-none mgmt n _ m l,
      λ a b l k. overlap_problem-none _ a b four l k,
      λ a b l k. overlap_problem-none _ a b six l k,
    )
