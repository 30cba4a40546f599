-- ===== src/Net/Pool/Laws.antt =====
-- What a pool gives is a free host of the pool, and it gives one while there is one.
use native.Mathlib.Nat.{mod-lt, mod-eq_of_lt, add-mod-mod, add-mod_right}
use native.Mathlib.Decide.{ℕ_discrete}
use lustre_test_vms.Base.{
  ap, ◌∙◌, ℕ, zero, suc, ◌+◌, ◌-◌, ◌%◌, ◌≤◌, ◌<◌, ◌≡◌, refl, inl, inr, Bool, true, false, Option,
  none, some, List, arith, contains, nat_eq, Option-cases,
}
use lustre_test_vms.Net.Pool.{
  offset_by, first_free, default_address, Network, ipv4, host_count, select_address,
}

module _ (taken : ℕ → Bool) (start n : ℕ) where
  first_free_sound :
      (rounds delta : ℕ) (i : ℕ)
      → 0 < n
      → first_free taken start n rounds delta ≡ some i
      → (i < n) × (taken i ≡ false)
  unfolding first_free
  first_free_sound zero delta i p h = absurd (ground arith)
  first_free_sound (suc rounds) delta i p h =
      ground (arith, first_free_sound rounds (suc delta) i p, mod-lt (start + delta) p)

  -- Every index that the rounds left reach is taken.
  first_free-none :
      (rounds delta d : ℕ)
      → first_free taken start n rounds delta ≡ none
      → delta ≤ d
      → d < delta + rounds
      → taken ((start + d) % n) ≡ true
  unfolding first_free
  first_free-none zero delta d h l u = absurd (omega arith)
  first_free-none (suc rounds) delta d h l u = elim (ℕ_discrete d delta) [
    | yes e ↦ rw e (ground arith)
    | no e ↦ first_free-none rounds (suc delta) d (ground arith) (omega arith) (omega arith)
  ]

  -- The scan goes round the whole pool.
  first_free_complete :
      (k : ℕ) → start < n → k < n → first_free taken start n n 0 ≡ none → taken k ≡ true
  first_free_complete k l u h =
      let d : ℕ = (k + (n - start)) % n in
      let bound : d < n = mod-lt (k + (n - start)) (omega arith) in
      let back : (start + d) % n ≡ k =
        add-mod-mod start (k + (n - start)) n
        ∙ (ap (λ x. x % n) (omega arith) ∙ (add-mod_right k n ∙ mod-eq_of_lt u)) in
      rw back at (first_free-none n 0 d h (omega arith) (omega arith))

offset_by-none : (base : ℕ) (o : Option ℕ) → offset_by base o ≡ none → o ≡ none
offset_by-none base none h = refl
offset_by-none base (some i) h = absurd (ground arith)

-- A default address is one of the hosts .10 to .253 of its /24, and it is free.
pub default_address_sound :
    (seed net : ℕ) (used : List ℕ) (a : ℕ)
    → default_address seed net used ≡ some a
    → (net + 10 ≤ a) × (a ≤ net + 253) × (contains used a ≡ false)
unfolding default_address
default_address_sound seed net used a h =
    elim (Option-cases (first_free (λ i. contains used (net + 10 + i)) (seed % 244) 244 244 0)) [
      | inl e ↦ absurd (ground arith)
      | inr (i, e) ↦
          let (below, unused) =
            first_free_sound (λ i. contains used (net + 10 + i)) (seed % 244) 244 244 0 i
              (omega arith) e in
          let same : net + 10 + i ≡ a = ground arith in
          (ground arith, ground arith, rw same at unused)
    ]

-- There is a default address as long as one of the 244 hosts is free.
pub default_address_complete :
    (seed net : ℕ) (used : List ℕ)
    → default_address seed net used ≡ none
    → (host : ℕ) → 10 ≤ host
    → host ≤ 253
    → contains used (net + host) ≡ true
unfolding default_address
default_address_complete seed net used h host l u =
    let e : first_free (λ i. contains used (net + 10 + i)) (seed % 244) 244 244 0 ≡ none =
      offset_by-none (net + 10) _ h in
    let same : net + 10 + (host - 10) ≡ net + host = omega arith in
    rw same at (
      first_free_complete (λ i. contains used (net + 10 + i)) (seed % 244) 244 (host - 10)
        (mod-lt seed (omega arith)) (omega arith) e)

-- A selected address is inside the network: not its first address, for IPv4 not its last one, among the
-- first 65534 hosts, and free.
pub select_address_sound :
    (seed : ℕ) (n : Network) (used : List ℕ) (a : ℕ)
    → select_address seed n used ≡ some a
    → (n.first < a)
      × (a < n.first + n.size)
      × (n.family ≡ ipv4 → a < n.first + n.size - 1)
      × (a ≤ n.first + 65534)
      × (contains used a ≡ false)
unfolding select_address
select_address_sound seed n used a h =
    elim (Option-cases (
      first_free (λ i. contains used (n.first + 1 + i)) (seed % host_count n) (host_count n)
        (host_count n) 0)) [
          | inl e ↦ absurd (ground arith)
          | inr (i, e) ↦
              let (below, unused) =
                first_free_sound (λ i. contains used (n.first + 1 + i)) (seed % host_count n)
                  (host_count n) (host_count n) 0 i (ground arith) e in
              let same : n.first + 1 + i ≡ a = ground arith in
              (ground arith, ground arith, λ four. ground arith, ground arith, rw same at unused)
        ]

-- There is an address as long as one of the hosts that are tried is free.
pub select_address_complete :
    (seed : ℕ) (n : Network) (used : List ℕ)
    → select_address seed n used ≡ none
    → (host : ℕ) → 1 ≤ host
    → host ≤ host_count n
    → contains used (n.first + host) ≡ true
unfolding select_address
select_address_complete seed n used h host l u =
    let e : first_free (λ i. contains used (n.first + 1 + i)) (seed % host_count n) (host_count n)
          (host_count n) 0
        ≡ none =
      ground arith in
    let same : n.first + 1 + (host - 1) ≡ n.first + host = omega arith in
    rw same at (
      first_free_complete (λ i. contains used (n.first + 1 + i)) (seed % host_count n)
        (host_count n) (host - 1) (mod-lt seed (omega arith)) (omega arith) e)
