-- ===== src/Net/Alloc/Laws.antt =====
-- What an allocation gives: addresses that no VM has and that differ from each other.
use lustre_test_vms.Base.{
  ℕ, suc, ◌≢◌, sym, ◌++◌, ◌||◌, ◌==◌, true, ◌+◌, ◌*◌, ◌/◌, ◌%◌, ◌≤◌, ◌<◌, ◌≡◌, refl, subst, inl,
  inr, String, false, Option, none, some, List, [], ◌∷◌, length, arith, contains, nat_eq, string_eq,
  Bool-cases, Option-cases,
}
use lustre_test_vms.Result.{Result, ok, err, Result-cases}
use lustre_test_vms.Net.Pool.{Network}
use lustre_test_vms.Net.Overlap.{Nic, net4_of, net6_of}
use lustre_test_vms.Net.Alloc.{
  Site, Seeds, Stored, gone, corrupt, Peer, peer, given, add_peer, Reserved, nic_address,
  nic_address6, unused6, prepend, alloc_nics, stored_overlap, alloc_locked, nic_network_problem,
  data_defaults, alloc_vm_addresses, stored_address_state, hextet, nic_ip6, primary_address,
  or_value_error, validate_explicit_ip, subnet_for_nic,
}
use lustre_test_vms.Net.Pool.Laws.{default_address_sound, select_address_sound}

-- None of the addresses is in use, and each differs from those before it.
abbrev pub Fresh : List ℕ → List ℕ → Type 0
Fresh used [] = Unit
Fresh used (a ∷ rest) = (contains used a ≡ false) × Fresh (a ∷ used) rest

or_value_error_ok : (o : Option ℕ) (a : ℕ) → or_value_error o ≡ ok a → o ≡ some a
or_value_error_ok none a e = absurd (ground arith)
or_value_error_ok (some b) a e = ground arith

nic_address_fresh :
    (s : Site) (h : Seeds) (i : ℕ) (n : Nic) (net4 : Network) (used : List ℕ) (a : ℕ)
    → nic_address s h i n net4 used ≡ ok a
    → contains used a ≡ false
unfolding nic_address
nic_address_fresh s h i n net4 used a e = elim (Option-cases n.subnet) [
  | inr (x, given) ↦
      (select_address_sound h.long net4 used a
        (or_value_error_ok _ a (rw (given, nic_address) at e))).4
  | inl implicit ↦ elim (Result-cases (subnet_for_nic s (suc i))) [
    | inr (x, p) ↦ absurd (ground arith)
    | inl (prefix, p) ↦
        (default_address_sound h.short prefix used a
          (or_value_error_ok _ a (rw (implicit, p, nic_address) at e))).2
  ]
]

unused6_ok : (a b : ℕ) (used : List ℕ) → unused6 a used ≡ ok b → contains used b ≡ false
unfolding unused6
unused6_ok a b used e = ground arith

abbrev Good : List ℕ → List ℕ → List Nic → Result (List ℕ × List ℕ) → Type 0
Good used4 used6 ns (err e) = Unit
Good used4 used6 ns (ok (ips, ip6s)) =
    Fresh used4 ips × Fresh used6 ip6s × (length ips ≡ length ns) × (length ip6s ≡ length ns)

prepend-Good :
    (used4 used6 : List ℕ) (n : Nic) (ns : List Nic) (a b : ℕ) (r : Result (List ℕ × List ℕ))
    → contains used4 a ≡ false
    → contains used6 b ≡ false
    → Good (a ∷ used4) (b ∷ used6) ns r
    → Good used4 used6 (n ∷ ns) (prepend a b r)
prepend-Good used4 used6 n ns a b (err e) f g h = tt
prepend-Good used4 used6 n ns a b (ok (ips, ip6s)) f g h =
    ((f, h.0), (g, h.1), omega (arith, h.2), omega (arith, h.3))

alloc_nics-Good :
    (s : Site) (h : Seeds) (d4 d6 : Network) (i : ℕ) (ns : List Nic) (used4 used6 : List ℕ)
    → Good used4 used6 ns (alloc_nics s h d4 d6 i ns used4 used6)
unfolding alloc_nics
alloc_nics-Good s h d4 d6 i [] used4 used6 = (tt, tt, refl, refl)
alloc_nics-Good s h d4 d6 i (n ∷ ns) used4 used6 =
    elim (Result-cases (nic_address s h i n (net4_of d4 n) used4)) [
      | inr (x, e) ↦ rw (e, alloc_nics) tt
      | inl (a, e) ↦ elim (Result-cases (nic_address6 s h n (net6_of d6 n) a used6)) [
        | inr (x, f) ↦ rw (e, f, alloc_nics) tt
        | inl (a6, f) ↦ elim (Result-cases (unused6 a6 used6)) [
          | inr (x, g) ↦ rw (e, f, g, alloc_nics) tt
          | inl (b, g) ↦
              rw (e, f, g, alloc_nics)
                (prepend-Good used4 used6 n ns a b _
                  (nic_address_fresh s h i n (net4_of d4 n) used4 a e) (unused6_ok a6 b used6 g)
                  (alloc_nics-Good s h d4 d6 (suc i) ns (a ∷ used4) (b ∷ used6)))
        ]
      ]
    ]

validate_explicit_ip_ok :
    (s : Site) (text : Option ℕ) (a : ℕ)
    → validate_explicit_ip s text ≡ ok a
    → (s.management + 2 ≤ a) × (a ≤ s.management + 254)
unfolding validate_explicit_ip
validate_explicit_ip_ok s none a e = absurd (ground arith)
validate_explicit_ip_ok s (some x) a e = (ground arith, ground arith)

primary_address_fresh :
    (s : Site) (h : Seeds) (explicit : Option (Option ℕ)) (used : List ℕ) (a : ℕ)
    → primary_address s h explicit used ≡ ok a
    → (s.management + 2 ≤ a) × (a ≤ s.management + 254) × (contains used a ≡ false)
unfolding primary_address validate_explicit_ip
primary_address_fresh s h none used a e =
    let (low, high, free) =
      default_address_sound h.short s.management used a (or_value_error_ok _ a e) in
    (omega arith, omega arith, free)
primary_address_fresh s h (some text) used a e = elim (Result-cases (validate_explicit_ip s text)) [
  | inr (x, p) ↦ absurd (ground arith)
  | inl (x, p) ↦
      let same : x ≡ a = ground arith in
      let (low, high) = validate_explicit_ip_ok s text a (rw same at p) in (low, high, ground arith)
]

-- What an allocation beside what is reserved gives.
abbrev pub Allocated : Reserved → List Nic → Result (List ℕ × List ℕ) → Type 0
Allocated r nics (err e) = Unit
Allocated r nics (ok (ips, ip6s)) =
    Fresh r.used4 ips
    × Fresh r.used6 ip6s
    × (length ips ≡ suc (length nics))
    × (length ip6s ≡ length nics)

alloc_locked-Allocated :
    (s : Site) (h : Seeds) (d4 d6 : Network) (nics : List Nic) (explicit : Option (Option ℕ))
    (r : Reserved)
    → Allocated r nics (alloc_locked s h d4 d6 nics explicit r)
unfolding alloc_locked
alloc_locked-Allocated s h d4 d6 nics explicit r = elim (Bool-cases (stored_overlap d4 d6 nics r)) [
  | inl e ↦ rw (e, alloc_locked) tt
  | inr e ↦ elim (Result-cases (primary_address s h explicit r.used4)) [
    | inr (x, f) ↦ rw (e, f, alloc_locked) tt
    | inl (a, f) ↦ elim (Result-cases (alloc_nics s h d4 d6 0 nics (a ∷ r.used4) r.used6)) [
      | inr (x, g) ↦ rw (e, f, g, alloc_locked) tt
      | inl ((ips, ip6s), g) ↦
          let good = rw g at (alloc_nics-Good s h d4 d6 0 nics (a ∷ r.used4) r.used6) in
          rw (e, f, g, alloc_locked)
            (
              ((primary_address_fresh s h explicit r.used4 a f).2, good.0),
              good.1,
              omega (arith, good.2),
              good.3,
            )
    ]
  ]
]

-- A VM that is stored, other than the one of a name, has an address.
abbrev pub Taken : (Peer → List (Option ℕ)) → String → List (String × Stored) → ℕ → Type 0
Taken addresses name vms a =
    (before : List (String × Stored)) × (after : List (String × Stored)) × (other : String)
    × (p : Peer) × (bs : List (Option ℕ)) × (cs : List (Option ℕ)) × (vms
        ≡ before ++ ((other, peer p) ∷ after))
    × (other ≢ name)
    × (addresses p ≡ bs ++ (some a ∷ cs))

-- The IPv4 addresses of a VM, that of its management NIC first, and its IPv6 addresses.
abbrev pub ips_of : Peer → List (Option ℕ)
ips_of p = p.ip ∷ p.nic_ips

abbrev pub ip6s_of : Peer → List (Option ℕ)
ip6s_of p = p.nic_ip6s

contains-given : (bs cs : List (Option ℕ)) (a : ℕ) → contains (given (bs ++ (some a ∷ cs))) a ≡ true
contains-given [] cs a = ground arith
contains-given (none ∷ bs) cs a = contains-given bs cs a
contains-given (some b ∷ bs) cs a = ground (arith, contains-given bs cs a)

contains-append :
    (xs ys : List ℕ) (a : ℕ) → contains (xs ++ ys) a ≡ (contains xs a || contains ys a)
contains-append [] ys a = refl
contains-append (x ∷ xs) ys a = ground (arith, contains-append xs ys a)

-- The addresses of a peer are reserved.
abbrev Reserves : Reserved → Peer → Type 0
Reserves r p =
    ((a : ℕ) → contains (given (ips_of p)) a ≡ true → contains r.used4 a ≡ true)
    × ((a : ℕ) → contains (given (ip6s_of p)) a ≡ true → contains r.used6 a ≡ true)

add_peer-Reserves : (p : Peer) (r : Reserved) → Reserves (add_peer p r) p
add_peer-Reserves p r = (
  λ a. (λ h. ground (arith, contains-append (given (ips_of p)) r.used4 a)),
  λ a. (λ h. ground (arith, contains-append (given (ip6s_of p)) r.used6 a)),
)

add_peer-keeps : (q p : Peer) (r : Reserved) → Reserves r p → Reserves (add_peer q r) p
add_peer-keeps q p r (f, g) = (
  λ a. (λ h. ground (arith, contains-append (given (ips_of q)) r.used4 a, f a h)),
  λ a. (λ h. ground (arith, contains-append (given (ip6s_of q)) r.used6 a, g a h)),
)

stored_address_state-Reserves :
    (name other : String) (p : Peer) (before after : List (String × Stored)) (r : Reserved)
    → other ≢ name
    → stored_address_state name (before ++ ((other, peer p) ∷ after)) ≡ ok r
    → Reserves r p
unfolding stored_address_state
stored_address_state-Reserves name other p [] after r d e = elim (Bool-cases (other == name)) [
  | inl s ↦ absurd (d (ground arith))
  | inr s ↦ elim (Result-cases (stored_address_state name after)) [
    | inr (x, f) ↦ absurd (ground arith)
    | inl (rest, f) ↦
        let one : add_peer p rest ≡ r = ground arith in
        subst (λ u. Reserves u p) one (add_peer-Reserves p rest)
  ]
]
stored_address_state-Reserves name other p ((n, gone) ∷ before) after r d e =
    stored_address_state-Reserves name other p before after r d (ground arith)
stored_address_state-Reserves name other p ((n, corrupt) ∷ before) after r d e =
    stored_address_state-Reserves name other p before after r d (ground arith)
stored_address_state-Reserves name other p ((n, peer q) ∷ before) after r d e =
    elim (Bool-cases (n == name)) [
      | inl s ↦ stored_address_state-Reserves name other p before after r d (ground arith)
      | inr s ↦
          elim (Result-cases (stored_address_state name (before ++ ((other, peer p) ∷ after)))) [
            | inr (x, f) ↦ absurd (ground arith)
            | inl (rest, f) ↦
                let one : add_peer q rest ≡ r = ground arith in
                subst (λ u. Reserves u p) one
                  (add_peer-keeps q p rest
                    (stored_address_state-Reserves name other p before after rest d f))
          ]
    ]

Fresh-contains :
    (used ips : List ℕ) (a : ℕ) → Fresh used ips → contains ips a ≡ true → contains used a ≡ false
Fresh-contains used [] a f h = absurd (ground arith)
Fresh-contains used (b ∷ ips) a (free, rest) h = elim (Bool-cases (a == b)) [
  | inl e ↦ ground arith
  | inr e ↦ ground (arith, Fresh-contains (b ∷ used) ips a rest)
]

Fresh-less :
    (used less ips : List ℕ)
    → ((a : ℕ) → contains used a ≡ false → contains less a ≡ false)
    → Fresh used ips
    → Fresh less ips
Fresh-less used less [] sub f = tt
Fresh-less used less (b ∷ ips) sub (free, rest) =
    (sub b free, Fresh-less (b ∷ used) (b ∷ less) ips (λ a. (λ h. ground (arith, sub a))) rest)

reserved_runs :
    (s : Site) (h : Seeds) (vms : List (String × Stored)) (name : String) (nics : List Nic)
    (explicit : Option (Option ℕ)) (ips ip6s : List ℕ)
    → alloc_vm_addresses s h vms name nics explicit ≡ ok (ips, ip6s)
    → (r : Reserved) × (stored_address_state name vms ≡ ok r)
      × Fresh r.used4 ips
      × Fresh r.used6 ip6s
      × (length ips ≡ suc (length nics))
      × (length ip6s ≡ length nics)
unfolding alloc_vm_addresses
reserved_runs s h vms name nics explicit ips ip6s e =
    elim (Result-cases (stored_address_state name vms)) [
      | inr (x, f) ↦ absurd (ground arith)
      | inl (r, f) ↦ elim (Result-cases (nic_network_problem s nics)) [
        | inr (x, g) ↦ absurd (ground arith)
        | inl (some p, g) ↦ absurd (ground arith)
        | inl (none, g) ↦ elim (Result-cases (data_defaults s)) [
          | inr (x, d) ↦ absurd (ground arith)
          | inl ((mgmt, d4, d6), d) ↦
              let locked : alloc_locked s h d4 d6 nics explicit r ≡ ok (ips, ip6s) =
                rw (g, d, f, alloc_vm_addresses) at e in
              let (four, six, n4, n6) =
                subst (Allocated r nics) locked
                  (alloc_locked-Allocated s h d4 d6 nics explicit r) in
              (r, f, four, six, n4, n6)
        ]
      ]
    ]

-- An allocation that succeeds gives each NIC an address and an IPv6 address, and the VM one more
-- address; no other VM that is stored has one of them, for its management or for another NIC, and no two of
-- one kind are the same.
pub alloc_vm_addresses-Fresh :
    (s : Site) (h : Seeds) (vms : List (String × Stored)) (name : String) (nics : List Nic)
    (explicit : Option (Option ℕ)) (ips ip6s : List ℕ)
    → alloc_vm_addresses s h vms name nics explicit ≡ ok (ips, ip6s)
    → ((a : ℕ) → contains ips a ≡ true → ¬ Taken ips_of name vms a)
      × ((a : ℕ) → contains ip6s a ≡ true → ¬ Taken ip6s_of name vms a)
      × Fresh [] ips
      × Fresh [] ip6s
      × (length ips ≡ suc (length nics))
      × (length ip6s ≡ length nics)
alloc_vm_addresses-Fresh s h vms name nics explicit ips ip6s e =
    let (r, stored, four, six, n4, n6) = reserved_runs s h vms name nics explicit ips ip6s e in
    (
      λ a m (before, after, other, p, bs, cs, same, d, has).
          let held =
            stored_address_state-Reserves name other p before after r d
              (subst (λ l. stored_address_state name l ≡ ok r) same stored) in
          let there : contains (given (ips_of p)) a ≡ true =
            subst (λ l. contains (given l) a ≡ true) (sym has) (contains-given bs cs a) in
          absurd (ground (arith, held.0 a there, Fresh-contains r.used4 ips a four m)),
      λ a m (before, after, other, p, bs, cs, same, d, has).
          let held =
            stored_address_state-Reserves name other p before after r d
              (subst (λ l. stored_address_state name l ≡ ok r) same stored) in
          let there : contains (given (ip6s_of p)) a ≡ true =
            subst (λ l. contains (given l) a ≡ true) (sym has) (contains-given bs cs a) in
          absurd (ground (arith, held.1 a there, Fresh-contains r.used6 ip6s a six m)),
      Fresh-less r.used4 [] ips (λ a. (λ f. refl)) four,
      Fresh-less r.used6 [] ip6s (λ a. (λ f. refl)) six,
      n4,
      n6,
    )

hextet_range : (o : ℕ) → o < 256 → (hextet o < 65536) × (61440 ≤ hextet o)
hextet_range o l = (omega arith, omega arith)

hextet_injective : (o p : ℕ) → o < 256 → p < 256 → hextet o ≡ hextet p → o ≡ p
hextet_injective o p l m e = omega arith

same_digits :
    {p q r s t u v w : ℕ}
    → q < 65536
    → r < 65536
    → s < 65536
    → u < 65536
    → v < 65536
    → w < 65536
    → ((p * 65536 + q) * 65536 + r) * 65536 + s ≡ ((t * 65536 + u) * 65536 + v) * 65536 + w
    → (p ≡ t) × (q ≡ u) × (r ≡ v) × (s ≡ w)
same_digits a b c d e f h = (omega arith, omega arith, omega arith, omega arith)

without_base : (base x y s w : ℕ) → base + x + s ≡ base + y + w → x + s ≡ y + w
without_base base x y s w e = omega arith

byte_hextet : (x y : ℕ) → hextet (x % 256) ≡ hextet (y % 256) → x % 256 ≡ y % 256
byte_hextet x y e = hextet_injective (x % 256) (y % 256) (omega arith) (omega arith) e

small : (x : ℕ) → hextet (x % 256) < 65536
small x = (hextet_range (x % 256) (omega arith)).0

same_bytes :
    (a b : ℕ)
    → a < 4294967296
    → b < 4294967296
    → a / 16777216 % 256 ≡ b / 16777216 % 256
    → a / 65536 % 256 ≡ b / 65536 % 256
    → a / 256 % 256 ≡ b / 256 % 256
    → a % 256 ≡ b % 256
    → a ≡ b
same_bytes a b l m e f g h = omega arith

-- Two addresses that get the same IPv6 address in one /64 are the same address.
pub nic_ip6_injective :
    (base a b : ℕ) → a < 4294967296 → b < 4294967296 → nic_ip6 base a ≡ nic_ip6 base b → a ≡ b
unfolding nic_ip6
nic_ip6_injective base a b l m e =
    let (p, q, r, s) =
      same_digits (small (a / 65536)) (small (a / 256)) (small a) (small (b / 65536))
        (small (b / 256)) (small b) (without_base base _ _ _ _ e) in
    same_bytes a b l m (byte_hextet (a / 16777216) (b / 16777216) p)
      (byte_hextet (a / 65536) (b / 65536) q) (byte_hextet (a / 256) (b / 256) r)
      (byte_hextet a b s)
