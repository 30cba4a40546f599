-- ===== src/Targets/Kernels/Pinned.antt =====
-- That a variant with a pinned kernel gets no other.
use lustre_test_vms.Base.{
  ◌≡◌, ◌≢◌, refl, sym, subst, ◌∙◌, ◌⊎◌, inl, inr, Bool, true, false, ◌&&◌, ◌||◌, Option, none, some,
  List, [], ◌∷◌, ◌++◌, arith, ◌==◌, nat_eq, Bool-cases, Option-cases,
}
use lustre_test_vms.Result.{ok}
use lustre_test_vms.Qemu.{strip, same_codes}
use lustre_test_vms.Qemu.Identity.{same_codes_sound}
use lustre_test_vms.Vm.Files.Laws.{same_codes_refl}
use lustre_test_vms.Targets.Kernels.{
  Name, Built, Config, extends, is_among, resolve_kernel_dir, is_version, before_tail,
  declared_short, short_kernel_name, resolve_kernel,
}
use lustre_test_vms.Targets.Kernels.Resolve.{resolve_kernel_dir-IsNewest}

-- A name is another, or begins with it and a dash.
abbrev starts : Name → Name → Bool
starts short name = same_codes name short || extends short name

strip_trans :
    (a n t r s u : Name)
    → strip a n ≡ some s
    → strip (n ++ t) r ≡ some u
    → (v : Name) × (strip a r ≡ some v)
strip_trans [] n t r s u h k = (r, refl)
strip_trans (x ∷ a) [] t r s u h k = absurd (ground arith)
strip_trans (x ∷ a) (y ∷ n) t [] s u h k = absurd (ground arith)
strip_trans (x ∷ a) (y ∷ n) t (z ∷ r) s u h k =
    let rest = strip_trans a n t r s u (ground arith) (ground arith) in
    (rest.0, ground (arith, rest.1))

starts_trans :
    (p n r : Name) → starts p n ≡ true → (r ≡ n) ⊎ (extends n r ≡ true) → starts p r ≡ true
unfolding extends
starts_trans p n r h (inl e) = subst (λ x. starts p x ≡ true) (sym e) h
starts_trans p n r h (inr e) = elim (Bool-cases (same_codes n p)) [
  | inl s ↦ subst (λ x. starts x r ≡ true) (same_codes_sound n p s) (ground (arith, e))
  | inr s ↦ elim (Option-cases (strip (p ++ (45 ∷ [])) n)) [
    | inl z ↦ absurd (ground arith)
    | inr (t, z) ↦ elim (Option-cases (strip (n ++ (45 ∷ [])) r)) [
      | inl y ↦ absurd (ground arith)
      | inr (u, y) ↦
          let both = strip_trans (p ++ (45 ∷ [])) n (45 ∷ []) r t u z y in ground (arith, both.1)
    ]
  ]
]

two_prefixes :
    (p q n s t : Name)
    → strip (p ++ (45 ∷ [])) n ≡ some s
    → strip (q ++ (45 ∷ [])) n ≡ some t
    → (p ≡ q) ⊎ ((extends p q ≡ true) ⊎ (extends q p ≡ true))
unfolding extends
two_prefixes [] [] n s t h k = inl refl
two_prefixes p q [] s t h k = absurd (no_room p s h)
  where
    no_room : (a b : Name) → strip (a ++ (45 ∷ [])) [] ≢ some b
    no_room [] b e = ground arith
    no_room (_ ∷ _) b e = ground arith
two_prefixes [] (y ∷ q) (z ∷ n) s t h k = inr (inl (ground arith))
two_prefixes (x ∷ p) [] (z ∷ n) s t h k = inr (inr (ground arith))
two_prefixes (x ∷ p) (y ∷ q) (z ∷ n) s t h k =
    elim (two_prefixes p q n s t (ground arith) (ground arith)) [
      | inl e ↦ inl (ground arith)
      | inr (inl e) ↦ inr (inl (ground (arith, e)))
      | inr (inr e) ↦ inr (inr (ground (arith, e)))
    ]

starts_both :
    (p q n : Name)
    → starts p n ≡ true
    → starts q n ≡ true
    → (p ≡ q) ⊎ ((extends p q ≡ true) ⊎ (extends q p ≡ true))
unfolding extends
starts_both p q n h k = elim (Bool-cases (same_codes n p)) [
  | inl s ↦ elim (Bool-cases (same_codes n q)) [
    | inl t ↦ inl (sym (same_codes_sound n p s) ∙ same_codes_sound n q t)
    | inr t ↦ inr (inr (subst (λ x. extends q x ≡ true) (same_codes_sound n p s) (ground arith)))
  ]
  | inr s ↦ elim (Bool-cases (same_codes n q)) [
    | inl t ↦ inr (inl (subst (λ x. extends p x ≡ true) (same_codes_sound n q t) (ground arith)))
    | inr t ↦ elim (Option-cases (strip (p ++ (45 ∷ [])) n)) [
      | inl z ↦ absurd (ground arith)
      | inr (u, z) ↦ elim (Option-cases (strip (q ++ (45 ∷ [])) n)) [
        | inl y ↦ absurd (ground arith)
        | inr (v, y) ↦ two_prefixes p q n u v z y
      ]
    ]
  ]
]

-- No name of the list begins with another and a dash.
unfoldable pub PrefixFree : List Name → Type 0
PrefixFree ns = (a b : Name) → is_among a ns ≡ true → is_among b ns ≡ true → extends a b ≡ false

declared_short-first :
    (ns some_ns : List Name) (p n : Name)
    → PrefixFree ns
    → ((q : Name) → is_among q some_ns ≡ true → is_among q ns ≡ true)
    → is_among p ns ≡ true
    → is_among p some_ns ≡ true
    → starts p n ≡ true
    → declared_short some_ns n ≡ some p
unfolding PrefixFree declared_short
declared_short-first ns [] p n free sub at here h = absurd (ground arith)
declared_short-first ns (q ∷ qs) p n free sub at here h = elim (Bool-cases (starts q n)) [
  | inl s ↦
      let q_in = sub q (ground (arith, same_codes_refl q)) in
      elim (starts_both p q n h s) [
        | inl e ↦ ground (arith, e)
        | inr (inl e) ↦ absurd (ground (arith, e, free p q at q_in))
        | inr (inr e) ↦ absurd (ground (arith, e, free q p q_in at))
      ]
  | inr s ↦ elim (Bool-cases (same_codes p q)) [
    | inl e ↦ absurd (ground (arith, same_codes_sound p q e, h, s))
    | inr e ↦ ground (
      arith,
      declared_short-first ns qs p n free (λ x. (λ m. sub x (ground arith))) at (ground arith) h,
    )
  ]
]

declared_short-starts :
    (ns : List Name) (n p : Name) → declared_short ns n ≡ some p → starts p n ≡ true
unfolding declared_short
declared_short-starts [] n p h = absurd (ground arith)
declared_short-starts (q ∷ qs) n p h = elim (Bool-cases (starts q n)) [
  | inl s ↦ let one : q ≡ p = ground arith in subst (λ x. starts x n ≡ true) one s
  | inr s ↦ declared_short-starts qs n p (ground arith)
]

before_tail-strip :
    (n p : Name) → before_tail n ≡ some p → (r : Name) × (strip (p ++ (45 ∷ [])) n ≡ some r)
unfolding before_tail
before_tail-strip [] p h = absurd (ground arith)
before_tail-strip (c ∷ cs) p h = elim (Bool-cases (c == 45 && is_version 2 false cs)) [
  | inl v ↦ (cs, let one : p ≡ [] = ground arith in ground (arith, one))
  | inr v ↦ elim (Option-cases (before_tail cs)) [
    | inl z ↦ absurd (ground arith)
    | inr (q, z) ↦
        let rest = before_tail-strip cs q z in
        let one : p ≡ c ∷ q = ground arith in (rest.0, ground (arith, one, rest.1))
  ]
]

-- A name is its short name, or begins with it and a dash.
short_kernel_name-starts : (c : Config) (n : Name) → starts (short_kernel_name c n) n ≡ true
unfolding short_kernel_name extends
short_kernel_name-starts c n = elim (Option-cases (declared_short c.available n)) [
  | inr (p, z) ↦
      let turn : short_kernel_name c n ≡ p = ground arith in
      subst (λ x. starts x n ≡ true) (sym turn) (declared_short-starts c.available n p z)
  | inl z ↦ elim (Option-cases (before_tail n)) [
    | inl y ↦
        let turn : short_kernel_name c n ≡ n = ground arith in
        subst (λ x. starts x n ≡ true) (sym turn) (ground (arith, same_codes_refl n))
    | inr (p, y) ↦
        let turn : short_kernel_name c n ≡ p = ground arith in
        subst (λ x. starts x n ≡ true) (sym turn) (ground (arith, (before_tail-strip n p y).1))
  ]
]

resolve_kernel_dir-extends :
    (built : Built) (n : Name)
    → (resolve_kernel_dir built n ≡ n) ⊎ (extends n (resolve_kernel_dir built n) ≡ true)
unfolding resolve_kernel_dir
resolve_kernel_dir-extends none n = inl refl
resolve_kernel_dir-extends (some dirs) n = elim (resolve_kernel_dir-IsNewest dirs n) [
  | inl (same, _) ↦ inl same
  | inr (_, _, ext, _) ↦ inr ext
]

resolved-short :
    (c : Config) (p n : Name)
    → is_among p c.available ≡ true
    → PrefixFree c.available
    → starts p n ≡ true
    → short_kernel_name c (resolve_kernel_dir c.built n) ≡ p
unfolding short_kernel_name
resolved-short c p n declared free h =
    let r = resolve_kernel_dir c.built n in
    let begun = starts_trans p n r h (resolve_kernel_dir-extends c.built n) in
    ground (
      arith,
      declared_short-first c.available c.available p r free (λ q. (λ m. m)) declared declared begun,
    )

-- Where a variant pins a declared kernel, and no declared name begins with another and a dash, every name
-- that resolves, whatever the caller names and whatever is built, is of a kernel with the pinned short name.
pub resolve_kernel_pinned :
    (c : Config) (kernel : Option Name) (p r : Name)
    → c.pinned_kernel ≡ some p
    → is_among p c.available ≡ true
    → PrefixFree c.available
    → resolve_kernel c kernel ≡ ok r
    → short_kernel_name c r ≡ p
unfolding resolve_kernel
resolve_kernel_pinned c none p r pin declared free h =
    let one : resolve_kernel_dir c.built p ≡ r = ground arith in
    subst (λ x. short_kernel_name c x ≡ p) one
      (resolved-short c p p declared free (ground (arith, same_codes_refl p)))
resolve_kernel_pinned c (some n) p r pin declared free h =
    elim (Bool-cases (same_codes (short_kernel_name c n) p)) [
      | inr d ↦ absurd (ground arith)
      | inl s ↦
          let one : resolve_kernel_dir c.built n ≡ r = ground arith in
          let named = same_codes_sound (short_kernel_name c n) p s in
          subst (λ x. short_kernel_name c x ≡ p) one
            (resolved-short c p n declared free
              (subst (λ x. starts x n ≡ true) named (short_kernel_name-starts c n)))
    ]
