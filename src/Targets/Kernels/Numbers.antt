-- ===== src/Targets/Kernels/Numbers.antt =====
-- That versions are compared by their numbers, and not as texts.
use lustre_test_vms.Base.{
  ℕ, ◌+◌, ◌*◌, ◌-◌, ◌<◌, ◌≡◌, refl, subst, inl, inr, Bool, true, false, not, List, [], ◌∷◌, ◌++◌,
  Option, none, some, All, ap, arith, nat_eq, Bool-cases, if◌then◌else◌,
}
use lustre_test_vms.Targets.Kernels.{
  Name, Chunk, number, text, is_digit, split_digits, kernel_dir_version_key, same_chunk, chunk_ltb,
  key_ltb, is_older,
}
use lustre_test_vms.Vm.Files.Laws.{same_codes_refl}

-- The number that digits spell, after a number that was read.
abbrev pub value : ℕ → Name → ℕ
value n [] = n
value n (c ∷ cs) = value (n * 10 + (c - 48)) cs

abbrev pub Digits : Name → Type 0
Digits cs = All (λ c. is_digit c ≡ true) cs

-- Whether a name, after a digit or not, does not end in one.
abbrev pub ends_plain : Bool → Name → Bool
ends_plain inside [] = not inside
ends_plain inside (c ∷ cs) = ends_plain (is_digit c) cs

abbrev pub begins_plain : Name → Bool
begins_plain [] = true
begins_plain (c ∷ cs) = not (is_digit c)

-- Two names are the same up to a number, and the first has the smaller number there.
abbrev pub SmallerNumber : Name → Name → Type 0
SmallerNumber a b =
    (before : Name) × (d : ℕ) × (ds : Name) × (e : ℕ) × (es : Name) × (ra : Name) × (rb : Name) × (a
      ≡ before ++ ((d ∷ ds) ++ ra))
    × (b ≡ before ++ ((e ∷ es) ++ rb))
    × (ends_plain false before ≡ true)
    × Digits (d ∷ ds)
    × Digits (e ∷ es)
    × (begins_plain ra ≡ true)
    × (begins_plain rb ≡ true)
    × (value 0 (d ∷ ds) < value 0 (e ∷ es))

split_number :
    (n : ℕ) (ds r : Name)
    → Digits ds
    → begins_plain r ≡ true
    → (rest : List Chunk) × (split_digits (some n) [] (ds ++ r) ≡ number (value n ds) ∷ rest)
unfolding split_digits
split_number n [] [] d p = (text [] ∷ [], refl)
split_number n [] (c ∷ r) d p = (split_digits none (c ∷ []) r, ground arith)
split_number n (c ∷ ds) r (h, d) p =
    let (rest, e) = split_number (n * 10 + (c - 48)) ds r d p in (rest, ground (arith, h, e))

same_chunk_refl : (c : Chunk) → same_chunk c c ≡ true
unfolding same_chunk
same_chunk_refl (number a) = ground arith
same_chunk_refl (text a) = same_codes_refl a

key_ltb-same :
    (c : Chunk) (xs ys : List Chunk) → key_ltb xs ys ≡ true → key_ltb (c ∷ xs) (c ∷ ys) ≡ true
unfolding key_ltb
key_ltb-same c xs ys h = ground (arith, same_chunk_refl c, h)

smaller_number :
    (d e : ℕ) (ds es ra rb : Name)
    → Digits ds
    → Digits es
    → begins_plain ra ≡ true
    → begins_plain rb ≡ true
    → value d ds < value e es
    → key_ltb (split_digits (some d) [] (ds ++ ra)) (split_digits (some e) [] (es ++ rb)) ≡ true
unfolding key_ltb same_chunk chunk_ltb
smaller_number d e ds es ra rb p q pa pb l =
    let (xs, x) = split_number d ds ra p pa in
    let (ys, y) = split_number e es rb q pb in rw (x, y) (ground (arith, l))

abbrev state : Bool → ℕ → Option ℕ
state inside n = if inside then some n else none

key_ltb-split :
    (inside : Bool) (n : ℕ) (t before : Name) (d e : ℕ) (ds es ra rb : Name)
    → ends_plain inside before ≡ true
    → Digits (d ∷ ds)
    → Digits (e ∷ es)
    → begins_plain ra ≡ true
    → begins_plain rb ≡ true
    → value 0 (d ∷ ds) < value 0 (e ∷ es)
    → key_ltb
        (split_digits (state inside n) t (before ++ ((d ∷ ds) ++ ra)))
        (split_digits (state inside n) t (before ++ ((e ∷ es) ++ rb)))
      ≡ true
unfolding split_digits
key_ltb-split true n t [] d e ds es ra rb p (x, xs) (y, ys) pa pb l = absurd (ground arith)
key_ltb-split false n t [] d e ds es ra rb p (x, xs) (y, ys) pa pb l =
    let from : (c : ℕ) → 0 * 10 + c ≡ c = λ c. omega arith in
    let low = ap (λ c. value c ds) (from (d - 48)) in
    let high = ap (λ c. value c es) (from (e - 48)) in
    let less : value (d - 48) ds < value (e - 48) es = omega (arith, low, high, l) in
    rw (x, y)
      (key_ltb-same (text t) _ _ (smaller_number (d - 48) (e - 48) ds es ra rb xs ys pa pb less))
key_ltb-split true n t (c ∷ before) d e ds es ra rb p x y pa pb l = elim (Bool-cases (is_digit c)) [
  | inl h ↦
      let q : ends_plain true before ≡ true = subst (λ b. ends_plain b before ≡ true) h p in
      rw (h, split_digits)
        (key_ltb-split true (n * 10 + (c - 48)) [] before d e ds es ra rb q x y pa pb l)
  | inr h ↦
      let q : ends_plain false before ≡ true = subst (λ b. ends_plain b before ≡ true) h p in
      rw (h, split_digits)
        (key_ltb-same (number n) _ _
          (key_ltb-split false 0 (c ∷ []) before d e ds es ra rb q x y pa pb l))
]
key_ltb-split false n t (c ∷ before) d e ds es ra rb p x y pa pb l =
    elim (Bool-cases (is_digit c)) [
      | inl h ↦
          let q : ends_plain true before ≡ true = subst (λ b. ends_plain b before ≡ true) h p in
          rw (h, split_digits)
            (key_ltb-same (text t) _ _
              (key_ltb-split true (c - 48) [] before d e ds es ra rb q x y pa pb l))
      | inr h ↦
          let q : ends_plain false before ≡ true = subst (λ b. ends_plain b before ≡ true) h p in
          rw (h, split_digits)
            (key_ltb-split false 0 (t ++ (c ∷ [])) before d e ds es ra rb q x y pa pb l)
    ]

-- A version that has a smaller number where it first differs in one is older.
pub SmallerNumber-is_older : (a b : Name) → SmallerNumber a b → is_older a b ≡ true
unfolding is_older kernel_dir_version_key
SmallerNumber-is_older a b (before, d, ds, e, es, ra, rb, x, y, p, da, db, pa, pb, l) =
    rw (x, y) (key_ltb-split false 0 [] before d e ds es ra rb p da db pa pb l)
