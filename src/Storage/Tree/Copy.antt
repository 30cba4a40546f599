-- ===== src/Storage/Tree/Copy.antt =====
-- A copy passes its check, and a tree that passes the check answers every path as the source does.
use lustre_test_vms.Base.{
  String, ◌≡◌, ◌≢◌, refl, Bool, true, false, Option, none, some, List, [], ◌∷◌, ◌&&◌, arith,
  string_eq, nat_eq, Option-cases, inl, inr,
}
use lustre_test_vms.Storage.Tree.{
  Tree, file, link, dir, special, Entries, end, entry, copy_tree, copy_entries, find, verify,
  verify_entries, names_in, is_some, counterpart, at_roots, Stat,
}

-- A directory has one entry for each name, at any depth.
abbrev mutual
  pub Distinct : Tree → Type 0
  Distinct (file st bytes) = Unit
  Distinct (link st target) = Unit
  Distinct (dir st es) = DistinctNames es
  Distinct (special st) = Unit

  pub DistinctNames : Entries → Type 0
  DistinctNames end = Unit
  DistinctNames (entry name t es) = (find name es ≡ none) × Distinct t × DistinctNames es

module _ (share setgid : Bool) where
  -- The parts of the copy of an entry.
  pub copy_entries_inv :
      (name : String) (t : Tree) (es fs : Entries)
      → copy_entries share setgid (entry name t es) ≡ some fs
      → (u : Tree) × (gs : Entries) × (copy_tree share setgid t ≡ some u)
        × (copy_entries share setgid es ≡ some gs)
        × (fs ≡ entry name u gs)
  unfolding copy_entries
  copy_entries_inv name t es fs e = elim (Option-cases (copy_tree share setgid t)) [
    | inl p ↦ absurd (ground arith)
    | inr (u, p) ↦ elim (Option-cases (copy_entries share setgid es)) [
      | inl q ↦ absurd (ground arith)
      | inr (gs, q) ↦ (u, gs, p, q, ground arith)
    ]
  ]

  abbrev copied : Option Tree → Option Tree
  copied none = none
  copied (some t) = copy_tree share setgid t

  find-copy_entries :
      (es fs : Entries) (n : String)
      → copy_entries share setgid es ≡ some fs
      → find n fs ≡ copied (find n es)
  unfolding find
  find-copy_entries end fs n e = unfold copy_entries in ground arith
  find-copy_entries (entry m t es) fs n e =
      let (u, gs, p, q, r) = copy_entries_inv m t es fs e in
      rw r (ground (arith, find-copy_entries es gs n q))

  find-copy_none :
      (es fs : Entries) (n : String)
      → copy_entries share setgid es ≡ some fs
      → find n es ≡ none
      → find n fs ≡ none
  find-copy_none es fs n e h = ground (arith, find-copy_entries es fs n e)

  -- The names of some entries stand in `fs` if those of their copy do, and the other way round.
  names_in-copy :
      (xs ys fs : Entries)
      → copy_entries share setgid xs ≡ some ys
      → ((n : String) → find n ys ≢ none → find n fs ≢ none)
      → names_in xs fs ≡ true
  unfolding names_in is_some
  names_in-copy end ys fs e h = refl
  names_in-copy (entry m t xs) ys fs e h =
      let (u, gs, p, q, r) = copy_entries_inv m t xs ys e in
      let found : find m fs ≢ none = h m (rw r (unfold find in ground arith)) in
      let later : names_in xs fs ≡ true =
        names_in-copy xs gs fs q (λ n k. h n (rw r (unfold find in ground arith))) in
      ground arith

  names_in_back :
      (xs ys es : Entries)
      → copy_entries share setgid xs ≡ some ys
      → ((n : String) → find n xs ≢ none → find n es ≢ none)
      → names_in ys es ≡ true
  unfolding names_in is_some
  names_in_back end ys es e h = unfold copy_entries in ground arith
  names_in_back (entry m t xs) ys es e h =
      let (u, gs, p, q, r) = copy_entries_inv m t xs ys e in
      let found : find m es ≢ none = h m (unfold find in ground arith) in
      let later : names_in gs es ≡ true =
        names_in_back xs gs es q (λ n k. h n (unfold find in ground arith)) in
      rw r (ground arith)

  -- A directory and its copy have the same names.
  same_names :
      (es fs : Entries)
      → copy_entries share setgid es ≡ some fs
      → (names_in es fs ≡ true) × (names_in fs es ≡ true)
  same_names es fs e = (names_in-copy es fs fs e (λ n k. k), names_in_back es fs es e (λ n k. k))

  mutual
    unfolding verify copy_tree

    verify_tree-copy :
        (t u : Tree) → Distinct t → copy_tree share setgid t ≡ some u → verify t u ≡ true
    verify_tree-copy (file st bytes) u d e = ground arith
    verify_tree-copy (link st target) u d e = ground arith
    verify_tree-copy (special st) u d e = absurd (ground arith)
    verify_tree-copy (dir st es) u d e = elim (Option-cases (copy_entries share setgid es)) [
      | inl p ↦ absurd (ground arith)
      | inr (fs, p) ↦
          ground (arith, same_names es fs p, verify_entries-copy es fs fs d p (λ n v k. k))
    ]

    verify_entries-copy :
        (xs ys fs : Entries)
        → DistinctNames xs
        → copy_entries share setgid xs ≡ some ys
        → ((n : String) (v : Tree) → find n ys ≡ some v → find n fs ≡ some v)
        → verify_entries xs fs ≡ true
    verify_entries-copy end ys fs d e h = refl
    verify_entries-copy (entry m t xs) ys fs (fresh, dt, dx) e h =
        let (u, gs, p, q, r) = copy_entries_inv m t xs ys e in
        let here : find m fs ≡ some u = h m u (ground arith) in
        let rest : verify_entries xs fs ≡ true =
          verify_entries-copy xs gs fs dx q
            (λ n v k. h n v (rw r (ground (arith, find-copy_none xs gs m q)))) in
        ground (arith, verify_tree-copy t u dt p)

-- A copy that is made passes the check, if each directory of the source lists a name once.
pub verify-copy :
    (share setgid : Bool) (t u : Tree)
    → Distinct t
    → copy_tree share setgid t ≡ some u
    → verify t u ≡ true
verify-copy share setgid t u d e = verify_tree-copy share setgid t u d e

-- What stands at a path below a tree.
unfoldable pub at_path : List String → Tree → Option Tree
unfolding find
at_path [] t = some t
at_path (name ∷ rest) (dir st es) = elim (find name es) [ none ↦ none | some t ↦ at_path rest t ]
at_path (name ∷ rest) _ = none

-- Both trees have nothing there, or the second passes the check against the first.
abbrev pub Agree : Option Tree → Option Tree → Type 0
Agree none none = Unit
Agree (some t) (some u) = verify t u ≡ true
Agree _ _ = ⊥

and_true : (a b : Bool) → (a && b) ≡ true → (a ≡ true) × (b ≡ true)
and_true a b h = ground arith

counterpart-true :
    (p : Tree → Bool) (o : Option Tree)
    → counterpart p o ≡ true
    → (w : Tree) × (o ≡ some w) × (p w ≡ true)
unfolding counterpart
counterpart-true p none h = absurd (ground arith)
counterpart-true p (some w) h = (w, refl, h)

verify_entries_inv :
    (m : String) (u : Tree) (xs fs : Entries)
    → verify_entries (entry m u xs) fs ≡ true
    → (counterpart (verify u) (find m fs) ≡ true) × (verify_entries xs fs ≡ true)
unfolding verify
verify_entries_inv m u xs fs v = and_true _ _ v

find-verify_entries :
    (n : String) (xs fs : Entries) (t : Tree)
    → verify_entries xs fs ≡ true
    → find n xs ≡ some t
    → (u : Tree) × (find n fs ≡ some u) × (verify t u ≡ true)
unfolding find
find-verify_entries n end fs t v e = absurd (ground arith)
find-verify_entries n (entry m u xs) fs t v e =
    let (here, later) = verify_entries_inv m u xs fs v in
    elim (string_eq.dec m n) [
      | yes p ↦
          let (w, found, same) = counterpart-true (verify u) (find m fs) here in
          (w, cc, ground arith)
      | no p ↦ find-verify_entries n xs fs t later (ground arith)
    ]

at_roots-true :
    (p : Entries → Bool) (es : Entries) (u : Tree)
    → at_roots p es u ≡ true
    → (st : Stat) × (fs : Entries) × (u ≡ dir st fs) × (names_in fs es ≡ true) × (p fs ≡ true)
unfolding at_roots
at_roots-true p es (dir st fs) h = (st, fs, refl, ground arith, ground arith)
at_roots-true p es (file st b) h = absurd (ground arith)
at_roots-true p es (link st b) h = absurd (ground arith)
at_roots-true p es (special st) h = absurd (ground arith)

verify_dir_inv :
    (st : Stat) (es : Entries) (u : Tree)
    → verify (dir st es) u ≡ true
    → (st' : Stat) × (fs : Entries) × (u ≡ dir st' fs)
      × (names_in fs es ≡ true)
      × (verify_entries es fs ≡ true)
unfolding verify
verify_dir_inv st es u h = at_roots-true (verify_entries es) es u h

names_in-none :
    (n : String) (fs es : Entries) → names_in fs es ≡ true → find n es ≡ none → find n fs ≡ none
unfolding names_in find is_some
names_in-none n end es h e = refl
names_in-none n (entry m t fs) es h e = ground (arith, names_in-none n fs es)

-- Nothing stands below what is no directory.
at_path-none :
    (n : String) (path : List String) (t u : Tree)
    → at_path (n ∷ path) t ≡ none
    → at_path (n ∷ path) u ≡ none
    → Agree (at_path (n ∷ path) t) (at_path (n ∷ path) u)
at_path-none n path t u e f = rw (e, f) tt

below_file :
    (n : String) (path : List String) (t u : Tree)
    → at_path (n ∷ path) t ≡ none
    → ((st : Stat) (es : Entries) → u ≡ dir st es → ⊥)
    → Agree (at_path (n ∷ path) t) (at_path (n ∷ path) u)
unfolding at_path
below_file n path t (dir st es) e h = absurd (h st es refl)
below_file n path t (file st b) e h = at_path-none n path t (file st b) e refl
below_file n path t (link st b) e h = at_path-none n path t (link st b) e refl
below_file n path t (special st) e h = at_path-none n path t (special st) e refl

verify_other :
    (t : Tree) (st : Stat) (es : Entries)
    → ((st' : Stat) (fs : Entries) → t ≡ dir st' fs → ⊥)
    → verify t (dir st es) ≡ false
unfolding verify
verify_other (dir st' fs) st es h = absurd (h st' fs refl)
verify_other _ st es h = refl

at_path_found :
    (n : String) (path : List String) (st : Stat) (es : Entries) (t : Tree)
    → find n es ≡ some t
    → at_path (n ∷ path) (dir st es) ≡ at_path path t
unfolding at_path
at_path_found n path st es t e = ground arith

at_path_missing :
    (n : String) (path : List String) (st : Stat) (es : Entries)
    → find n es ≡ none
    → at_path (n ∷ path) (dir st es) ≡ none
unfolding at_path
at_path_missing n path st es e = ground arith

at_path_file :
    (n : String) (path : List String) (st : Stat) (b : String)
    → (at_path (n ∷ path) (file st b) ≡ none)
      × (at_path (n ∷ path) (link st b) ≡ none)
      × (at_path (n ∷ path) (special st) ≡ none)
unfolding at_path
at_path_file n path st b = (refl, refl, refl)

-- A tree that passes the check against another has something at exactly the same paths, and what it
-- has there passes the check too: the type, the target of a link, the size and time of a file.
pub verify-at_path :
    (path : List String) (t u : Tree) → verify t u ≡ true → Agree (at_path path t) (at_path path u)
verify-at_path [] t u v = unfold at_path in v
verify-at_path (n ∷ path) (dir st es) u v =
    let (st', fs, e, names, same) = verify_dir_inv st es u v in
    elim (Option-cases (find n es)) [
      | inl p ↦
          at_path-none n path (dir st es) u (at_path_missing n path st es p)
            (rw e (at_path_missing n path st' fs (names_in-none n fs es names p)))
      | inr (t, p) ↦
          let (w, found, ok) = find-verify_entries n es fs t same p in
          rw (at_path_found n path st es t p, e, at_path_found n path st' fs w found)
            (verify-at_path path t w ok)
    ]
verify-at_path (n ∷ path) (file st b) u v =
    below_file n path (file st b) u (at_path_file n path st b).0
      (λ st' es e. cc (verify_other (file st b) st' es (λ a c q. cc), v, e))
verify-at_path (n ∷ path) (link st b) u v =
    below_file n path (link st b) u (at_path_file n path st b).1
      (λ st' es e. cc (verify_other (link st b) st' es (λ a c q. cc), v, e))
verify-at_path (n ∷ path) (special st) u v =
    below_file n path (special st) u (at_path_file n path st "").2
      (λ st' es e. cc (verify_other (special st) st' es (λ a c q. cc), v, e))
