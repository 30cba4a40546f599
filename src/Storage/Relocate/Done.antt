-- ===== src/Storage/Relocate/Done.antt =====
-- What a move that returns has done.
use lustre_test_vms.Base.{
  ◌≡◌, ◌≢◌, refl, inl, inr, Option-cases, Bool-cases, ◌⊎◌, Bool, true, false, arith,
}
use lustre_test_vms.Result.{ok}
use lustre_test_vms.Storage.Tree.{Tree, Stat, Entries, dir, verify, copy_tree}
use lustre_test_vms.Storage.Relocate.{
  Disk, Node, Report, absent, held, partial, to_src, elsewhere, from_tree, link, to_dest, Faults,
  Options, Outcome, warned, relocate, switched, link_across, link_within, switch, rename_staged,
  stage,
}
use lustre_test_vms.Storage.Relocate.Outcome.{At, Keeps}

Node-cases : (n : Node) → (n ≡ absent) ⊎ ((n ≡ link to_src) ⊎ ((n ≢ absent) × (n ≢ link to_src)))
Node-cases absent = inl refl
Node-cases (link to_src) = inr (inl refl)
Node-cases (link to_dest) = inr (inr (λ e. cc, λ e. cc))
Node-cases (link elsewhere) = inr (inr (λ e. cc, λ e. cc))
Node-cases (held t) = inr (inr (λ e. cc, λ e. cc))
Node-cases (partial t) = inr (inr (λ e. cc, λ e. cc))

stage_ok :
    (o : Options) (replace : Bool) (f : Faults) (d : Disk) (t : Tree) (r : Report)
    → (stage o replace f t d).0 ≡ ok r
    → (u : Tree) × (verify t u ≡ true)
      × (stage o replace f t d ≡ switch o replace f (record d { staged = held u }))
unfolding stage
stage_ok o replace f d t r e = elim (Option-cases (copy_tree o.share o.setgid t)) [
  | inl c ↦ absurd (ground arith)
  | inr (u, c) ↦ (f.landed u, ground arith, ground arith)
]

relocate_ok :
    (o : Options) (f : Faults) (d : Disk) (st : Stat) (es : Entries) (r : Report)
    → d.src ≡ held (dir st es)
    → (relocate o f d).0 ≡ ok r
    → (replace : Bool) × (relocate o f d ≡ from_tree o replace f (dir st es) d)
unfolding relocate
relocate_ok o f d st es r k e = elim (Node-cases d.dest) [
  | inl free ↦ (false, ground arith)
  | inr (inl back) ↦ (true, ground arith)
  | inr (inr taken) ↦ absurd (ground arith)
]

module _ (P : Tree → Type 0) where
  -- The outcome of a call that returned `r`.
  abbrev Finished : Bool → Outcome → Report → Type 0
  Finished link_back out r =
      At P out.1.dest
      × (link_back ≡ true → out.1.src ≡ link to_dest)
      × (link_back ≡ false → (out.1.src ≡ absent) ⊎ (r ≡ warned))

  link_across-Finished :
      (replace : Bool) (f : Faults) (d : Disk) (u : Tree) (r : Report)
      → d.dest ≡ held u
      → P u
      → (link_across replace f d).0 ≡ ok r
      → Finished true (link_across replace f d) r
  unfolding link_across
  link_across-Finished replace f d u r h q e = (ground arith, λ b. ground arith, λ b. cc)

  link_within-Finished :
      (replace : Bool) (f : Faults) (d : Disk) (u : Tree) (r : Report)
      → d.dest ≡ held u
      → P u
      → (link_within replace f d).0 ≡ ok r
      → Finished true (link_within replace f d) r
  unfolding link_within
  link_within-Finished replace f d u r h q e = (ground arith, λ b. ground arith, λ b. cc)

  switched-Finished :
      (o : Options) (replace : Bool) (f : Faults) (d : Disk) (t u : Tree) (r : Report)
      → (o.same_fs ≡ true → d.src ≡ absent)
      → (o.same_fs ≡ false → d.src ≡ held t)
      → d.dest ≡ held u
      → P u
      → (switched o replace f d).0 ≡ ok r
      → Finished o.link_back (switched o replace f d) r
  unfolding switched
  switched-Finished o replace f d t u r g k h q e = elim (Bool-cases o.link_back) [
    | inl back ↦
        let across : (link_across replace f d).0 ≡ ok r
            → Finished true (link_across replace f d) r =
          link_across-Finished replace f d u r h q in
        let within : (link_within replace f d).0 ≡ ok r
            → Finished true (link_within replace f d) r =
          link_within-Finished replace f d u r h q in
        (ground (arith, across, within), λ b. ground (arith, across, within), λ b. cc)
    | inr on ↦ (ground arith, λ b. cc, λ b. ground arith)
  ]

  rename_staged-Finished :
      (o : Options) (replace : Bool) (f : Faults) (d : Disk) (t u : Tree) (r : Report)
      → d.src ≡ held t
      → (o.same_fs ≡ false → d.staged ≡ held u)
      → P t
      → P u
      → (rename_staged o replace f d).0 ≡ ok r
      → Finished o.link_back (rename_staged o replace f d) r
  unfolding rename_staged
  rename_staged-Finished o replace f d t u r k h p q e = elim (Bool-cases f.rename) [
    | inl bad ↦ absurd (ground arith)
    | inr good ↦ elim (Bool-cases o.same_fs) [
      | inl same ↦
          let d' : Disk = record d { dest = d.src; src = absent } in
          simp (good, same)
            (switched-Finished o replace f d' t t r (λ x. refl) (λ x. cc) k p (ground arith))
      | inr apart ↦
          let d' : Disk = record d { dest = d.staged; staged = absent } in
          simp (good, apart)
            (switched-Finished o replace f d' t u r (λ x. cc) (λ x. k) (h apart) q (ground arith))
    ]
  ]

  switch-Finished :
      (o : Options) (replace : Bool) (f : Faults) (d : Disk) (t u : Tree) (r : Report)
      → d.src ≡ held t
      → (o.same_fs ≡ false → d.staged ≡ held u)
      → P t
      → P u
      → (switch o replace f d).0 ≡ ok r
      → Finished o.link_back (switch o replace f d) r
  unfolding switch
  switch-Finished o false f d t u r k h p q e = rename_staged-Finished o false f d t u r k h p q e
  switch-Finished o true f d t u r k h p q e = elim (Bool-cases f.move_aside) [
    | inl bad ↦ absurd (ground arith)
    | inr good ↦
        let d' : Disk = record d { aside = d.dest; dest = absent } in
        simp good (rename_staged-Finished o true f d' t u r k h p q (ground arith))
  ]

  stage-Finished :
      (o : Options) (replace : Bool) (f : Faults) (d : Disk) (t : Tree) (r : Report)
      → d.src ≡ held t
      → P t
      → ((u : Tree) → verify t u ≡ true → P u)
      → (stage o replace f t d).0 ≡ ok r
      → Finished o.link_back (stage o replace f t d) r
  stage-Finished o replace f d t r k p sound e =
      let (u, v, eq) = stage_ok o replace f d t r e in
      rw eq (
        switch-Finished o replace f (record d { staged = held u }) t u r k (λ x. refl) p (sound u v)
          (rw eq at e))

  from_tree-Finished :
      (o : Options) (replace : Bool) (f : Faults) (d : Disk) (t : Tree) (r : Report)
      → d.src ≡ held t
      → P t
      → ((u : Tree) → verify t u ≡ true → P u)
      → (from_tree o replace f t d).0 ≡ ok r
      → Finished o.link_back (from_tree o replace f t d) r
  from_tree-Finished o replace f d t r k p sound e = elim (Bool-cases f.make_parent) [
    | inl bad ↦ absurd (ground arith)
    | inr good ↦ elim (Bool-cases o.same_fs) [
      | inl same ↦
          simp (good, same) (switch-Finished o replace f d t t r k (λ x. cc) p p (ground arith))
      | inr apart ↦ simp (good, apart) (stage-Finished o replace f d t r k p sound (ground arith))
    ]
  ]

  relocate-Finished :
      (o : Options) (f : Faults) (d : Disk) (st : Stat) (es : Entries) (r : Report)
      → d.src ≡ held (dir st es)
      → P (dir st es)
      → ((u : Tree) → verify (dir st es) u ≡ true → P u)
      → (relocate o f d).0 ≡ ok r
      → Finished o.link_back (relocate o f d) r
  relocate-Finished o f d st es r k p sound e =
      let (replace, eq) = relocate_ok o f d st es r k e in
      rw eq (from_tree-Finished o replace f d (dir st es) r k p sound (rw eq at e))

-- A move that returns has the tree, or a copy that has passed the check, at the destination. The
-- source is a link to it after an archive, and is gone after a restore unless a warning says that its
-- removal failed.
pub relocate_done :
    (o : Options) (f : Faults) (d : Disk) (st : Stat) (es : Entries) (r : Report)
    → d.src ≡ held (dir st es)
    → (relocate o f d).0 ≡ ok r
    → let d' = (relocate o f d).1 in
      Keeps (dir st es) d'.dest
      × (o.link_back ≡ true → d'.src ≡ link to_dest)
      × (o.link_back ≡ false → (d'.src ≡ absent) ⊎ (r ≡ warned))
relocate_done o f d st es r e =
    relocate-Finished (λ u. (u ≡ dir st es) ⊎ (verify (dir st es) u ≡ true)) o f d st es r e
      (inl refl) (λ u v. inr v)
