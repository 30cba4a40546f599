-- ===== src/Storage/Relocate/Outcome.antt =====
-- How a move ends: all of it happens or none of it, and the tree is never lost.
use lustre_test_vms.Base.{◌≡◌, refl, inl, inr, Option-cases, ◌⊎◌, Bool, true, false, arith}
use lustre_test_vms.Result.{Err, err}
use lustre_test_vms.Storage.Tree.{Tree, Stat, Entries, dir, verify, copy_tree}
use lustre_test_vms.Storage.Relocate.{
  Disk, Node, absent, held, Faults, Options, Outcome, relocate, switched, link_across, link_within,
  switch, rename_staged, stage,
}

-- The temporary names are free.
pub record IsFresh (d : Disk) : Type 0 where
  pub staged : d.staged ≡ absent
  pub aside : d.aside ≡ absent
  pub link_tmp : d.link_tmp ≡ absent
  pub old : d.old ≡ absent

-- The steps that undo others succeed.
pub record Undoes (f : Faults) : Type 0 where
  pub put_back : f.put_back ≡ false
  pub rename_back : f.rename_back ≡ false
  pub undo_old : f.undo_old ≡ false
  pub drop_tmp : f.drop_tmp ≡ false

-- A move that raises has changed nothing: each of the six names stands as it did, if the temporary
-- names were free and no step of the way back failed too.
pub relocate_error_restores :
    (o : Options) (f : Faults) (d : Disk) {e : Err}
    → IsFresh d
    → Undoes f
    → (relocate o f d).0 ≡ err e
    → (relocate o f d).1 ≡ d
unfolding relocate stage switch rename_staged switched link_across link_within
relocate_error_restores o f d fresh undo h = ground arith

module _ (P : Tree → Type 0) where
  -- The node holds a tree of the kind.
  abbrev pub At : Node → Type 0
  At (held u) = P u
  At _ = ⊥

  abbrev Safe : Outcome → Type 0
  Safe out = At out.1.src ⊎ At out.1.dest ⊎ At out.1.old

  link_across-Safe :
      (replace : Bool) (f : Faults) (d : Disk) (t u : Tree)
      → d.src ≡ held t
      → d.dest ≡ held u
      → P t
      → P u
      → Safe (link_across replace f d)
  unfolding link_across
  link_across-Safe replace f d t u e h p q = ground arith

  link_within-Safe :
      (replace : Bool) (f : Faults) (d : Disk) (t : Tree)
      → d.dest ≡ held t
      → P t
      → Safe (link_within replace f d)
  unfolding link_within
  link_within-Safe replace f d t e p = ground arith

  switched-Safe :
      (o : Options) (replace : Bool) (f : Faults) (d : Disk) (t u : Tree)
      → (o.same_fs ≡ false → d.src ≡ held t)
      → d.dest ≡ held u
      → P t
      → P u
      → Safe (switched o replace f d)
  unfolding switched
  switched-Safe o replace f d t u e h p q = ground (
    arith,
    link_within-Safe replace f d u h q,
    λ (same : o.same_fs ≡ false). link_across-Safe replace f d t u (e same) h p q,
  )

  rename_staged-Safe :
      (o : Options) (replace : Bool) (f : Faults) (d : Disk) (t u : Tree)
      → d.src ≡ held t
      → (o.same_fs ≡ false → d.staged ≡ held u)
      → P t
      → P u
      → Safe (rename_staged o replace f d)
  unfolding rename_staged
  rename_staged-Safe o replace f d t u e h p q = ground (
    arith,
    λ (same : o.same_fs ≡ true).
        switched-Safe o replace f (record d { dest = d.src; src = absent }) t t (λ x. cc) e p p,
    λ (apart : o.same_fs ≡ false).
        switched-Safe o replace f (record d { dest = d.staged; staged = absent }) t u (λ x. e)
          (h apart) p q,
  )

  switch-Safe :
      (o : Options) (replace : Bool) (f : Faults) (d : Disk) (t u : Tree)
      → d.src ≡ held t
      → (o.same_fs ≡ false → d.staged ≡ held u)
      → P t
      → P u
      → Safe (switch o replace f d)
  unfolding switch
  switch-Safe o replace f d t u e h p q = ground (
    arith,
    rename_staged-Safe o replace f d t u e h p q,
    rename_staged-Safe o replace f (record d { aside = d.dest; dest = absent }) t u e h p q,
  )

  stage-Safe :
      (o : Options) (replace : Bool) (f : Faults) (d : Disk) (t : Tree)
      → d.src ≡ held t
      → P t
      → ((u : Tree) → verify t u ≡ true → P u)
      → Safe (stage o replace f t d)
  unfolding stage
  stage-Safe o replace f d t e p sound = elim (Option-cases (copy_tree o.share o.setgid t)) [
    | inl q ↦ ground arith
    | inr (u, q) ↦ ground (
      arith,
      λ (v : verify t (f.landed u) ≡ true).
          switch-Safe o replace f (record d { staged = held (f.landed u) }) t (f.landed u) e
            (λ x. refl) p (sound (f.landed u) v),
    )
  ]

  relocate-Safe :
      (o : Options) (f : Faults) (d : Disk) (st : Stat) (es : Entries)
      → d.src ≡ held (dir st es)
      → P (dir st es)
      → ((u : Tree) → verify (dir st es) u ≡ true → P u)
      → Safe (relocate o f d)
  unfolding relocate
  relocate-Safe o f d st es e p sound =
      let t = dir st es in
      ground (
        arith,
        λ (same : o.same_fs ≡ true). switch-Safe o true f d t t e (λ x. cc) p p,
        λ (same : o.same_fs ≡ true). switch-Safe o false f d t t e (λ x. cc) p p,
        stage-Safe o true f d t e p sound,
        stage-Safe o false f d t e p sound,
      )

-- A node that holds the tree, or a copy that has passed the check.
abbrev pub Keeps : Tree → Node → Type 0
Keeps t = At (λ u. (u ≡ t) ⊎ (verify t u ≡ true))

-- Whatever fails, and even if the way back fails too, the tree still stands whole, or as a copy that
-- has passed the check, at the source, at the destination, or under the source's temporary name.
pub relocate_never_loses :
    (o : Options) (f : Faults) (d : Disk) (st : Stat) (es : Entries)
    → d.src ≡ held (dir st es)
    → let d' = (relocate o f d).1 in
      Keeps (dir st es) d'.src ⊎ Keeps (dir st es) d'.dest ⊎ Keeps (dir st es) d'.old
relocate_never_loses o f d st es e =
    relocate-Safe (λ u. (u ≡ dir st es) ⊎ (verify (dir st es) u ≡ true)) o f d st es e (inl refl)
      (λ u v. inr v)
