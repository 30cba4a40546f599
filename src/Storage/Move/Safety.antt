-- ===== src/Storage/Move/Safety.antt =====
-- Nothing moves under a running VM, and no move loses a tree.
use lustre_test_vms.Base.{
  String, ◌≡◌, ◌≢◌, refl, sym, ap, subst, ◌∙◌, inl, inr, ◌⊎◌, Bool, true, false, Option, none, List,
  [], ◌∷◌, ◌++◌, any, keep, map, All, arith, ◌==◌, string_eq, if◌then◌else◌, Bool-cases,
}
use lustre_test_vms.Result.{ok, Result-cases}
use lustre_test_vms.Storage.Tree.{Stat, Entries, dir}
use lustre_test_vms.Storage.Relocate.{Disk, held, relocate}
use lustre_test_vms.Storage.Relocate.Outcome.{Keeps, relocate_never_loses}
use lustre_test_vms.Storage.Move.{
  VmRef, Move, World, State, reaches, match_refs, all_refs, refusal, checked, plan, move_each,
  apply_repoints, set_disk, options,
}

any-append {ℓ} :
    {A : Type ℓ} (p : A → Bool) (xs ys : List A)
    → any p (xs ++ ys) ≡ false
    → (any p xs ≡ false) × (any p ys ≡ false)
any-append p [] ys h = (refl, h)
any-append p (x ∷ xs) ys h = ground (arith, any-append p xs ys)

-- What is kept passes no test, so what passes the test is not kept.
any-keep {ℓ} :
    {A : Type ℓ} (p q : A → Bool) (xs : List A)
    → any p (keep q xs) ≡ false
    → All (λ x. p x ≡ true → q x ≡ false) xs
any-keep p q [] h = tt
any-keep p q (x ∷ xs) h = elim (Bool-cases (q x)) [
  | inl e ↦ (λ b. ground arith, any-keep p q xs (ground arith))
  | inr e ↦ (λ b. e, any-keep p q xs (ground arith))
]

-- No reference that passes the test reaches into the move.
abbrev pub Clear : (VmRef → Bool) → (String → String) → List VmRef → Move → Type 0
Clear p real refs m = All (λ ref. p ref ≡ true → reaches real m ref ≡ false) refs

reaches-match_refs :
    (real : String → String) (to_cold : Bool) (refs : List VmRef) (m : Move) (ref : VmRef)
    → reaches real (match_refs real to_cold refs m) ref ≡ reaches real m ref
unfolding reaches match_refs
reaches-match_refs real to_cold refs m ref = refl

Clear-match_refs :
    (p : VmRef → Bool) (real : String → String) (to_cold : Bool) (refs : List VmRef)
    (ms : List Move)
    → any p (all_refs (map (match_refs real to_cold refs) ms)) ≡ false
    → All (Clear p real refs) (map (match_refs real to_cold refs) ms)
unfolding match_refs reaches
Clear-match_refs p real to_cold refs [] h = tt
Clear-match_refs p real to_cold refs (m ∷ ms) h =
    let (here, later) = any-append p (keep (reaches real m) refs) _ h in
    (any-keep p (reaches real m) refs here, Clear-match_refs p real to_cold refs ms later)

checked_refs :
    (w : World) (target : String) (arch : Option String) (to_cold force : Bool) (ms : List Move)
    → checked w target arch to_cold force ≡ ok ms
    → (ps : List Move) × (ms ≡ map (match_refs w.real to_cold w.vm_refs) ps)
      × (refusal w.overlay_writable force ms ≡ none)
unfolding checked
checked_refs w target arch to_cold force ms h =
    elim (Result-cases (plan w.roots target arch to_cold)) [
      | inr (e, p) ↦ absurd (ground arith)
      | inl (ps, p) ↦ (ps, ground arith, ground arith)
    ]

refusal-none :
    (writable : String → Bool) (force : Bool) (ms : List Move)
    → refusal writable force ms ≡ none
    → (any (λ (ref : VmRef). ref.running) (all_refs ms) ≡ false)
      × (force ≡ false → any (λ (ref : VmRef). true) (all_refs ms) ≡ false)
unfolding refusal
refusal-none writable force ms h = (ground arith, λ f. ground arith)

-- What goes ahead touches no path that a running VM uses, forced or not, and without force no path
-- that any VM uses, spelled through the hot path, the cold path or a link.
pub checked-Clear :
    (w : World) (target : String) (arch : Option String) (to_cold force : Bool) (ms : List Move)
    → checked w target arch to_cold force ≡ ok ms
    → All (Clear (λ ref. ref.running) w.real w.vm_refs) ms
      × (force ≡ false → All (Clear (λ ref. true) w.real w.vm_refs) ms)
checked-Clear w target arch to_cold force ms h =
    let (ps, e, none_refused) = checked_refs w target arch to_cold force ms h in
    let (quiet, idle) = refusal-none w.overlay_writable force ms none_refused in
    (
      rw e (Clear-match_refs (λ ref. ref.running) w.real to_cold w.vm_refs ps (rw e at quiet)),
      λ f. rw e (Clear-match_refs (λ ref. true) w.real to_cold w.vm_refs ps (rw e at (idle f))),
    )

disks-apply_repoints :
    (w : World) (ps : List (VmRef × String)) (s : State) → (apply_repoints w ps s).disks ≡ s.disks
unfolding apply_repoints
disks-apply_repoints w [] s = refl
disks-apply_repoints w ((ref, p) ∷ ps) s = ground (
  arith,
  disks-apply_repoints w ps s,
  disks-apply_repoints w ps (record s { repointed = s.repointed ++ ((ref, p) ∷ []) }),
)

-- One round of the loop: the arch's own disk is the one that was moved, and the rest follows.
abbrev moved_disk : World → Bool → Move → State → Disk
moved_disk w to_cold m s = (relocate (options w to_cold) (w.faults m.arch) (s.disks m.arch)).1

abbrev next : World → Bool → Move → State → State
next w to_cold m s = apply_repoints w m.repoint (set_disk m.arch (moved_disk w to_cold m s) s)

disks-next :
    (w : World) (to_cold : Bool) (m : Move) (s : State) (a : String)
    → (next w to_cold m s).disks a ≡ (if a == m.arch then moved_disk w to_cold m s else s.disks a)
disks-next w to_cold m s a =
    ap (λ (f : String → Disk). f a) (disks-apply_repoints w m.repoint _) ∙ unfold set_disk in refl

disks-next_ne :
    (w : World) (to_cold : Bool) (m : Move) (s : State) (a : String)
    → a ≢ m.arch
    → (next w to_cold m s).disks a ≡ s.disks a
disks-next_ne w to_cold m s a h = disks-next w to_cold m s a ∙ ground arith

move_each-cons :
    (w : World) (to_cold : Bool) (m : Move) (ms : List Move) (s : State)
    → ((move_each w to_cold (m ∷ ms) s).1 ≡ set_disk m.arch (moved_disk w to_cold m s) s)
      ⊎ ((move_each w to_cold (m ∷ ms) s).1 ≡ (move_each w to_cold ms (next w to_cold m s)).1)
unfolding move_each
move_each-cons w to_cold m ms s =
    elim (Result-cases (relocate (options w to_cold) (w.faults m.arch) (s.disks m.arch)).0) [
      | inl (r, e) ↦ inr (rw (e, move_each))
      | inr (x, e) ↦ inl (rw (e, move_each))
    ]

-- The loop leaves the other arches alone.
move_each-other :
    (w : World) (to_cold : Bool) (ms : List Move) (s : State) (a : String)
    → All (λ (m : Move). a ≢ m.arch) ms
    → (move_each w to_cold ms s).1.disks a ≡ s.disks a
move_each-other w to_cold [] s a h = unfold move_each in refl
move_each-other w to_cold (m ∷ ms) s a (h, hs) = elim (move_each-cons w to_cold m ms s) [
  | inl e ↦ rw e (unfold set_disk in ground arith)
  | inr e ↦ rw (e, move_each-other w to_cold ms _ a hs, disks-next w to_cold m s a) (ground arith)
]

disks-set_disk :
    (a k : String) (d : Disk) (s : State)
    → (set_disk k d s).disks a ≡ (if a == k then d else s.disks a)
unfolding set_disk
disks-set_disk a k d s = refl

disks-set_disk_ne :
    (a k : String) (d : Disk) (s : State) → a ≢ k → (set_disk k d s).disks a ≡ s.disks a
disks-set_disk_ne a k d s h = disks-set_disk a k d s ∙ ground arith

-- After the first round, the arch has the moved disk if the round was its own.
after_round :
    (w : World) (to_cold : Bool) (m : Move) (ms : List Move) (s : State) (a : String)
    → All (λ (k : Move). m.arch ≢ k.arch) ms
    → a ≡ m.arch
    → (move_each w to_cold (m ∷ ms) s).1.disks a ≡ moved_disk w to_cold m s
after_round w to_cold m ms s a fresh p = elim (move_each-cons w to_cold m ms s) [
  | inl e ↦ ap (λ (x : State). x.disks a) e ∙ (disks-set_disk a m.arch _ s ∙ ground arith)
  | inr e ↦
      ap (λ (x : State). x.disks a) e
      ∙ (move_each-other w to_cold ms _ a (rw p fresh)
          ∙ (disks-next w to_cold m s a ∙ ground arith))
]

abbrev pub DistinctArches : List Move → Type 0
DistinctArches [] = Unit
DistinctArches (m ∷ ms) = All (λ (k : Move). m.arch ≢ k.arch) ms × DistinctArches ms

-- The tree, or a copy that passed the check, stands whole under one of the names of the arch.
abbrev pub Stands : Stat → Entries → Disk → Type 0
Stands st es d = Keeps (dir st es) d.src ⊎ Keeps (dir st es) d.dest ⊎ Keeps (dir st es) d.old

-- However the moves of the arches end, each arch's tree stands whole under one of its names.
pub move_each_never_loses :
    (w : World) (to_cold : Bool) (ms : List Move) (s : State) (a : String) (st : Stat)
    (es : Entries)
    → DistinctArches ms
    → (s.disks a).src ≡ held (dir st es)
    → Stands st es ((move_each w to_cold ms s).1.disks a)
move_each_never_loses w to_cold [] s a st es d h = unfold move_each in inl (rw h (inl refl))
move_each_never_loses w to_cold (m ∷ ms) s a st es (fresh, d) h = elim (string_eq.dec a m.arch) [
  | yes p ↦ subst (Stands st es) (sym (after_round w to_cold m ms s a fresh p)) (
      relocate_never_loses (options w to_cold) (w.faults m.arch) (s.disks m.arch) st es
        (rw (← p) h))
  | no p ↦ elim (move_each-cons w to_cold m ms s) [
    | inl e ↦
        subst (Stands st es)
          (sym (ap (λ (x : State). x.disks a) e ∙ disks-set_disk_ne a m.arch _ s p))
          (inl (rw h (inl refl)))
    | inr e ↦ subst (Stands st es) (sym (ap (λ (x : State). x.disks a) e)) (
        move_each_never_loses w to_cold ms (next w to_cold m s) a st es d
          (ap (λ (x : Disk). x.src) (disks-next_ne w to_cold m s a p) ∙ h))
  ]
]
