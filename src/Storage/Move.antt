-- ===== src/Storage/Move.antt =====
-- ltvm_pkg/storage.py: `_valid_name`, `_under`, `_plan`, `_match_refs`, `_refusal` and `move_target`.
-- Paths are absolute and normalised, as text; `real` is `os.path.realpath`. What `move_target` prints,
-- and the removal of an empty `<cold>/<target>`, are left out.
pub mod Safety
pub mod Plan
use lustre_test_vms.Base.{
  ℕ, ◌+◌, ◌≤◌, String, ◌<>◌, Bool, true, false, not, Option, none, some, List, [], ◌∷◌, ◌++◌, ◌&&◌,
  ◌||◌, any, keep, map, sum, starts_with, ◌==◌, string_eq, nat_eq, ltb, if◌then◌else◌, contains,
}
use lustre_test_vms.Result.{Err, Result, ok, err, storage_error, os_error, Done}
use lustre_test_vms.Owner.{codes}
use lustre_test_vms.Storage.Relocate.{Disk, Faults, Options, Report, clean, warned, relocate}

-- `VMRef`: a path that a VM uses.
pub data What : Type 0 where
  image kernel backing_file : What

pub record VmRef : Type 0 where
  pub vm : String
  pub running : Bool
  pub what : What
  pub path : String
  pub overlay : Option String
  pub has_info : Bool

pub record Move : Type 0 where
  pub target : String
  pub arch : String
  pub hot : String
  pub cold : String
  pub src : String
  pub dest : String
  pub refs : List VmRef
  pub repoint : List (VmRef × String)

-- What stands at `<hot>/<target>/<arch>` or `<cold>/<target>/<arch>`.
pub data Place : Type 0 where
  missing directory plain : Place
  -- a link that leads to the cold directory of the same target and arch, or somewhere else
  link_to_cold link_elsewhere : Place

-- The two roots as one call sees them. A listing is `none` where the target has no directory.
pub record Roots : Type 0 where
  pub hot_root : String
  pub cold_root : Option String
  pub hot : String → Place
  pub cold : String → Place
  pub hot_names : Option (List String)
  pub cold_names : Option (List String)

unfoldable pub valid_name : String → Bool
valid_name name =
    not (name == "" || starts_with name "." || contains (codes name) 47 || name == "cache")

-- `_under`
unfoldable pub under : String → String → Bool
under path root = path == root || starts_with path (root <> "/")

is_directory : Place → Bool
is_directory directory = true
is_directory _ = false

arches_in : (String → Place) → Option (List String) → List String
arches_in place none = []
arches_in place (some names) = keep (λ a. is_directory (place a) && not (starts_with a ".")) names

arches : Roots → Option String → Bool → List String
unfolding arches_in is_directory
arches r (some a) to_cold = a ∷ []
arches r none true = arches_in r.hot r.hot_names
arches r none false = arches_in r.cold r.cold_names

move_between : String → String → String → String → Bool → Move
move_between target arch hot cold to_cold = record {
  target = target;
  arch = arch;
  hot = hot;
  cold = cold;
  src = if to_cold then hot else cold;
  dest = if to_cold then cold else hot;
  refs = [];
  repoint = [];
}

-- The checks of one arch: nothing is archived over an archive, or restored over a directory.
may_archive : Place → Place → Bool
may_archive directory missing = true
may_archive _ _ = false

may_restore : Place → Place → Bool
may_restore link_to_cold directory = true
may_restore missing directory = true
may_restore _ _ = false

abbrev may_move : Roots → Bool → String → Bool
may_move r true a = may_archive (r.hot a) (r.cold a)
may_move r false a = may_restore (r.hot a) (r.cold a)

plan_each : Roots → String → String → Bool → List String → Result (List Move)
plan_each r cold_root target to_cold [] = ok []
plan_each r cold_root target to_cold (a ∷ names) =
    let rest = plan_each r cold_root target to_cold names in
    if may_move r to_cold a
    then elim rest [
      | err e ↦ err e
      | ok ms ↦ ok (
          move_between target a (r.hot_root <> "/" <> target <> "/" <> a)
            (cold_root <> "/" <> target <> "/" <> a) to_cold
          ∷ ms)
    ]
    else err storage_error

some_move : Result (List Move) → Result (List Move)
some_move (ok []) = err storage_error
some_move (ok (m ∷ ms)) = ok (m ∷ ms)
some_move (err e) = err e

valid_arch : Option String → Bool
valid_arch none = true
valid_arch (some a) = valid_name a

-- `_plan`
unfoldable pub plan : Roots → String → Option String → Bool → Result (List Move)
unfolding arches move_between may_archive may_restore plan_each some_move valid_arch
plan r target arch to_cold =
    if valid_name target && valid_arch arch
    then elim r.cold_root [
      | none ↦ err storage_error
      | some cold ↦ some_move (plan_each r cold target to_cold (arches r arch to_cold))
    ]
    else err storage_error

-- The text that follows a prefix.
abbrev after : String → String → String
after String.[] path = path
after (String.◌∷◌ c root) String.[] = ""
after (String.◌∷◌ c root) (String.◌∷◌ d path) = after root path

-- One reference against one move: whether it reaches into what moves, and its new path if a restore
-- would leave it dangling.
unfoldable pub reaches : (String → String) → Move → VmRef → Bool
reaches real m ref =
    under ref.path m.hot || under ref.path m.cold || under (real ref.path) (real m.src)

unfoldable pub new_path : (String → String) → Bool → Move → VmRef → Option String
new_path real to_cold m ref =
    if to_cold || under ref.path m.hot
    then none
    else if under ref.path m.cold
    then some (m.hot <> after m.cold ref.path)
    else some (m.hot <> after (real m.src) (real ref.path))

abbrev repoints : (String → String) → Bool → Move → List VmRef → List (VmRef × String)
repoints real to_cold m [] = []
repoints real to_cold m (ref ∷ refs) =
    let rest = repoints real to_cold m refs in
    elim (new_path real to_cold m ref) [ none ↦ rest | some p ↦ (ref, p) ∷ rest ]

-- `_match_refs`
unfoldable pub match_refs : (String → String) → Bool → List VmRef → Move → Move
match_refs real to_cold refs m =
    let mine = keep (reaches real m) refs in
    record m { refs = mine; repoint = repoints real to_cold m mine }

abbrev pub all_refs : List Move → List VmRef
all_refs [] = []
all_refs (m ∷ ms) = m.refs ++ all_refs ms

abbrev all_repoints : List Move → List (VmRef × String)
all_repoints [] = []
all_repoints (m ∷ ms) = m.repoint ++ all_repoints ms

-- A backing file that is to be repointed, in an overlay that the user cannot write.
abbrev stuck : (String → Bool) → VmRef × String → Bool
stuck writable (ref, _) = elim ref.what [
  | backing_file ↦ elim ref.overlay [ none ↦ false | some o ↦ not (writable o) ]
  | _ ↦ false
]

pub data Refusal : Type 0 where
  running_on in_use overlay_not_writable : Refusal

-- `_refusal`
unfoldable pub refusal : (String → Bool) → Bool → List Move → Option Refusal
refusal writable force ms =
    if any (λ (ref : VmRef). ref.running) (all_refs ms)
    then some running_on
    else if any (λ (ref : VmRef). true) (all_refs ms) && not force
    then some in_use
    else if any (stuck writable) (all_repoints ms)
    then some overlay_not_writable
    else none

-- What `move_target` finds on the host before it moves anything, and what goes wrong while it does.
pub record World : Type 0 where
  pub roots : Roots
  pub real : String → String
  pub vm_refs : List VmRef
  pub overlay_writable : String → Bool
  -- `survey`: the bytes of a tree, or nothing if the user cannot move it
  pub survey : String → Option ℕ
  pub writable_parents : String → Bool
  pub same_fs : Bool
  pub free : ℕ
  pub lock_free : Bool
  pub shared : Bool
  pub setgid : Bool
  pub faults : String → Faults
  pub repoint_fails : VmRef → Bool

abbrev pub headroom_bytes : ℕ
headroom_bytes = 1073741824

-- What the call changes: the six names of each arch, and the paths that VMs use.
pub record State : Type 0 where
  pub disks : String → Disk
  pub repointed : List (VmRef × String)

sizes : World → List Move → Option (List ℕ)
sizes w [] = some []
sizes w (m ∷ ms) = elim (w.survey m.src) [
  | none ↦ none
  | some n ↦ elim (sizes w ms) [ none ↦ none | some ns ↦ some (n ∷ ns) ]
]

fits : World → List ℕ → Bool
fits w ns = w.same_fs || not (ltb w.free (sum ns + headroom_bytes))

-- Every check is made for every arch before anything moves.
unfoldable pub checked : World → String → Option String → Bool → Bool → Result (List Move)
unfolding sizes fits
checked w target arch to_cold force = elim (plan w.roots target arch to_cold) [
  | err e ↦ err e
  | ok planned ↦
      let ms = map (match_refs w.real to_cold w.vm_refs) planned in
      elim (refusal w.overlay_writable force ms) [
        | some r ↦ err storage_error
        | none ↦ elim (sizes w ms) [
          | none ↦ err storage_error
          | some ns ↦
              if not (any (λ (m : Move). not (w.writable_parents m.arch)) ms)
                && (fits w ns && w.lock_free)
              then ok ms
              else err storage_error
        ]
      ]
]

abbrev options : World → Bool → Options
options w to_cold = record {
  link_back = to_cold;
  share = w.shared;
  setgid = w.setgid;
  same_fs = w.same_fs;
}

set_disk : String → Disk → State → State
set_disk a d s = record s { disks = λ k. if k == a then d else s.disks k }

-- A repoint that fails only adds to the move's warning.
apply_repoints : World → List (VmRef × String) → State → State
apply_repoints w [] s = s
apply_repoints w ((ref, p) ∷ rest) s =
    apply_repoints w rest
      (if w.repoint_fails ref then s else record s { repointed = s.repointed ++ ((ref, p) ∷ []) })

-- The loop under the lock: the first move that fails ends it.
unfoldable pub move_each : World → Bool → List Move → State → Result Done × State
unfolding set_disk apply_repoints
move_each w to_cold [] s = (ok tt, s)
move_each w to_cold (m ∷ ms) s =
    let moved = relocate (options w to_cold) (w.faults m.arch) (s.disks m.arch) in
    let s' = set_disk m.arch moved.1 s in
    let rest = move_each w to_cold ms (apply_repoints w m.repoint s') in
    elim moved.0 [ err e ↦ (err e, s') | ok r ↦ rest ]

unfoldable pub move_target :
    World → String → Option String → Bool → Bool → State → Result Done × State
unfolding checked
move_target w target arch to_cold force s = elim (checked w target arch to_cold force) [
  | err e ↦ (err e, s)
  | ok ms ↦ move_each w to_cold ms s
]
