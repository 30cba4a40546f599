-- ===== src/Storage/Move/Plan.antt =====
-- What a plan allows, and where a restore repoints a VM to.
use Prim.Native.String.append
use text.Mathlib.TextPositions.{starts_with-append}
use text.Mathlib.TextLemmas.{append_assoc}
use lustre_test_vms.Base.{
  String, ◌<>◌, ◌≡◌, ◌≢◌, refl, subst, inl, inr, ◌⊎◌, Bool, true, false, Option, none, some, List,
  [], ◌∷◌, All, arith, string_eq, Bool-cases, Option-cases,
}
use lustre_test_vms.Result.{ok, Result-cases}
use lustre_test_vms.Storage.Move.{
  VmRef, Move, Roots, directory, missing, link_to_cold, may_move, plan, plan_each, arches, under,
  new_path, after, valid_name, move_between,
}

-- What must stand at the two places of a move.
abbrev pub Allowed : Roots → Bool → Move → Type 0
Allowed r true m =
    (r.hot m.arch ≡ directory) × (r.cold m.arch ≡ missing) × (m.src ≡ m.hot) × (m.dest ≡ m.cold)
Allowed r false m =
    (r.cold m.arch ≡ directory)
    × ((r.hot m.arch ≡ missing) ⊎ (r.hot m.arch ≡ link_to_cold))
    × (m.src ≡ m.cold)
    × (m.dest ≡ m.hot)

allowed :
    (r : Roots) (target hot cold a : String) (to_cold : Bool)
    → may_move r to_cold a ≡ true
    → Allowed r to_cold (move_between target a hot cold to_cold)
unfolding plan
allowed r target hot cold a true h = ground arith
allowed r target hot cold a false h = ground arith

ok_injective : (xs ys : List Move) → ok xs ≡ ok ys → xs ≡ ys
ok_injective xs ys e = cc

plan_each-Allowed :
    (r : Roots) (cold target : String) (to_cold : Bool) (names : List String) (ms : List Move)
    → plan_each r cold target to_cold names ≡ ok ms
    → All (Allowed r to_cold) ms
unfolding plan_each
plan_each-Allowed r cold target to_cold [] ms h =
    subst (All (Allowed r to_cold)) (ok_injective [] ms h) tt
plan_each-Allowed r cold target to_cold (a ∷ names) ms h =
    elim (Bool-cases (may_move r to_cold a)) [
      | inr stop ↦ absurd (ground arith)
      | inl go ↦ elim (Result-cases (plan_each r cold target to_cold names)) [
        | inr (x, e) ↦ absurd (ground arith)
        | inl (rest, e) ↦
            subst (All (Allowed r to_cold)) (ok_injective _ ms (rw (go, e, plan_each) at h)) (
              allowed r target _ _ a to_cold go,
              plan_each-Allowed r cold target to_cold names rest e,
            )
      ]
    ]

plan_ok :
    (r : Roots) (target : String) (arch : Option String) (to_cold : Bool) (ms : List Move)
    → plan r target arch to_cold ≡ ok ms
    → (cold : String) × (plan_each r cold target to_cold (arches r arch to_cold) ≡ ok ms)
      × (ms ≢ [])
      × (valid_name target ≡ true)
unfolding plan
plan_ok r target arch to_cold ms h = elim (Option-cases r.cold_root) [
  | inl no_root ↦ absurd (ground arith)
  | inr (cold, root) ↦ (cold, ground arith, λ e. ground arith, ground arith)
]

-- A plan has a move, for a valid target, and every move of it goes from a real directory: to a free
-- place in the cold directory for an archive, and for a restore to a place in the hot directory that is
-- free or a link into the cold one.
pub plan_sound :
    (r : Roots) (target : String) (arch : Option String) (to_cold : Bool) (ms : List Move)
    → plan r target arch to_cold ≡ ok ms
    → (ms ≢ []) × (valid_name target ≡ true) × All (Allowed r to_cold) ms
plan_sound r target arch to_cold ms h =
    let (cold, e, filled, valid) = plan_ok r target arch to_cold ms h in
    (filled, valid, plan_each-Allowed r cold target to_cold (arches r arch to_cold) ms e)

after-append : (root rest : String) → after root (root <> rest) ≡ rest
after-append String.[] rest = rw append.nil
after-append (String.◌∷◌ c root) rest = rw append.cons (after-append root rest)

under_below : (root rest : String) → under ((root <> "/") <> rest) root ≡ true
unfolding under
under_below root rest = rw starts_with-append (ground arith)

-- A restore repoints a VM that names a path below the cold directory to the same path below the hot
-- one, and leaves a path that is spelled through the hot directory as it is; an archive repoints
-- nothing.
pub new_path_restore :
    (real : String → String) (m : Move) (ref : VmRef)
    → (new_path real true m ref ≡ none)
      × (under ref.path m.hot ≡ true → new_path real false m ref ≡ none)
      × ((rest : String)
          → ref.path ≡ (m.cold <> "/") <> rest
          → under ref.path m.hot ≡ false
          → new_path real false m ref ≡ some ((m.hot <> "/") <> rest))
unfolding new_path
new_path_restore real m ref = (
  refl,
  λ h. ground arith,
  λ rest e h.
      let cold : under ref.path m.cold ≡ true = rw e (under_below m.cold rest) in
      let tail : m.hot <> after m.cold ref.path ≡ (m.hot <> "/") <> rest =
        rw (e, append_assoc) (rw after-append (rw append_assoc refl)) in
      ground arith,
)
