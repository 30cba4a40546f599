-- ===== src/Images/Backing.antt =====
-- `check_backing` of ltvm_pkg/image_store.py: whether the image under a VM is the one that it was created
-- with, and what installing and pruning images leaves of it.
use lustre_test_vms.Base.{
  ℕ, ◌*◌, max, String, ◌≡◌, ◌≢◌, sym, ◌∙◌, inl, inr, Bool, true, false, not, ◌&&◌, ◌||◌, Option,
  none, some, List, ◌∷◌, ◌++◌, arith, ◌==◌, string_eq, nat_eq, ltb, contains, Option-cases,
  if◌then◌else◌,
}
use lustre_test_vms.Result.{Result}
use lustre_test_vms.Images.{
  Stat, Entry, file, Dir, Place, inside, outside, entry, Overlay, Host, current_name, is_absolute,
  overlay_backing_file, prune_superseded,
}
use lustre_test_vms.Images.Gone.{backing-Kept}
use lustre_test_vms.Images.Install.{Calls, install_image, install_image_lem, free_name}

-- The fields of a VM that the check reads: the image, or "", and its identity, if it is recorded; the time
-- of creation in seconds, or zero. `updates` says whether the identity can be added to the `.info` file.
pub record Vm : Type 0 where
  pub overlay : Overlay
  pub image : String
  pub image_id : Option (ℕ × ℕ)
  pub created : ℕ
  pub updates : Bool

-- What `os.stat` gives.
pub data Seen : Type 0 where
  seen : Stat → Seen
  missing unreadable : Seen

-- `os.stat` of a path. `outer` is what it gives where the directory does not decide.
unfoldable pub stat_at : (Place → Seen) → Dir → Place → Seen
stat_at outer d (outside p) = outer (outside p)
stat_at outer d (inside n) = elim (entry n d) [
  | none ↦ missing
  | some (file st) ↦ seen st
  | some _ ↦ outer (inside n)
]

-- The VM may boot, with the identity that is recorded afterwards; or it must not.
pub data Verdict : Type 0 where
  boots : Option (ℕ × ℕ) → Verdict
  refuses : Verdict

abbrev pub identity : Stat → ℕ × ℕ
identity st = (st.size, st.mtime)

abbrev pub same_identity : ℕ × ℕ → ℕ × ℕ → Bool
same_identity a b = a.0 == b.0 && a.1 == b.1

-- The path that is checked, and whether the header of the overlay names it.
unfoldable pub backing_of : Host → Vm → Option (Place × Bool)
backing_of e vm = elim (overlay_backing_file e vm.overlay) [
  | some p ↦ some (p, true)
  | none ↦ if vm.image == "" then none else some (e.image_path vm.image, false)
]

abbrev pub is_recorded : Vm → Bool
is_recorded vm = elim vm.image_id [ none ↦ false | some _ ↦ true ]

unfoldable pub check_stat : Vm → Stat → Verdict
check_stat vm st = elim vm.image_id [
  | some id ↦ if same_identity id (identity st) then boots (some id) else refuses
  | none ↦
      if vm.created == 0 || ltb (vm.created * 1000000000) (max st.mtime st.ctime)
      then boots none
      else if vm.updates
      then boots (some (identity st))
      else boots none
]

-- `check_backing`
unfoldable pub check_backing : Host → (Place → Seen) → Dir → Vm → Verdict
check_backing e outer d vm = elim (backing_of e vm) [
  | none ↦ boots vm.image_id
  | some (p, from_header) ↦ elim (stat_at outer d p) [
    | missing ↦ if not from_header && not (is_recorded vm) then boots none else refuses
    | unreadable ↦ boots vm.image_id
    | seen st ↦ check_stat vm st
  ]
]

check_backing-entry :
    (e : Host) (outer : Place → Seen) (d after : Dir) (vm : Vm) (n : String) (b : Bool)
    → backing_of e vm ≡ some (inside n, b)
    → entry n after ≡ entry n d
    → check_backing e outer after vm ≡ check_backing e outer d vm
unfolding check_backing stat_at
check_backing-entry e outer d after vm n b backed same = elim (Option-cases (entry n d)) [
  | inl z ↦ ground arith
  | inr (x, z) ↦ ground arith
]

-- Pruning images, and then installing one, leaves the answer of the check as it was for a VM whose overlay
-- is on the host and is backed by an image of the directory that is there. The names that the install tries
-- are as in install_image_lem.
pub check_backing-Stable :
    (e : Host) (outer : Place → Seen) (d : Dir) (vm : Vm) (n : String) (x : Entry)
    (before after : List Overlay) (c : Calls) (st : Stat) (dest : String)
    → e.overlays ≡ before ++ (vm.overlay ∷ after)
    → overlay_backing_file e vm.overlay ≡ some (inside n)
    → n ≢ current_name
    → entry n d ≡ some x
    → free_name c.names (prune_superseded e d).1 ≡ some dest
    → entry c.tmp (prune_superseded e d).1 ≡ none
    → c.tmp ≢ current_name
    → contains c.names c.tmp ≡ false
    → contains c.names current_name ≡ false
    → ((m : String) → contains c.names m ≡ true → is_absolute m ≡ false)
    → (check_backing e outer (prune_superseded e d).1 vm ≡ check_backing e outer d vm)
      × ((r : Result String) × (last : Dir) × (install_image c st (prune_superseded e d).1
            ≡ some (r, last))
          × (check_backing e outer last vm ≡ check_backing e outer d vm))
unfolding backing_of
check_backing-Stable e outer d vm n x before after c st dest listed backed named there found no_tmp
      tmp_name tmp_apart pointer_apart relative =
    let kept = backing-Kept e d n vm.overlay before after listed backed in
    let from : backing_of e vm ≡ some (inside n, true) = ground (arith, backed) in
    let all =
      install_image_lem e c st (prune_superseded e d).1 dest found no_tmp tmp_name tmp_apart
        pointer_apart relative in
    let same : entry n all.1 ≡ entry n d = all.3 n x named (kept ∙ there) ∙ sym there in
    (
      check_backing-entry e outer d (prune_superseded e d).1 vm n true from kept,
      (all.0, all.1, all.2, check_backing-entry e outer d all.1 vm n true from same),
    )
