-- ===== src/Images.antt =====
-- ltvm_pkg/image_store.py: the base images of a target, the pointer to the one that new VMs get, and the
-- overlays of VMs that are backed by them.
pub mod Prune
pub mod Gone
pub mod Install
pub mod Backing
use lustre_test_vms.Base.{
  ℕ, zero, suc, ◌+◌, ◌*◌, ◌-◌, max, String, ◌<>◌, Bool, true, false, not, ◌&&◌, ◌||◌, Option, none,
  some, List, [], ◌∷◌, ◌++◌, map, any, keep, length, ◌==◌, string_eq, nat_eq, contains, ltb, leb,
  if◌then◌else◌,
}
use lustre_test_vms.Result.{Result, ok, err, os_error, Err, Action, Done}
use lustre_test_vms.Owner.{codes}
use lustre_test_vms.Qemu.{strip, same_codes}
use lustre_test_vms.Vm.Options.{is_empty}

-- What `stat` says of a file; times in nanoseconds.
pub record Stat : Type 0 where
  pub size : ℕ
  pub mtime : ℕ
  pub ctime : ℕ

-- What stands in an image directory.
pub data Entry : Type 0 where
  file : Stat → Entry
  link : String → Entry
  other : Entry

abbrev pub Dir : Type 0
Dir = List (String × Entry)

-- A path: an entry of the image directory, or anything else.
pub data Place : Type 0 where
  inside : String → Place
  outside : String → Place

unfoldable pub same_path : Place → Place → Bool
same_path (inside a) (inside b) = a == b
same_path (outside a) (outside b) = a == b
same_path _ _ = false

abbrev pub among_paths : Place → List Place → Bool
among_paths p ps = any (same_path p) ps

abbrev pub entry : String → Dir → Option Entry
entry name [] = none
entry name (e ∷ es) = let rest = entry name es in if e.0 == name then some e.1 else rest

abbrev pub unlink : String → Dir → Dir
unlink name es = keep (λ (e : String × Entry). not (e.0 == name)) es

abbrev pub put_entry : String → Entry → Dir → Dir
put_entry name x es = (name, x) ∷ unlink name es

-- What can be read of an overlay: all its bytes, or nothing.
abbrev pub Overlay : Type 0
Overlay = String × Option (List ℕ)

-- The rest of the host. `real` is `os.path.realpath`; `resolve` makes a path of the bytes of a backing
-- file's name, which it takes from the overlay's directory if it is relative; `image_of` is the image that
-- a `.info` file records. `place` is what an absolute path names, compared as pathlib does: an entry, if it
-- is the directory's path with a name after it. `stat` is of paths outside, and `is_file` of paths that the directory does not
-- decide.
pub record Host : Type 0 where
  pub real : Place → Place
  pub resolve : String → List ℕ → Place
  pub place : String → Place
  pub image_path : String → Place
  pub vms : List (String × Option String)
  pub overlays : List Overlay
  pub is_file : String → Bool
  pub stat : String → Result Stat
  pub can_unlink : String → Bool

abbrev pub current_name : String
current_name = "current.ext4"

abbrev pub legacy_name : String
legacy_name = "base.ext4"

-- Code points that satisfy tests, one after another.
abbrev pub fits : List (ℕ → Bool) → List ℕ → Bool
fits [] [] = true
fits (p ∷ ps) (c ∷ cs) = p c && fits ps cs
fits _ _ = false

abbrev is_digit : ℕ → Bool
is_digit c = leb 48 c && leb c 57

abbrev is_hex : ℕ → Bool
is_hex c = is_digit c || (leb 97 c && leb c 102)

abbrev repeat : ℕ → (ℕ → Bool) → List (ℕ → Bool)
repeat zero p = []
repeat (suc n) p = p ∷ repeat n p

abbrev literal : List ℕ → List (ℕ → Bool)
literal cs = map (λ c. λ d. d == c) cs

-- `base-\d{8}T\d{6}-[0-9a-f]{6}\.ext4`
versioned : List (ℕ → Bool)
versioned =
    literal (codes "base-")
    ++ (repeat 8 is_digit
        ++ (literal (codes "T")
            ++ (repeat 6 is_digit
                ++ (literal (codes "-") ++ (repeat 6 is_hex ++ literal (codes ".ext4"))))))

-- `is_image_name`, whose `$` also matches before a newline that ends the name.
unfoldable pub is_image_name : String → Bool
unfolding versioned
is_image_name name =
    name == legacy_name
    || (fits versioned (codes name) || fits (versioned ++ literal (10 ∷ [])) (codes name))

-- Whether a text is an absolute path.
abbrev pub is_absolute : String → Bool
is_absolute t = elim (strip (codes "/") (codes t)) [ none ↦ false | some _ ↦ true ]

abbrev pub is_file_at : Host → Dir → String → Bool
is_file_at e d name = elim (entry name d) [
  | none ↦ false
  | some (file _) ↦ true
  | some (link _) ↦ e.is_file name
  | some other ↦ false
]

-- The path of an absolute pointer, if a file is there.
abbrev pub current_place : Host → Dir → Place → Option Place
current_place e d (inside n) = if is_file_at e d n then some (inside n) else none
current_place e d (outside p) = if e.is_file p then some (outside p) else none

-- `current_image`. A target of the pointer that is not absolute is the name of an entry.
unfoldable pub current_image : Host → Dir → Option Place
current_image e d = elim (entry current_name d) [
  | some (link target) ↦
      if is_absolute target
      then current_place e d (e.place target)
      else if is_file_at e d target
      then some (inside target)
      else none
  | _ ↦ if is_file_at e d legacy_name then some (inside legacy_name) else none
]

-- `image_files`: the names of the images that are files and no links.
unfoldable pub is_image_file : String × Entry → Bool
is_image_file (name, file _) = is_image_name name
is_image_file (name, _) = false

abbrev pub image_files : Dir → List String
image_files d = map (λ (e : String × Entry). e.0) (keep is_image_file d)

unfoldable pub take {ℓ} : {A : Type ℓ} → ℕ → List A → List A
take zero xs = []
take (suc n) [] = []
take (suc n) (x ∷ xs) = x ∷ take n xs

unfoldable pub drop {ℓ} : {A : Type ℓ} → ℕ → List A → List A
drop zero xs = xs
drop (suc n) [] = []
drop (suc n) (x ∷ xs) = drop n xs

-- `int.from_bytes(…, "big")`, after what was read before.
unfoldable pub big_endian : ℕ → List ℕ → ℕ
big_endian n [] = n
big_endian n (b ∷ bs) = big_endian (n * 256 + b) bs

abbrev pub qcow2_magic : List ℕ
qcow2_magic = 81 ∷ 70 ∷ 73 ∷ 251 ∷ []

-- Whether the first bytes are those of a qcow2 file.
unfoldable pub is_qcow2 : List ℕ → Bool
unfolding take
is_qcow2 bytes = leb 20 (length bytes) && same_codes (take 4 bytes) qcow2_magic

unfoldable pub backing_offset : List ℕ → ℕ
unfolding take drop big_endian
backing_offset bytes = big_endian 0 (take 8 (drop 8 bytes))

unfoldable pub backing_size : List ℕ → ℕ
unfolding take drop big_endian
backing_size bytes = big_endian 0 (take 4 (drop 16 bytes))

-- `overlay_backing_file`
unfoldable pub overlay_backing_file : Host → Overlay → Option Place
unfolding is_qcow2 backing_offset backing_size take drop
overlay_backing_file e (name, none) = none
overlay_backing_file e (name, some bytes) =
    if not (is_qcow2 bytes)
    then none
    else if backing_offset bytes == 0 || (backing_size bytes == 0 || ltb 1023 (backing_size bytes))
    then none
    else let raw = take (backing_size bytes) (drop (backing_offset bytes) bytes) in
      elim (strip (codes "json:") raw) [ some _ ↦ none | none ↦ some (e.resolve name raw) ]

-- `_has_no_backing`
unfoldable pub has_no_backing : Overlay → Bool
unfolding is_qcow2 backing_offset
has_no_backing (name, none) = false
has_no_backing (name, some bytes) = is_qcow2 bytes && backing_offset bytes == 0

-- The VMs whose `.info` file names an image.
unfoldable pub recorded : List (String × Option String) → List (String × String)
recorded [] = []
recorded ((name, none) ∷ vms) = recorded vms
recorded ((name, some image) ∷ vms) =
    let rest = recorded vms in if image == "" then rest else (name, image) ∷ rest

unfoldable pub overlay_refs : Host → List Overlay → List Place
overlay_refs e [] = []
overlay_refs e (o ∷ os) =
    let rest = overlay_refs e os in
    elim (overlay_backing_file e o) [ none ↦ rest | some p ↦ e.real p ∷ rest ]

abbrev pub is_unknown : Host → Overlay → Bool
is_unknown e o = elim (overlay_backing_file e o) [
  | some _ ↦ false
  | none ↦
      not (any (λ (r : String × String). r.0 == o.0) (recorded e.vms)) && not (has_no_backing o)
]

-- `referenced_images`: the real paths, and whether an overlay's backing file is unknown.
unfoldable pub referenced_images : Host → List Place × Bool
unfolding recorded overlay_refs
referenced_images e = (
  map (λ (r : String × String). e.real (e.image_path r.1)) (recorded e.vms)
      ++ overlay_refs e e.overlays,
  any (is_unknown e) e.overlays,
)

-- The loop of `prune_superseded`, with the bytes freed.
unfoldable pub prune_each : Host → Place → List Place → List String → Dir → ℕ × Dir
prune_each e current refs [] d = (0, d)
prune_each e current refs (f ∷ fs) d =
    if same_path (inside f) current || among_paths (e.real (inside f)) refs
    then prune_each e current refs fs d
    else elim (entry f d) [
      | some (file st) ↦
          let rest = prune_each e current refs fs (unlink f d) in
          let kept = prune_each e current refs fs d in
          if e.can_unlink f then (st.size + rest.0, rest.1) else kept
      | _ ↦ prune_each e current refs fs d
    ]

-- `prune_superseded`
unfoldable pub prune_superseded : Host → Dir → ℕ × Dir
prune_superseded e d = elim (current_image e d) [
  | none ↦ (0, d)
  | some current ↦
      if (referenced_images e).1
      then (0, d)
      else prune_each e current (referenced_images e).0 (image_files d) d
]
