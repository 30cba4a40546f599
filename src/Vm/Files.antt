-- ===== src/Vm/Files.antt =====
-- The files of a VM: `disk_path` and `disk_paths` of ltvm_pkg/vm_state.py, and `_create_disks`,
-- `_destroy_vm_artifacts` and `_disk_dir_files` of ltvm_pkg/vm_commands.py. A host's files are told apart
-- by what they are and by the VM whose name they carry; a data disk by its directory and its name.
pub mod Laws
pub mod Destroyed
pub mod Created
use lustre_test_vms.Base.{
  ℕ, zero, suc, ◌+◌, ◌/◌, ◌%◌, String, Bool, true, false, not, ◌&&◌, ◌||◌, Option, none, some, List,
  [], ◌∷◌, ◌++◌, map, any, keep, ◌==◌, string_eq, nat_eq, ltb, leb, if◌then◌else◌,
}
use lustre_test_vms.Result.{Result, ok, err, os_error, command_failed, Err, Action, Done}
use lustre_test_vms.Owner.{codes, Attempt, done, denied, failed}
use lustre_test_vms.Qemu.{strip, same_codes}

-- The fields of `VMInfo` that the commands here use. Absent texts are empty.
pub record VmInfo : Type 0 where
  pub name : String
  pub ip : String
  pub mdt_disks : ℕ
  pub ost_disks : ℕ
  pub disk_size : ℕ
  pub share_disks : Bool
  pub disks_from : String
  pub disk_dir : String
  pub nics : ℕ
  pub passthrough_drivers : List (String × String)

pub data File : Type 0 where
  overlay qmp pid info log failed_log info_lock : String → File
  disk : String → List ℕ → File

-- What a file holds: the fields of a VM, or anything else.
pub data Content : Type 0 where
  bytes : Content
  fields : VmInfo → Content

abbrev pub Files : Type 0
Files = List (File × Content)

-- The kind of a file, and the texts that tell files of a kind apart.
abbrev pub key : File → ℕ × String × List ℕ
key (overlay a) = (0, a, [])
key (qmp a) = (1, a, [])
key (pid a) = (2, a, [])
key (info a) = (3, a, [])
key (log a) = (4, a, [])
key (failed_log a) = (5, a, [])
key (info_lock a) = (6, a, [])
key (disk dir n) = (7, dir, n)

-- Whether two files are the same.
unfoldable pub same_file : File → File → Bool
same_file f g = (key f).0 == (key g).0 && ((key f).1 == (key g).1 && same_codes (key f).2 (key g).2)

abbrev pub content : File → Files → Option Content
content f [] = none
content f (e ∷ es) = let rest = content f es in if same_file e.0 f then some e.1 else rest

abbrev pub remove : File → Files → Files
remove f es = keep (λ (e : File × Content). not (same_file e.0 f)) es

abbrev pub write : File → Content → Files → Files
write f c es = (f, c) ∷ remove f es

-- `VMInfo.load`; `none` is a file that cannot be read, or is not there.
unfoldable pub load : String → Files → Option VmInfo
load name es = elim (content (info name) es) [
  | none ↦ none
  | some bytes ↦ none
  | some (fields vm) ↦ some vm
]

-- `VMInfo.all_names` with what `load` reads.
unfoldable pub all_vms : Files → List (String × VmInfo)
all_vms [] = []
all_vms ((info name, fields vm) ∷ es) = (name, vm) ∷ all_vms es
all_vms (_ ∷ es) = all_vms es

-- The decimal digits of a number. The number has fewer digits than one more than itself.
unfoldable pub digits_on : ℕ → ℕ → List ℕ
digits_on zero n = []
digits_on (suc fuel) n =
    let rest = digits_on fuel (n / 10) in
    if ltb n 10 then (48 + n) ∷ [] else rest ++ ((48 + n % 10) ∷ [])

unfoldable pub digits : ℕ → List ℕ
unfolding digits_on
digits n = digits_on (suc n) n

-- The code points of `-disk` and of `.img`.
abbrev pub dash_disk : List ℕ
dash_disk = 45 ∷ 100 ∷ 105 ∷ 115 ∷ 107 ∷ []

abbrev pub dot_img : List ℕ
dot_img = 46 ∷ 105 ∷ 109 ∷ 103 ∷ []

abbrev pub disk_prefix : String → List ℕ
disk_prefix name = codes name ++ dash_disk

unfoldable pub disk_name : String → ℕ → List ℕ
disk_name name n = disk_prefix name ++ (digits n ++ dot_img)

-- What the commands of this file meet. `unlink` and `sudo_rm` say what becomes of a file, `make` what
-- the commands that make an image do, `resize` whether the overlay can be grown.
pub data Made : Type 0 where
  made made_part made_nothing : Made

pub record Host : Type 0 where
  pub overlays : String
  pub unlink : File → Attempt
  pub sudo_rm : File → Bool
  pub overlays_ready : Result Done
  pub make : File → Made
  pub resize : Bool

-- `VMInfo.disk_dir_path`
abbrev pub disk_dir_path : Host → VmInfo → String
disk_dir_path e vm = if vm.disk_dir == "" then e.overlays else vm.disk_dir

unfoldable pub numbered_disks : String → String → ℕ → ℕ → List File
numbered_disks dir name n zero = []
numbered_disks dir name n (suc count) =
    disk dir (disk_name name n) ∷ numbered_disks dir name (suc n) count

-- `VMInfo.disk_paths`
unfoldable pub disk_paths : Host → VmInfo → List File
unfolding numbered_disks
disk_paths e vm = numbered_disks (disk_dir_path e vm) vm.name 1 (vm.mdt_disks + vm.ost_disks)

-- The loop that unlinks, and hands on what needs root.
unfoldable pub unlink_each : Host → List File → List File → Action Files (List File)
unlink_each e [] stuck fs = (ok stuck, fs)
unlink_each e (f ∷ rest) stuck fs = elim (e.unlink f) [
  | done ↦ unlink_each e rest stuck (remove f fs)
  | denied ↦ unlink_each e rest (stuck ++ (f ∷ [])) fs
  | failed ↦ (err os_error, fs)
]

-- `sudo rm -f`, which is not checked.
unfoldable pub sudo_rm_each : Host → List File → Files → Files
sudo_rm_each e [] fs = fs
sudo_rm_each e (f ∷ rest) fs = sudo_rm_each e rest (if e.sudo_rm f then remove f fs else fs)

unfoldable pub unlink_all : Host → List File → Action Files Done
unlink_all e targets fs = elim (unlink_each e targets [] fs).0 [
  | err x ↦ (err x, (unlink_each e targets [] fs).1)
  | ok stuck ↦ (ok tt, sudo_rm_each e stuck (unlink_each e targets [] fs).1)
]

-- One image that is made.
unfoldable pub make_file : Host → File → Action Files Done
make_file e f fs = elim (e.make f) [
  | made ↦ (ok tt, write f bytes fs)
  | made_part ↦ (err command_failed, write f bytes fs)
  | made_nothing ↦ (err command_failed, fs)
]

unfoldable pub make_each : Host → List File → Action Files Done
make_each e [] fs = (ok tt, fs)
make_each e (f ∷ rest) fs = elim (make_file e f fs).0 [
  | err x ↦ (err x, (make_file e f fs).1)
  | ok _ ↦ make_each e rest (make_file e f fs).1
]

-- The `try` of `_create_disks`.
unfoldable pub make_disks : Host → VmInfo → Action Files Done
make_disks e vm fs = elim (make_file e (overlay vm.name) fs).0 [
  | err x ↦ (err x, (make_file e (overlay vm.name) fs).1)
  | ok _ ↦
      if e.resize
      then make_each e (disk_paths e vm) (make_file e (overlay vm.name) fs).1
      else (err command_failed, (make_file e (overlay vm.name) fs).1)
]

-- `_create_disks`: when an image cannot be made, all of them are unlinked and the error is raised.
unfoldable pub create_disks : Host → VmInfo → Action Files Done
create_disks e vm fs = elim e.overlays_ready [
  | err x ↦ (err x, fs)
  | ok _ ↦ elim (make_disks e vm fs).0 [
    | ok _ ↦ (ok tt, (make_disks e vm fs).1)
    | err x ↦ elim (unlink_all e (overlay vm.name ∷ disk_paths e vm) (make_disks e vm fs).1).0 [
      | err y ↦ (err y, (unlink_all e (overlay vm.name ∷ disk_paths e vm) (make_disks e vm fs).1).1)
      | ok _ ↦ (err x, (unlink_all e (overlay vm.name ∷ disk_paths e vm) (make_disks e vm fs).1).1)
    ]
  ]
]

abbrev pub is_digit : ℕ → Bool
is_digit c = leb 48 c && leb c 57

-- `\d+\.img`, at the end of a name, after digits or not.
unfoldable pub is_number_img : Bool → List ℕ → Bool
is_number_img seen [] = false
is_number_img seen (c ∷ cs) =
    let rest = is_number_img true cs in
    (seen && same_codes (c ∷ cs) dot_img) || (is_digit c && rest)

-- Whether the code points end with `.img`.
unfoldable pub ends_img : List ℕ → Bool
ends_img [] = false
ends_img (c ∷ cs) = let rest = ends_img cs in same_codes (c ∷ cs) dot_img || rest

-- The pattern `<name>-disk*.img`, among the overlays.
unfoldable pub is_globbed : Host → String → File → Bool
is_globbed e name (disk dir n) =
    dir == e.overlays
    && elim (strip (disk_prefix name) n) [ none ↦ false | some rest ↦ ends_img rest ]
is_globbed e name _ = false

-- The pattern `<name>-disk\d+\.img` in a directory.
unfoldable pub is_disk_of : String → String → File → Bool
is_disk_of dir name (disk d n) =
    d == dir
    && elim (strip (disk_prefix name) n) [ none ↦ false | some rest ↦ is_number_img false rest ]
is_disk_of dir name _ = false

abbrev pub file_names : Files → List File
file_names es = map (λ (e : File × Content). e.0) es

-- `_disk_dir_files`, of one VM.
unfoldable pub disk_dir_files : String → String → Files → List File
disk_dir_files dir name fs = keep (is_disk_of dir name) (file_names fs)

-- The disks that are found through the `.info` file.
unfoldable pub recorded_disks : String → Files → List File
recorded_disks name fs = elim (load name fs) [
  | none ↦ []
  | some vm ↦ if vm.disk_dir == "" then [] else disk_dir_files vm.disk_dir name fs
]

unfoldable pub artifacts : Host → String → Files → List File
artifacts e name fs =
    let small = qmp name ∷ pid name ∷ info name ∷ log name ∷ info_lock name ∷ [] in
    overlay name ∷ (keep (is_globbed e name) (file_names fs) ++ (recorded_disks name fs ++ small))

-- `_destroy_vm_artifacts`; the name is one that lookups allow.
unfoldable pub destroy_vm_artifacts : Host → String → Action Files Done
unfolding artifacts
destroy_vm_artifacts e name fs = unlink_all e (artifacts e name fs) fs
