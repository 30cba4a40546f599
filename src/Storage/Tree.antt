-- ===== src/Storage/Tree.antt =====
-- ltvm_pkg/storage.py: `_share_mode`, `_copy_tree` and `_verify_copy` on a directory tree. The bytes
-- of a file are one value. An I/O error is a fault of the move, in Storage/Relocate.
pub mod Copy
use Prim.Native.Nat.{bit_and, bit_or}
use lustre_test_vms.Base.{
  ℕ, ◌/◌, String, Bool, true, false, Option, none, some, ◌&&◌, ◌||◌, not, ◌==◌, nat_eq, string_eq,
  if◌then◌else◌,
}

-- What `lstat` tells of a file, a link or a directory.
pub record Stat : Type 0 where
  pub mode : ℕ
  pub size : ℕ
  pub mtime_ns : ℕ

mutual
  pub data Tree : Type 0 where
    file : Stat → String → Tree
    link : Stat → String → Tree
    dir : Stat → Entries → Tree
    special : Stat → Tree

  -- The entries of a directory, in the order of their names.
  pub data Entries : Type 0 where
    end : Entries
    entry : String → Tree → Entries → Entries

abbrev pub setgid_bit : ℕ
setgid_bit = 0o2000

-- `_share_mode`: the group gets the owner's bits.
unfoldable pub share_mode : ℕ → Bool → Bool → ℕ
share_mode mode parent_setgid is_dir =
    let shared = bit_or mode (bit_and mode 0o700 / 8) in
    if is_dir && parent_setgid then bit_or shared setgid_bit else shared

abbrev remode : Bool → Bool → Bool → Stat → Stat
remode share parent_setgid is_dir st =
    if share then record st { mode = share_mode st.mode parent_setgid is_dir } else st

with_entry : String → Option Tree → Option Entries → Option Entries
with_entry name (some t) (some es) = some (entry name t es)
with_entry name _ _ = none

with_dir : Stat → Option Entries → Option Tree
with_dir st none = none
with_dir st (some es) = some (dir st es)

-- `_copy_tree`; `none` is the `StorageError` at an entry that is no file, directory or link. A new
-- directory has the setgid bit of the directory that it is made in, so one flag serves at any depth.
unfoldable mutual
  unfolding with_entry with_dir share_mode

  pub copy_tree : Bool → Bool → Tree → Option Tree
  copy_tree share setgid (file st bytes) = some (file (remode share false false st) bytes)
  copy_tree share setgid (link st target) = some (link st target)
  copy_tree share setgid (dir st es) =
      with_dir (remode share setgid true st) (copy_entries share setgid es)
  copy_tree share setgid (special st) = none

  pub copy_entries : Bool → Bool → Entries → Option Entries
  copy_entries share setgid end = some end
  copy_entries share setgid (entry name t es) =
      with_entry name (copy_tree share setgid t) (copy_entries share setgid es)

unfoldable pub find : String → Entries → Option Tree
find name end = none
find name (entry n t es) = if n == name then some t else find name es

is_some {ℓ} : {A : Type ℓ} → Option A → Bool
is_some none = false
is_some (some _) = true

-- Every name of the first directory stands in the second.
names_in : Entries → Entries → Bool
names_in end es = true
names_in (entry name t rest) es = is_some (find name es) && names_in rest es

same_stat : Stat → Stat → Bool
same_stat a b = a.size == b.size && a.mtime_ns == b.mtime_ns

counterpart : (Tree → Bool) → Option Tree → Bool
counterpart verified none = false
counterpart verified (some u) = verified u

-- The roots of two directories against each other, without a look at their types.
at_roots : (Entries → Bool) → Entries → Tree → Bool
at_roots verified es (dir st fs) = names_in es fs && (names_in fs es && verified fs)
at_roots verified es _ = false

-- `_verify_copy` of one entry and its counterpart: the type, then a directory's entries, a link's
-- target, or the size and the time of anything else.
unfoldable mutual
  unfolding at_roots names_in is_some same_stat find counterpart

  pub verify : Tree → Tree → Bool
  verify (file st bytes) (file st' bytes') = same_stat st st'
  verify (link st target) (link st' target') = target == target'
  verify (dir st es) u = at_roots (verify_entries es) es u
  verify (special st) (special st') = same_stat st st'
  verify _ _ = false

  pub verify_entries : Entries → Entries → Bool
  verify_entries end fs = true
  verify_entries (entry name t es) fs =
      counterpart (verify t) (find name fs) && verify_entries es fs
