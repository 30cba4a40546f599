-- ===== src/Tests/Storage.antt =====
-- Archives of a small tree, with and without faults.

use lustre_test_vms.Base.{ℕ, ◌≡◌, ◌⊎◌, refl, ap, true, false, some, [], ◌∷◌, string_eq, nat_eq}
use lustre_test_vms.Result.{ok, err, storage_error}
use lustre_test_vms.Storage.Tree.{
  Tree, Stat, file, link, dir, Entries, end, entry, copy_tree, verify,
}
use lustre_test_vms.Storage.Tree.Copy.{Agree, at_path, verify-at_path}
use lustre_test_vms.Storage.Relocate
use lustre_test_vms.Storage.Relocate.{
  Disk, Faults, Options, absent, held, to_dest, clean, relocate, stage, switch, rename_staged,
  switched, link_across,
}
use lustre_test_vms.Storage.Relocate.Outcome.{Keeps, relocate_error_restores, relocate_never_loses}
use lustre_test_vms.Storage.Relocate.Done.{relocate_done}

abbrev pub stat : ℕ → Stat
stat mode = record { mode = mode; size = 10; mtime_ns = 1700000000123456789 }

abbrev pub files : Entries
files = entry "base.ext4" (file (stat 0o644) "image") (
    entry "kernel" (dir (stat 0o755) (entry "vmlinuz" (file (stat 0o600) "bz") end))
      (entry "latest" (link (stat 0o777) "kernel") end))

abbrev pub tree : Tree
tree = dir (stat 0o755) files

-- On a shared destination below a setgid directory.
abbrev shared_copy : Tree
shared_copy = dir (stat 0o2775) (
    entry "base.ext4" (file (stat 0o664) "image") (
      entry "kernel" (dir (stat 0o2775) (entry "vmlinuz" (file (stat 0o660) "bz") end))
        (entry "latest" (link (stat 0o777) "kernel") end)))

copied : copy_tree true true tree ≡ some shared_copy
unfolding copy_tree
copied = refl

passes : verify tree shared_copy ≡ true
unfolding verify string_eq nat_eq
passes = refl

unlike : verify tree (dir (stat 0o755) end) ≡ false
unfolding verify string_eq nat_eq
unlike = refl

verify-at_path_example :
    Agree
      (at_path ("kernel" ∷ "vmlinuz" ∷ []) tree)
      (at_path ("kernel" ∷ "vmlinuz" ∷ []) shared_copy)
verify-at_path_example = verify-at_path ("kernel" ∷ "vmlinuz" ∷ []) tree shared_copy passes

abbrev pub no_faults : Faults
no_faults = record {
  make_parent = false;
  copy = false;
  landed = λ t. t;
  move_aside = false;
  put_back = false;
  rename = false;
  symlink = false;
  rename_back = false;
  move_old = false;
  move_link = false;
  undo_old = false;
  drop_tmp = false;
  drop_aside = false;
  remove = false;
}

abbrev archive : Options
archive = record { link_back = true; share = false; setgid = false; same_fs = false }

abbrev pub start : Disk
start = record {
  src = held tree;
  dest = absent;
  staged = absent;
  aside = absent;
  link_tmp = absent;
  old = absent;
}

archived :
    relocate archive no_faults start
    ≡ (ok clean, record start { src = Relocate.link to_dest; dest = held tree })
unfolding relocate stage switch rename_staged switched link_across copy_tree verify string_eq nat_eq
archived = refl

abbrev no_swap : Faults
no_swap = record no_faults { move_link = true }

rolled_back : relocate archive no_swap start ≡ (err storage_error, start)
unfolding relocate stage switch rename_staged switched link_across copy_tree verify string_eq nat_eq
rolled_back = refl

relocate_error_restores_example : (relocate archive no_swap start).1 ≡ start
relocate_error_restores_example =
    relocate_error_restores archive no_swap start
      (record { staged = refl; aside = refl; link_tmp = refl; old = refl })
      (record { put_back = refl; rename_back = refl; undo_old = refl; drop_tmp = refl })
      (ap (λ x. x.0) rolled_back)

-- The second rename fails, and so does the one that would undo the first.
abbrev no_way_back : Faults
no_way_back = record no_swap { undo_old = true }

relocate_never_loses_example :
    let d = (relocate archive no_way_back start).1 in
    Keeps tree d.src ⊎ Keeps tree d.dest ⊎ Keeps tree d.old
relocate_never_loses_example =
    relocate_never_loses archive no_way_back start (stat 0o755) files refl

relocate_done_example :
    let d = (relocate archive no_faults start).1 in
    Keeps tree d.dest
    × (archive.link_back ≡ true → d.src ≡ Relocate.link to_dest)
    × (archive.link_back ≡ false → (d.src ≡ absent) ⊎ (clean ≡ Relocate.warned))
relocate_done_example =
    relocate_done archive no_faults start (stat 0o755) files clean refl (ap (λ x. x.0) archived)
