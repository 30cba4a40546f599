-- ===== src/Storage/Relocate.antt =====
-- ltvm_pkg/storage.py: `relocate`. It touches six names: the source, the destination, and four
-- temporary names beside them, which no one else uses. A fault is a call of the operating system that
-- raises `OSError`; what a disk makes of the bytes that are written is `landed`. `rmtree` with errors
-- ignored is taken to remove.
pub mod Outcome
pub mod Done
use lustre_test_vms.Base.{Bool, true, false, Option, none, some, if◌then◌else◌}
use lustre_test_vms.Result.{Result, ok, err, storage_error, os_error}
use lustre_test_vms.Storage.Tree.{Tree, dir, copy_tree, verify}

-- Where a symbolic link leads in the end.
pub data Target : Type 0 where
  to_src to_dest elsewhere : Target

pub data Node : Type 0 where
  absent : Node
  held : Tree → Node
  link : Target → Node
  -- what an `rmtree` that failed has left
  partial : Tree → Node

pub record Disk : Type 0 where
  pub src : Node
  pub dest : Node
  -- `.<dest>.ltvm-<pid>-copy` and `-link`, beside the destination
  pub staged : Node
  pub aside : Node
  -- `.<src>.ltvm-<pid>-link` and `-old`, beside the source
  pub link_tmp : Node
  pub old : Node

pub record Faults : Type 0 where
  pub make_parent : Bool
  pub copy : Bool
  pub landed : Tree → Tree
  pub move_aside : Bool
  pub put_back : Bool
  pub rename : Bool
  pub symlink : Bool
  pub rename_back : Bool
  pub move_old : Bool
  pub move_link : Bool
  pub undo_old : Bool
  pub drop_tmp : Bool
  pub drop_aside : Bool
  pub remove : Bool

-- What the call returns: nothing, or the warning that the old copy is not all removed.
pub data Report : Type 0 where
  clean warned : Report

pub record Options : Type 0 where
  pub link_back : Bool
  pub share : Bool
  -- the destination's parent is setgid; it is on the same filesystem
  pub setgid : Bool
  pub same_fs : Bool

abbrev pub Outcome : Type 0
Outcome = Result Report × Disk

-- `retire`: the old copy is removed. Within one filesystem nothing is left to remove.
retire_src : Faults → Disk → Outcome
retire_src f d = elim d.src [
  | held t ↦
      if f.remove
      then (ok warned, record d { src = partial t })
      else (ok clean, record d { src = absent })
  | _ ↦ (ok clean, d)
]

retire_old : Faults → Disk → Outcome
retire_old f d = elim d.old [
  | held t ↦
      if f.remove
      then (ok warned, record d { old = partial t })
      else (ok clean, record d { old = absent })
  | _ ↦ (ok clean, d)
]

-- `if aside is not None`: the unlink's error is suppressed.
forget_aside : Faults → Disk → Disk
forget_aside f d = if f.drop_aside then d else record d { aside = absent }

-- `put_back_link`
put_back_link : Bool → Faults → Disk → Outcome
put_back_link replace f d =
    if replace
    then (if f.put_back
        then (err os_error, d)
        else (err storage_error, record d { dest = d.aside; aside = absent }))
    else (err storage_error, d)

-- The handler of the link step across filesystems: the copy goes, and the old link returns.
unlink_copy : Bool → Faults → Disk → Outcome
unfolding put_back_link
unlink_copy replace f d = put_back_link replace f (record d { dest = absent })

drop_tmp : Faults → Disk → Disk
drop_tmp f d = if f.drop_tmp then d else record d { link_tmp = absent }

-- The link step across filesystems: a link beside the source, and two renames.
unfoldable pub link_across : Bool → Faults → Disk → Outcome
unfolding unlink_copy drop_tmp forget_aside retire_old
link_across replace f d =
    if f.symlink
    then unlink_copy replace f d
    else (let d1 : Disk = record d { link_tmp = link to_dest } in
        if f.move_old
        then unlink_copy replace f (drop_tmp f d1)
        else (let d2 : Disk = record d1 { old = d1.src; src = absent } in
            if f.move_link
            then (if f.undo_old
                then unlink_copy replace f d2
                else unlink_copy replace f (drop_tmp f (record d2 { src = d2.old; old = absent })))
            else retire_old f
                (forget_aside f (record d2 { src = d2.link_tmp; link_tmp = absent }))))

-- The link step within a filesystem: the source was renamed away just now.
unfoldable pub link_within : Bool → Faults → Disk → Outcome
unfolding put_back_link forget_aside
link_within replace f d =
    if f.symlink
    then (if f.rename_back
        then (err os_error, d)
        else put_back_link replace f (record d { src = d.dest; dest = absent }))
    else (ok clean, forget_aside f (record d { src = link to_dest }))

-- After `os.rename(staged, dest)`.
unfoldable pub switched : Options → Bool → Faults → Disk → Outcome
unfolding retire_src forget_aside
switched o replace f d =
    if o.link_back
    then (if o.same_fs then link_within replace f d else link_across replace f d)
    else (if o.same_fs then (ok clean, forget_aside f d) else retire_src f (forget_aside f d))

-- `undo_copy`
undo_copy : Options → Disk → Disk
undo_copy o d = if o.same_fs then d else record d { staged = absent }

-- A rename that fails puts the link back first; only then is the copy removed.
rename_failed : Options → Bool → Faults → Disk → Outcome
unfolding put_back_link undo_copy
rename_failed o replace f d =
    if replace
    then (if f.put_back
        then (err os_error, d)
        else (err storage_error, undo_copy o (record d { dest = d.aside; aside = absent })))
    else (err storage_error, undo_copy o d)

unfoldable pub rename_staged : Options → Bool → Faults → Disk → Outcome
unfolding rename_failed
rename_staged o replace f d =
    if f.rename
    then rename_failed o replace f d
    else if o.same_fs
    then switched o replace f (record d { dest = d.src; src = absent })
    else switched o replace f (record d { dest = d.staged; staged = absent })

-- The old link at the destination is moved aside.
unfoldable pub switch : Options → Bool → Faults → Disk → Outcome
unfolding undo_copy
switch o replace f d =
    if replace
    then (if f.move_aside
        then (err storage_error, undo_copy o d)
        else rename_staged o replace f (record d { aside = d.dest; dest = absent }))
    else rename_staged o replace f d

-- The copy beside the destination, when the filesystems differ.
unfoldable pub stage : Options → Bool → Faults → Tree → Disk → Outcome
stage o replace f t d = elim (copy_tree o.share o.setgid t) [
  | none ↦ (err storage_error, d)
  | some u ↦
      if f.copy
      then (err storage_error, d)
      else if verify t (f.landed u)
      then switch o replace f (record d { staged = held (f.landed u) })
      else (err storage_error, d)
]

abbrev from_tree : Options → Bool → Faults → Tree → Disk → Outcome
from_tree o replace f t d =
    if f.make_parent
    then (err os_error, d)
    else if o.same_fs
    then switch o replace f d
    else stage o replace f t d

-- The destination must not exist, or be a link to the source.
unfoldable pub relocate : Options → Faults → Disk → Outcome
relocate o f d = elim d.src [
  | held (dir st es) ↦ elim d.dest [
    | absent ↦ from_tree o false f (dir st es) d
    | link to_src ↦ from_tree o true f (dir st es) d
    | _ ↦ (err storage_error, d)
  ]
  | _ ↦ (err storage_error, d)
]
