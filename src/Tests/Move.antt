-- ===== src/Tests/Move.antt =====
-- A restore of one arch of a target that a stopped VM uses.
use lustre_test_vms.Base.{
  ◌≡◌, refl, true, false, none, some, [], ◌∷◌, ◌==◌, string_eq, nat_eq, if◌then◌else◌,
}
use lustre_test_vms.Result.{ok}
use lustre_test_vms.Storage.Move.{
  VmRef, image, Move, Roots, missing, directory, World, State, plan, reaches, checked, match_refs,
  refusal, under, new_path, move_each, valid_name,
}
use lustre_test_vms.Storage.Move.Safety.{move_each_never_loses, Stands}
use lustre_test_vms.Tests.Storage.{no_faults, files, stat, start}

abbrev roots : Roots
roots = record {
  hot_root = "/h";
  cold_root = some "/c";
  hot = λ a. missing;
  cold = λ a. if a == "x86_64" then directory else missing;
  hot_names = none;
  cold_names = some ("x86_64" ∷ ".tmp" ∷ []);
}

abbrev ref : VmRef
ref = record {
  vm = "co1";
  running = false;
  what = image;
  path = "/c/rocky9/x86_64/base.ext4";
  overlay = none;
  has_info = true;
}

abbrev move : Move
move = record {
  target = "rocky9";
  arch = "x86_64";
  hot = "/h/rocky9/x86_64";
  cold = "/c/rocky9/x86_64";
  src = "/c/rocky9/x86_64";
  dest = "/h/rocky9/x86_64";
  refs = [];
  repoint = [];
}

planned : plan roots "rocky9" none false ≡ ok (move ∷ [])
unfolding plan string_eq nat_eq valid_name
planned = refl

abbrev world : World
world = record {
  roots = roots;
  real = λ p. p;
  vm_refs = ref ∷ [];
  overlay_writable = λ o. true;
  survey = λ p. some 10;
  writable_parents = λ a. true;
  same_fs = false;
  free = 2000000000;
  lock_free = true;
  shared = false;
  setgid = false;
  faults = λ a. no_faults;
  repoint_fails = λ r. false;
}

abbrev matched : Move
matched = record move { refs = ref ∷ []; repoint = (ref, "/h/rocky9/x86_64/base.ext4") ∷ [] }

passes : checked world "rocky9" none false true ≡ ok (matched ∷ [])
unfolding checked plan refusal match_refs reaches new_path under string_eq nat_eq valid_name
passes = refl

abbrev state : State
state = record { disks = λ a. start; repointed = [] }

move_each_never_loses_example :
    Stands (stat 0o755) files ((move_each world false (matched ∷ []) state).1.disks "x86_64")
move_each_never_loses_example =
    move_each_never_loses world false (matched ∷ []) state "x86_64" (stat 0o755) files (tt, tt) refl
