-- ===== src/Vm/Devices.antt =====
-- PCI devices that are passed to VMs: `bind_to_vfio` and `rebind` of ltvm_pkg/vfio.py, the loops over
-- them in `_launch_and_wait` and `_rollback_launch_failure`, and `_check_passthrough_conflicts`, of
-- ltvm_pkg/vm_commands.py. The state is the driver of each device, or "" where it has none.
pub mod Laws
use lustre_test_vms.Base.{
  String, Bool, true, false, not, ◌||◌, ◌&&◌, List, [], ◌∷◌, any, string_eq, ◌==◌, contains,
  if◌then◌else◌,
}
use lustre_test_vms.Result.{Result, ok, err, exit, Done}
use lustre_test_vms.Vm.Files.{VmInfo, Files, all_vms}

abbrev pub Drivers : Type 0
Drivers = String → String

abbrev pub Recorded : Type 0
Recorded = List (String × String)

-- How a bind goes: it is refused before the device is unbound, or fails after that.
pub data Bind : Type 0 where
  binds refuses stops_halfway : Bind

pub record Bus : Type 0 where
  pub bind : String → Bind
  pub rebind : String → String → Bool

abbrev pub set_driver : String → String → Drivers → Drivers
set_driver bdf d ds b = if b == bdf then d else ds b

-- `bind_to_vfio`, with `VfioError` as its caller passes it on: the driver that the device had.
unfoldable pub bind_to_vfio : Bus → String → Drivers → Result String × Drivers
bind_to_vfio e bdf ds = if ds bdf == "vfio-pci" then (ok "", ds) else elim (e.bind bdf) [
  | binds ↦ (ok (ds bdf), set_driver bdf "vfio-pci" ds)
  | refuses ↦ (err exit, ds)
  | stops_halfway ↦ (err exit, set_driver bdf "" ds)
]

-- `passthrough_drivers[bdf] = driver`
abbrev pub put : String → String → Recorded → Recorded
put k v [] = (k, v) ∷ []
put k v (r ∷ rs) = let rest = put k v rs in if r.0 == k then (k, v) ∷ rs else r ∷ rest

-- The loop that binds: how it ends, what is recorded, and the drivers.
unfoldable pub bind_each : Bus → List String → Recorded → Drivers → Result Done × Recorded × Drivers
bind_each e [] rec ds = (ok tt, rec, ds)
bind_each e (bdf ∷ bdfs) rec ds = elim (bind_to_vfio e bdf ds).0 [
  | err x ↦ (err x, rec, (bind_to_vfio e bdf ds).1)
  | ok from ↦ bind_each e bdfs (put bdf from rec) (bind_to_vfio e bdf ds).1
]

-- The loop that gives devices back; an error is only reported.
unfoldable pub rebind_each : Bus → Recorded → Drivers → Drivers
rebind_each e [] ds = ds
rebind_each e (r ∷ rs) ds =
    rebind_each e rs (if not (r.1 == "") && e.rebind r.0 r.1 then set_driver r.0 r.1 ds else ds)

abbrev pub has_key : String → Recorded → Bool
has_key k rs = any (λ (r : String × String). r.0 == k) rs

-- Whether a VM has one of the devices.
abbrev pub clashes : List String → String × VmInfo → Bool
clashes bdfs v = any (λ b. has_key b v.1.passthrough_drivers) bdfs

-- `_check_passthrough_conflicts`
unfoldable pub check_passthrough_conflicts : List String → Files → Result Done
check_passthrough_conflicts bdfs fs = if any (clashes bdfs) (all_vms fs) then err exit else ok tt
