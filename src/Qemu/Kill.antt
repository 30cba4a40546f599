-- ===== src/Qemu/Kill.antt =====
-- `kill_qemu` of ltvm_pkg/qemu_run.py. The host changes while it runs: each look and each signal comes at
-- a later moment than the one before, and `sight` is what the host shows at each.
pub mod Aim
pub mod Outcome
use lustre_test_vms.Base.{
  ℕ, zero, suc, String, Bool, true, false, not, ◌&&◌, ◌||◌, Option, none, some, List, [], ◌∷◌, ◌==◌,
  nat_eq, string_eq, if◌then◌else◌,
}
use lustre_test_vms.Result.{Result, ok, err, exit, Done}
use lustre_test_vms.Qemu.{Sight, is_running, pid_alive, signal_qemu}

-- `update_pid` is how `vm.update_pid(0)` ends where the VM has an .info file: the lock or the file may
-- refuse the write.
pub record Host : Type 0 where
  pub macos : Bool
  pub sight : ℕ → Sight
  pub update_pid : Result Done

pub data Signal : Type 0 where
  term kill : Signal

-- A signal that was sent or tried.
pub record Shot : Type 0 where
  pub moment : ℕ
  pub pid : ℕ
  pub signal : Signal

-- A run: the moment it is at, the PID by which the VM is known, the one in its .info file (if there is
-- one), whether the removal of its TAP devices
-- is reached, and the signals, the last one first.
pub record Run : Type 0 where
  pub now : ℕ
  pub pid : ℕ
  pub stored : Option ℕ
  pub torn_down : Bool
  pub shots : List Shot

unfoldable pub look : Host → String → Run → Bool × Run
look h name r = (
  (is_running h.macos (h.sight r.now) name r.pid).0,
  record {
    now = suc r.now;
    pid = (is_running h.macos (h.sight r.now) name r.pid).1;
    stored = r.stored;
    torn_down = r.torn_down;
    shots = r.shots;
  },
)

unfoldable pub shoot : Host → Signal → Run → Bool × Run
shoot h sig r = (
  signal_qemu (h.sight r.now) r.pid,
  record {
    now = suc r.now;
    pid = r.pid;
    stored = r.stored;
    torn_down = r.torn_down;
    shots = record { moment = r.now; pid = r.pid; signal = sig } ∷ r.shots;
  },
)

-- Whether the process is gone at one of so many looks.
unfoldable pub wait_gone : Host → ℕ → Run → Bool × Run
wait_gone h zero r = (false, r)
wait_gone h (suc left) r =
    let rest = wait_gone h left (record r { now = suc r.now }) in
    if pid_alive (h.sight r.now) r.pid then rest else (true, record r { now = suc r.now })

-- The removal of the TAP devices, which is all that follows.
abbrev pub tear_down : Option ℕ → Run → Result Done × Run
tear_down stored r =
    (ok tt, record { now = r.now; pid = 0; stored = stored; torn_down = true; shots = r.shots })

-- What remains after the signals. That there is no .info file is passed over.
unfoldable pub finish : Host → Run → Result Done × Run
finish h r = elim r.stored [
  | none ↦ tear_down none r
  | some p ↦ elim h.update_pid [
    | ok _ ↦ tear_down (some 0) r
    | err x ↦ (err x, record r { pid = 0 })
  ]
]

-- The last check: a QEMU that outlives both signals is not recorded as stopped.
unfoldable pub check_gone : Host → String → Run → Result Done × Run
unfolding finish look
check_gone h name r =
    if pid_alive (h.sight r.now) r.pid
    then (if (look h name (record r { now = suc r.now })).0
        then (err exit, (look h name (record r { now = suc r.now })).1)
        else finish h (look h name (record r { now = suc r.now })).1)
    else finish h (record r { now = suc r.now })

-- SIGKILL, if it is still this VM's QEMU.
unfoldable pub force : Host → String → Run → Result Done × Run
unfolding look shoot
force h name r =
    if not (look h name r).0
    then check_gone h name (look h name r).1
    else if (shoot h kill (look h name r).1).0
    then check_gone h name (wait_gone h 20 (shoot h kill (look h name r).1).1).1
    else check_gone h name (shoot h kill (look h name r).1).1

-- SIGTERM and the wait for it: `sent` is whether it could be sent.
unfoldable pub after_term : Host → String → Bool → Run → Result Done × Run
after_term h name sent r =
    let patience = if sent then 50 else 0 in
    if (wait_gone h patience r).0
    then finish h (wait_gone h patience r).1
    else force h name (wait_gone h patience r).1

-- `kill_qemu`
unfoldable pub kill_qemu : Host → String → Run → Result Done × Run
unfolding look shoot
kill_qemu h name r =
    if (look h name r).0
    then after_term h name (shoot h term (look h name r).1).0 (shoot h term (look h name r).1).1
    else finish h (look h name r).1
