-- ===== src/Qemu/Kill/Outcome.antt =====
-- That a stop records a VM as stopped only when its QEMU is gone.
use lustre_test_vms.Base.{
  ℕ, suc, String, ◌≡◌, ◌≢◌, ◌⊎◌, true, false, Option, none, some, nat_eq, string_eq,
}
use lustre_test_vms.Result.{Result, ok, err, exit, Err, Done}
use lustre_test_vms.Qemu.{is_running, pid_alive}
use lustre_test_vms.Qemu.Kill.{Host, Run}

-- The PID 0 in an .info file.
abbrev pub cleared : Option ℕ → Option ℕ
cleared none = none
cleared (some _) = some 0

-- At some moment no process, or not the QEMU of the VM, is under a PID.
abbrev pub Gone : Host → String → ℕ → Type 0
Gone h name pid =
    (k : ℕ) × ((pid_alive (h.sight k) pid ≡ false)
      ⊎ ((is_running h.macos (h.sight k) name pid).0 ≡ false))

-- A stop that returns has found the QEMU gone, and has recorded the VM as stopped. One that fails leaves the
-- record, and has found the process there and then the QEMU, or the QEMU gone but the record not to be
-- written.
abbrev pub Ended : Host → String → ℕ → Option ℕ → Result Done × Run → Type 0
Ended h name pid stored (res, r) =
    ((res ≡ ok tt) × (r.stored ≡ cleared stored) × (r.torn_down ≡ true) × Gone h name pid)
    ⊎ (((res ≡ err exit)
          × (r.stored ≡ stored)
          × ((k : ℕ) × (pid_alive (h.sight k) pid ≡ true)
              × ((is_running h.macos (h.sight (suc k)) name pid).0 ≡ true)))
        ⊎ ((x : Err) × (h.update_pid ≡ err x)
            × (res ≡ err x)
            × (r.stored ≡ stored)
            × (stored ≢ none)
            × Gone h name pid))
