-- ===== src/Tests/Qemu.antt =====
-- A VM whose .info file has PID 0 while its pidfile names a live QEMU, which ends on SIGTERM.
use lustre_test_vms.Base.{
  String, ◌≡◌, refl, true, false, none, some, List, [], ◌∷◌, All, ltb, string_eq, nat_eq,
  if◌then◌else◌,
}
use lustre_test_vms.Result.{ok}
use lustre_test_vms.Qemu.{
  Sight, no_process, not_permitted, qemu_pid_is, proc_is, words_name, cmdline_names_vm, is_running,
}
use lustre_test_vms.Qemu.Kill.{
  Host, Run, term, look, shoot, wait_gone, finish, after_term, kill_qemu,
}
use lustre_test_vms.Qemu.Kill.Aim.{Aimed, kill_qemu-Aimed}

abbrev words : List String
words = "-nographic" ∷ "-name" ∷ "co1" ∷ []

abbrev alive : Sight
alive = record {
  ps = λ pid. none;
  proc = λ pid. record {
    comm = some "qemu-system-x86";
    cmdline = some ("/usr/bin/qemu-system-x86_64" ∷ words);
  };
  pidfile = 42;
  kill = λ pid. not_permitted;
  sudo_kill = λ pid. true;
}

abbrev gone : Sight
gone = record {
  ps = λ pid. none;
  proc = λ pid. record { comm = none; cmdline = none };
  pidfile = 0;
  kill = λ pid. no_process;
  sudo_kill = λ pid. false;
}

abbrev host : Host
host = record { macos = false; sight = λ t. if ltb t 4 then alive else gone; update_pid = ok tt }

abbrev begun : Run
begun = record { now = 0; pid = 0; stored = some 0; torn_down = false; shots = [] }

it_runs : qemu_pid_is false alive 42 "co1" ≡ true
unfolding qemu_pid_is proc_is words_name cmdline_names_vm string_eq nat_eq
it_runs = refl

found : (is_running false alive "co1" 0).0 ≡ true
unfolding is_running qemu_pid_is proc_is words_name cmdline_names_vm string_eq nat_eq
found = refl

stopped : kill_qemu host "co1" begun ≡ (
  ok tt,
  record {
    now = 5;
    pid = 0;
    stored = some 0;
    torn_down = true;
    shots = record { moment = 1; pid = 42; signal = term } ∷ [];
  },
)
unfolding kill_qemu after_term wait_gone finish look shoot is_running qemu_pid_is proc_is words_name
    cmdline_names_vm string_eq nat_eq
stopped = refl

-- Another VM with the same stale PID is not taken for it.
other_vm : qemu_pid_is false alive 42 "co2" ≡ false
unfolding qemu_pid_is proc_is words_name cmdline_names_vm string_eq nat_eq
other_vm = refl

kill_qemu-Aimed_example : All (Aimed host "co1") (kill_qemu host "co1" begun).1.shots
kill_qemu-Aimed_example = kill_qemu-Aimed host "co1" begun
