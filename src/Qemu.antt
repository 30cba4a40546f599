-- ===== src/Qemu.antt =====
-- Which process is the QEMU of a VM: `is_running`, `_qemu_pid_is` and `_cmdline_names_vm` of
-- ltvm_pkg/qemu_run.py, over what the host shows at one moment.
pub mod Identity
pub mod Kill
use lustre_test_vms.Base.{
  ℕ, zero, suc, String, Bool, true, false, not, ◌&&◌, ◌||◌, Option, none, some, List, [], ◌∷◌, ◌==◌,
  nat_eq, string_eq, if◌then◌else◌,
}
use lustre_test_vms.Owner.{codes}

-- The rest of a text after a prefix that it begins with.
abbrev pub strip : List ℕ → List ℕ → Option (List ℕ)
strip [] cs = some cs
strip (p ∷ ps) [] = none
strip (p ∷ ps) (c ∷ cs) = let rest = strip ps cs in if p == c then rest else none

abbrev pub same_codes : List ℕ → List ℕ → Bool
same_codes [] [] = true
same_codes (a ∷ xs) (b ∷ ys) = a == b && same_codes xs ys
same_codes _ _ = false

abbrev pub starts_with : String → String → Bool
starts_with prefix text = elim (strip (codes prefix) (codes text)) [ none ↦ false | some _ ↦ true ]

-- The value of an argument that begins with `-name=`.
abbrev pub name_value : String → Option (List ℕ)
name_value arg = strip (codes "-name=") (codes arg)

abbrev pub next_is : String → List String → Bool
next_is name [] = false
next_is name (a ∷ _) = a == name

-- `_cmdline_names_vm`
unfoldable pub cmdline_names_vm : Bool → String → List String → Bool
cmdline_names_vm strict name [] = not strict
cmdline_names_vm strict name (arg ∷ rest) =
    let later = cmdline_names_vm strict name rest in
    if arg == "-name"
    then next_is name rest
    else elim (name_value arg) [ some v ↦ same_codes v (codes name) | none ↦ later ]

-- What `ps` prints of a process: the name of its executable, and its words.
pub record Ps : Type 0 where
  pub exe : String
  pub words : List String

-- What /proc has of a process: `comm`, and the words of `cmdline`, where they can be read.
pub record Proc : Type 0 where
  pub comm : Option String
  pub cmdline : Option (List String)

-- What `os.kill(pid, 0)` gives.
pub data Answer : Type 0 where
  sent no_process not_permitted other_error : Answer

-- What a host shows at one moment: processes by PID (on macOS through `ps`, else in /proc), the number in
-- the pidfile of the VM (0 if it has none), and how a signal would end there, also through sudo.
pub record Sight : Type 0 where
  pub ps : ℕ → Option Ps
  pub proc : ℕ → Proc
  pub pidfile : ℕ
  pub kill : ℕ → Answer
  pub sudo_kill : ℕ → Bool

unfoldable pub ps_is : String → Option Ps → Bool
ps_is name none = false
ps_is name (some p) = elim p.words [
  | [] ↦ false
  | w ∷ ws ↦ starts_with "qemu-system" p.exe && cmdline_names_vm false name (w ∷ ws)
]

-- The words of a command line, which tell nothing if they cannot be read or there are none.
unfoldable pub words_name : String → Option (List String) → Bool
words_name name none = true
words_name name (some []) = true
words_name name (some (w ∷ ws)) = cmdline_names_vm true name (w ∷ ws)

unfoldable pub proc_is : String → Proc → Bool
unfolding words_name
proc_is name p = elim p.comm [
  | none ↦ false
  | some comm ↦ if starts_with "qemu-system" comm then words_name name p.cmdline else false
]

-- `_qemu_pid_is`
unfoldable pub qemu_pid_is : Bool → Sight → ℕ → String → Bool
unfolding ps_is proc_is
qemu_pid_is macos s pid name = if macos then ps_is name (s.ps pid) else proc_is name (s.proc pid)

-- `is_running`, of the PID that a VM is known by, and the PID that it is known by afterwards.
unfoldable pub is_running : Bool → Sight → String → ℕ → Bool × ℕ
is_running macos s name (suc pid) = (qemu_pid_is macos s (suc pid) name, suc pid)
is_running macos s name zero = elim s.pidfile [
  | zero ↦ (false, 0)
  | suc pid ↦ if qemu_pid_is macos s (suc pid) name then (true, suc pid) else (false, 0)
]

-- `_pid_alive`
abbrev pub pid_alive : Sight → ℕ → Bool
pid_alive s pid = elim (s.kill pid) [
  | sent ↦ true
  | no_process ↦ false
  | not_permitted ↦ true
  | other_error ↦ false
]

-- Whether `_signal_qemu` says that its signal was sent.
abbrev pub signal_qemu : Sight → ℕ → Bool
signal_qemu s pid = elim (s.kill pid) [
  | sent ↦ true
  | no_process ↦ true
  | not_permitted ↦ s.sudo_kill pid
  | other_error ↦ false
]
