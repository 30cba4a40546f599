-- ===== src/Owner.antt =====
-- ltvm_pkg/vm_owner.py, and the identity of a caller in ltvm_pkg/vm_claim.py: who asks, and which
-- process ends a claim when it exits. The environment, the login name and the process table are
-- fields of `Host`, as one call sees them.
pub mod Laws
use Prim.Native.Char.{code}
use lustre_test_vms.Base.{
  ℕ, zero, suc, String, ◌<>◌, Bool, true, false, not, Option, none, some, List, [], ◌∷◌, ◌||◌,
  length, starts_with, ◌==◌, nat_eq, string_eq, contains, leb, if◌then◌else◌,
}
use lustre_test_vms.Result.{Result, ok, err, value_error}

-- What `os.kill(pid, 0)` does.
pub data Kill : Type 0 where
  delivered no_such_process not_permitted kill_failed : Kill

-- What `mkdir` and `chmod` do.
pub data Attempt : Type 0 where
  done denied failed : Attempt

-- The caller and its host during one call. A variable of the environment that holds no number is
-- `none` where the code wants a pid. Times are whole ticks of the host's clock.
pub record Host : Type 0 where
  pub sudo_user : Option String
  pub login : String
  pub owner_id : Option String
  pub claude_session : Option String
  pub owner_pid : Option ℕ
  pub claude_pid : Option ℕ
  pub own_pid : ℕ
  pub now : ℕ
  pub kill : ℕ → Kill
  pub pid_start : ℕ → Option String
  pub make_dir : Attempt
  pub sudo_ready : Bool
  pub sudo_works : Bool

-- The code points of a text.
abbrev pub codes : String → List ℕ
codes String.[] = []
codes (String.◌∷◌ c s) = code c ∷ codes s

abbrev pub max_owner_id_length : ℕ
max_owner_id_length = 255

abbrev is_control : ℕ → Bool
is_control c = c == 10 || c == 13 || c == 0

abbrev pub has_control : List ℕ → Bool
has_control [] = false
has_control (c ∷ cs) = is_control c || has_control cs

unfoldable pub validate_owner_id : String → Result String
validate_owner_id owner_id =
    if owner_id == ""
    then err value_error
    else if leb (suc max_owner_id_length) (length (codes owner_id))
    then err value_error
    else if has_control (codes owner_id)
    then err value_error
    else ok owner_id

-- `if value:` for a text that may be absent.
abbrev pub truthy : Option String → Option String
truthy none = none
truthy (some s) = if s == "" then none else some s

-- `_user_name`: `$SUDO_USER` unless it is root or empty, else the login name.
unfoldable pub user_name : Host → String
user_name h = elim (truthy h.sudo_user) [
  | none ↦ h.login
  | some name ↦ if name == "root" then h.login else name
]

-- `current_owner`: --owner, $LTVM_OWNER_ID, an agent session, or the user.
unfoldable pub current_owner : Host → Option String → Result String
unfolding validate_owner_id user_name
current_owner h explicit = elim (truthy explicit) [
  | some owner ↦ validate_owner_id owner
  | none ↦ elim (truthy h.owner_id) [
    | some owner ↦ validate_owner_id owner
    | none ↦ elim (truthy h.claude_session) [
      | some session ↦ validate_owner_id ("claude:" <> session)
      | none ↦ ok ("user:" <> user_name h)
    ]
  ]
]

unfoldable pub is_session_owner : String → Bool
is_session_owner owner = not (starts_with owner "user:")

abbrev positive : Option ℕ → Option ℕ
positive none = none
positive (some zero) = none
positive (some (suc n)) = some (suc n)

-- `current_pid`: the variables are tried in turn, and $CLAUDE_PID counts in a session only.
unfoldable pub current_pid : Host → Option ℕ → Option ℕ
current_pid h (some pid) = some pid
current_pid h none = elim (positive h.owner_pid) [
  | some pid ↦ some pid
  | none ↦ elim (truthy h.claude_session) [ none ↦ none | some _ ↦ positive h.claude_pid ]
]

-- `_pid_alive`: an unreadable start time gives the process the benefit of the doubt.
unfoldable pub pid_alive : Host → ℕ → Option String → Bool
pid_alive h pid start = elim (h.kill pid) [
  | no_such_process ↦ false
  | kill_failed ↦ false
  | _ ↦ elim start [
    | none ↦ true
    | some began ↦ elim (h.pid_start pid) [ none ↦ true | some seen ↦ seen == began ]
  ]
]

-- `resolve_owner_id` of vm_owner.py, for VMs that are created: here an explicit empty owner is an
-- error, and the last resort is the process.
unfoldable pub resolve_owner_id : (ℕ → String) → Host → Option String → Result String
unfolding validate_owner_id
resolve_owner_id decimal h (some owner) = validate_owner_id owner
resolve_owner_id decimal h none = elim (truthy h.owner_id) [
  | some owner ↦ validate_owner_id owner
  | none ↦ ok ("pid:" <> decimal h.own_pid)
]
