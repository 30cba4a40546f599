-- ===== src/Net/Names.antt =====
-- The names of VMs: `register_ssh_name` and `unregister_ssh_name` of ltvm_pkg/vm_net.py, on /etc/hosts, the
-- directory hosts.d and ~/.ssh/config. A line is what the code's tests tell of it: a line of /etc/hosts that
-- ends with the marker of a VM, or another; a line of the ssh configuration that has the `Host` text with the
-- marker of a VM, one that begins with a tab, an empty one, or another.
pub mod Laws
pub mod Others
use lustre_test_vms.Base.{
  ℕ, zero, suc, String, Bool, true, false, not, ◌&&◌, ◌||◌, Option, none, some, List, [], ◌∷◌, ◌++◌,
  ◌<>◌, keep, ◌==◌, string_eq, if◌then◌else◌,
}

pub data HostsLine : Type 0 where
  entry : String → String → HostsLine
  text : String → HostsLine

pub data SshLine : Type 0 where
  host : String → SshLine
  tabbed : String → SshLine
  empty : SshLine
  other : String → SshLine

-- `published` is the address of a name in hosts.d; `ssh` is the configuration, if the file is there.
pub record Files : Type 0 where
  pub hosts : List HostsLine
  pub published : String → Option String
  pub ssh : Option (List SshLine)

-- Whether hosts.d is shared and can be written, whether a write or a removal there succeeds, and whether
-- /etc/hosts can be edited without a password.
pub record Env : Type 0 where
  pub shared : Bool
  pub publishes : Bool
  pub unpublishes : Bool
  pub may_edit : Bool

-- `.endswith(marker_line)`
abbrev pub is_marked : String → HostsLine → Bool
is_marked name (entry ip n) = n == name
is_marked name (text t) = false

abbrev pub unmarked : String → List HostsLine → List HostsLine
unmarked name ls = keep (λ l. not (is_marked name l)) ls

-- `_register_etc_hosts`, but for the newline that it adds to a last line without one.
unfoldable pub register_etc_hosts : String → String → List HostsLine → List HostsLine
register_etc_hosts name ip ls = unmarked name ls ++ (entry ip name ∷ [])

-- `stripped_lines.pop()`, of the lines so far, the last one first.
abbrev pub pop_empty : List SshLine → List SshLine
pop_empty (empty ∷ out) = out
pop_empty out = out

abbrev pub is_body : SshLine → Bool
is_body (tabbed t) = true
is_body empty = true
is_body _ = false

abbrev pub is_host : String → SshLine → Bool
is_host name (host n) = n == name
is_host name _ = false

-- The loop over the lines of the configuration: the lines that stay, the last one first.
unfoldable pub strip_blocks : String → Bool → List SshLine → List SshLine → List SshLine
strip_blocks name skip out [] = out
strip_blocks name skip out (l ∷ ls) =
    let in_block = strip_blocks name true (pop_empty out) ls in
    let skipped = strip_blocks name true out ls in
    let kept = strip_blocks name false (l ∷ out) ls in
    if is_host name l then in_block else if skip && is_body l then skipped else kept

abbrev pub backwards {ℓ} : {A : Type ℓ} → List A → List A → List A
backwards [] out = out
backwards (x ∷ xs) out = backwards xs (x ∷ out)

unfoldable pub without_blocks : String → List SshLine → List SshLine
without_blocks name ls = backwards (strip_blocks name false [] ls) []

-- The block of a VM, after the empty line before it.
abbrev pub block : String → String → List SshLine
block name ip =
    host name
    ∷ tabbed ("HostName " <> ip)
    ∷ tabbed "User root"
    ∷ tabbed "StrictHostKeyChecking no"
    ∷ tabbed "UserKnownHostsFile /dev/null"
    ∷ tabbed "LogLevel ERROR"
    ∷ tabbed "ServerAliveInterval 5"
    ∷ tabbed "ServerAliveCountMax 3"
    ∷ tabbed "ConnectTimeout 5"
    ∷ []

-- `_register_ssh_config`
unfoldable pub register_ssh_config : String → String → List SshLine → List SshLine
register_ssh_config name ip ls = without_blocks name ls ++ (empty ∷ block name ip)

abbrev pub lines_of : Option (List SshLine) → List SshLine
lines_of none = []
lines_of (some ls) = ls

-- What is written of the lines that stay: a file without lines gets an empty one.
abbrev pub written_back : List SshLine → List SshLine
written_back [] = empty ∷ []
written_back (l ∷ ls) = l ∷ ls

abbrev pub unregister_ssh_config : String → Option (List SshLine) → Option (List SshLine)
unregister_ssh_config name none = none
unregister_ssh_config name (some ls) = some (written_back (without_blocks name ls))

-- `register_ssh_name`
unfoldable pub register_ssh_name : Env → String → String → Files → Files
register_ssh_name e name ip w = record {
  hosts = if not e.shared || e.may_edit then register_etc_hosts name ip w.hosts else w.hosts;
  published = λ k. if k == name && (e.shared && e.publishes) then some ip else w.published k;
  ssh = some (register_ssh_config name ip (lines_of w.ssh));
}

-- `unregister_ssh_name`; the keys of known_hosts are left out.
unfoldable pub unregister_ssh_name : Env → String → Files → Files
unregister_ssh_name e name w = record {
  hosts = if e.shared && not e.may_edit then w.hosts else unmarked name w.hosts;
  published = λ k. if k == name && (e.shared && e.unpublishes) then none else w.published k;
  ssh = unregister_ssh_config name w.ssh;
}
