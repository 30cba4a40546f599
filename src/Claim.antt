-- ===== src/Claim.antt =====
-- ltvm_pkg/vm_claim.py: the claim on a VM, the store of claims, and the operations on it. A call
-- runs under the `flock` of its claim file, so calls are atomic and follow one another. The JSON
-- text of a file is the object that it spells; a text that is no object is `junk`.
pub mod Exclusion
pub mod Refresh
pub mod Frame
pub mod Guard
use lustre_test_vms.Base.{
  ℕ, zero, suc, ◌+◌, String, Bool, true, false, not, Option, none, some, List, [], ◌∷◌, ◌&&◌, ◌||◌,
  ◌==◌, string_eq, nat_eq, leb, if◌then◌else◌,
}
use lustre_test_vms.Result.{
  Err, Result, ok, err, claim_error, claim_held, os_error, command_failed, exit, Action, Done, pure,
  raise, lift, ◌>>=◌, ◌>>◌,
}
use lustre_test_vms.Owner.{
  Host, Attempt, done, denied, failed, codes, truthy, user_name, current_owner, is_session_owner,
  current_pid, pid_alive,
}

pub record Claim : Type 0 where
  pub vm : String
  pub owner : String
  pub user : String
  pub pid : Option ℕ
  pub pid_start : Option String
  pub since : ℕ
  pub expires : Option ℕ
  pub tree : Option String

-- `Claim.live`
unfoldable pub live : Host → Claim → Bool
unfolding pid_alive
live h c =
    if (elim c.expires [ none ↦ false | some t ↦ leb t h.now ])
    then false
    else elim c.pid [ none ↦ true | some pid ↦ pid_alive h pid c.pid_start ]

-- The JSON object of a claim file. A key that is missing or null is `none`.
pub record Fields : Type 0 where
  pub owner : Option String
  pub user : Option String
  pub pid : Option ℕ
  pub pid_start : Option String
  pub since : Option ℕ
  pub expires : Option ℕ
  pub tree : Option String

pub data Body : Type 0 where
  blank junk : Body
  object : Fields → Body

-- What stands at `VM_DIR/claims/<vm>`.
pub data Node : Type 0 where
  absent : Node
  file : Body → Node
  unreadable symlink special broken : Node

-- What stands at `VM_DIR/claims`.
pub data Dir : Type 0 where
  ready wrong_mode missing linked : Dir

pub record Store : Type 0 where
  pub dir : Dir
  pub nodes : String → Node

unfoldable pub is_alnum : ℕ → Bool
is_alnum c = leb 48 c && leb c 57 || leb 65 c && leb c 90 || leb 97 c && leb c 122

unfoldable pub is_name_char : ℕ → Bool
is_name_char c = is_alnum c || c == 46 || c == 95 || c == 45

all_name_chars : List ℕ → Bool
all_name_chars [] = true
all_name_chars (c ∷ cs) = is_name_char c && all_name_chars cs

is_name : List ℕ → Bool
is_name [] = false
is_name (c ∷ cs) = is_alnum c && all_name_chars cs

-- The check of `_path`.
unfoldable pub valid_name : String → Bool
unfolding is_name is_alnum is_name_char all_name_chars
valid_name vm = is_name (codes vm)

abbrev pub node : Store → String → Node
node s vm = elim s.dir [ missing ↦ absent | _ ↦ s.nodes vm ]

abbrev pub put : String → Node → Store → Store
put vm n s = record s { nodes = λ k. if k == vm then n else s.nodes k }

-- `ensure_claims_dir`. A directory that is made is empty.
abbrev made : Store → Store
made s = record { dir = ready; nodes = λ k. node s k }

by_sudo : Host → Bool → Action Store Done
by_sudo h noninteractive s =
    if noninteractive && not h.sudo_ready
    then (err claim_error, s)
    else if h.sudo_works
    then (ok tt, made s)
    else (err command_failed, s)

make_claims_dir : Host → Bool → Action Store Done
unfolding by_sudo
make_claims_dir h noninteractive s = elim h.make_dir [
  | done ↦ (ok tt, made s)
  | denied ↦ by_sudo h noninteractive s
  | failed ↦ (err os_error, s)
]

unfoldable pub ensure_claims_dir : Host → Bool → Action Store Done
unfolding make_claims_dir
ensure_claims_dir h noninteractive s = elim s.dir [
  | ready ↦ (ok tt, s)
  | linked ↦ (err claim_error, s)
  | _ ↦ make_claims_dir h noninteractive s
]

-- `_open` and `_locked`: the body under the lock, or `none` where there is no file.
create_file : Bool → String → Action Store (Option Body)
create_file false vm s = (ok none, s)
create_file true vm s = elim s.dir [
  | missing ↦ (err claim_error, s)
  | _ ↦ (ok (some blank), put vm (file blank) s)
]

open_node : Bool → String → Node → Action Store (Option Body)
unfolding create_file
open_node create vm absent s = create_file create vm s
open_node create vm (file b) s = (ok (some b), s)
open_node create vm unreadable s = (err claim_error, s)
open_node create vm symlink s = (err claim_error, s)
open_node create vm special s = (err claim_error, s)
open_node create vm broken s = (err os_error, s)

unfoldable pub locked : Bool → String → Action Store (Option Body)
unfolding open_node
locked create vm s =
    if valid_name vm then open_node create vm (node s vm) s else (err claim_error, s)

abbrev or_default {ℓ} : {A : Type ℓ} → A → Option A → A
or_default a none = a
or_default a (some b) = b

-- `_read`: a body without an owner, like one that does not parse, holds no claim.
unfoldable pub read : String → Body → Option Claim
read vm blank = none
read vm junk = none
read vm (object f) = elim f.owner [
  | none ↦ none
  | some owner ↦ some (record {
    vm = vm;
    owner = owner;
    user = or_default "?" f.user;
    pid = f.pid;
    pid_start = f.pid_start;
    since = or_default 0 f.since;
    expires = f.expires;
    tree = f.tree;
  })
]

-- `_write`: the file is truncated, and holds the claim if there is one.
unfoldable pub written : Option Claim → Body
written none = blank
written (some c) = object (record {
  owner = some c.owner;
  user = some c.user;
  pid = c.pid;
  pid_start = c.pid_start;
  since = some c.since;
  expires = c.expires;
  tree = c.tree;
})

abbrev write : String → Option Claim → Action Store Done
write vm c s = (ok tt, put vm (file (written c)) s)

-- `load`: a claim file that cannot be used counts as no claim.
unfoldable pub load : String → Store → Result (Option Claim)
unfolding locked read
load vm s = elim (locked false vm s).0 [
  | ok none ↦ ok none
  | ok (some b) ↦ ok (read vm b)
  | err claim_error ↦ ok none
  | err claim_held ↦ ok none
  | err e ↦ err e
]

abbrev owned_by : String → Claim → Bool
owned_by owner c = c.owner == owner

-- `_new_claim`; a TTL of 0 is none.
abbrev pub keeps : Host → String → Option Claim → Option Claim
keeps h owner none = none
keeps h owner (some c) = if owned_by owner c && live h c then some c else none

abbrev expiry : Host → Option ℕ → Option Claim → Option ℕ
expiry h (some (suc ttl)) kept = some (h.now + suc ttl)
expiry h _ none = none
expiry h _ (some c) = c.expires

abbrev or_kept : Option String → Option Claim → Option String
or_kept tree kept = elim (truthy tree) [
  | some t ↦ some t
  | none ↦ elim kept [ none ↦ none | some c ↦ c.tree ]
]

unfoldable pub new_claim :
    Host → String → String → Option ℕ → Option ℕ → Option String → Option Claim → Claim
unfolding user_name
new_claim h vm owner pid ttl tree prev =
    let kept : Option Claim = keeps h owner prev in
    record {
      vm = vm;
      owner = owner;
      user = user_name h;
      pid = pid;
      pid_start = elim pid [ none ↦ none | some p ↦ h.pid_start p ];
      since = elim kept [ none ↦ h.now | some c ↦ c.since ];
      expires = expiry h ttl kept;
      tree = or_kept tree kept;
    }

-- Held by another live owner, and not to be broken.
abbrev pub blocks : Host → String → Bool → Option Claim → Bool
blocks h owner force none = false
blocks h owner force (some c) = not (owned_by owner c) && (live h c && not force)

abbrev replaced : String → Option Claim → Option Claim
replaced owner none = none
replaced owner (some c) = if owned_by owner c then none else some c

-- The arguments of `claim` that the command line may give.
pub record Wish : Type 0 where
  pub owner : Option String
  pub pid : Option ℕ
  pub ttl : Option ℕ
  pub tree : Option String
  pub force : Bool
  pub noninteractive : Bool

body_or_blank : Option Body → Body
body_or_blank none = blank
body_or_blank (some b) = b

-- The part of `claim` under the lock.
unfoldable pub take_claim :
    Host → Wish → String → String → Body → Action Store (Claim × Option Claim)
unfolding new_claim read written
take_claim h w vm owner b s =
    let prev : Option Claim = read vm b in
    if blocks h owner w.force prev
    then (err claim_held, s)
    else (let new : Claim = new_claim h vm owner (current_pid h w.pid) w.ttl w.tree prev in
        (ok (new, replaced owner prev), put vm (file (written (some new))) s))

unfoldable pub claim : Host → Wish → String → Action Store (Claim × Option Claim)
unfolding ensure_claims_dir locked take_claim body_or_blank
claim h w vm = do
  owner ← lift (current_owner h w.owner)
  ensure_claims_dir h w.noninteractive
  body ← locked true vm
  take_claim h w vm owner (body_or_blank body)

drop_claim : Host → Bool → String → String → Option Claim → Action Store (Option Claim)
drop_claim h force vm owner none = pure none
drop_claim h force vm owner (some c) =
    if blocks h owner force (some c) then raise claim_held else (do write vm none; pure (some c))

-- `release`
unfoldable pub release : Host → Option String → Bool → String → Action Store (Option Claim)
unfolding locked drop_claim read written
release h explicit force vm = do
  owner ← lift (current_owner h explicit)
  body ← locked false vm
  elim body [ none ↦ pure none | some b ↦ drop_claim h force vm owner (read vm b) ]

-- `forget`: errors are dropped.
unfoldable pub forget : String → Store → Store
unfolding locked written
forget vm s = elim (locked false vm s).0 [
  | ok none ↦ s
  | ok (some b) ↦ (write vm none s).1
  | err e ↦ s
]

-- `holder`: the live claim by someone else. The caller is asked for only if there is a claim.
unfoldable pub holder : Host → Option String → String → Store → Result (Option Claim)
unfolding load
holder h explicit vm s = elim (load vm s) [
  | err e ↦ err e
  | ok none ↦ ok none
  | ok (some c) ↦ elim (current_owner h explicit) [
    | err e ↦ err e
    | ok owner ↦ ok (if owned_by owner c || not (live h c) then none else some c)
  ]
]

unfoldable pub check : Host → String → Store → Result Done
unfolding holder
check h vm s = elim (holder h none vm s) [
  | err e ↦ err e
  | ok none ↦ ok tt
  | ok (some c) ↦ err claim_held
]

abbrev is_claim_error : Err → Bool
is_claim_error claim_error = true
is_claim_error claim_held = true
is_claim_error _ = false

unfoldable pub require : Host → String → Store → Result Done
unfolding check
require h vm s = elim (check h vm s) [
  | ok u ↦ ok u
  | err e ↦ if is_claim_error e then err exit else err e
]

unfoldable pub require_all : Host → List String → Store → Result Done
unfolding require
require_all h [] s = ok tt
require_all h (vm ∷ vms) s =
    let rest = require_all h vms s in elim (require h vm s) [ err e ↦ err e | ok _ ↦ rest ]

-- `auto_claim`: a host without a usable claim store only gets a warning.
settle : Result (Claim × Option Claim) → Result (Option Claim)
settle (ok (new, _)) = ok (some new)
settle (err claim_error) = ok none
settle (err e) = err e

abbrev pub auto_wish : String → Option String → Wish
auto_wish owner tree = record {
  owner = some owner;
  pid = none;
  ttl = none;
  tree = tree;
  force = false;
  noninteractive = true;
}

unfoldable pub auto_claim : Host → Option String → String → Action Store (Option Claim)
unfolding claim settle is_session_owner
auto_claim h tree vm s = elim (current_owner h none) [
  | err e ↦ (err e, s)
  | ok owner ↦
      if is_session_owner owner
      then (let (r, s') = claim h (auto_wish owner tree) vm s in (settle r, s'))
      else (ok none, s)
]

-- `all_claims`: the claims on the files that the directory lists.
unfoldable pub all_claims : List String → Store → Result (List (String × Claim))
unfolding load
all_claims [] s = ok []
all_claims (vm ∷ vms) s =
    let rest = all_claims vms s in
    elim (load vm s) [
      | err e ↦ err e
      | ok none ↦ rest
      | ok (some c) ↦ elim rest [ err e ↦ err e | ok cs ↦ ok ((vm, c) ∷ cs) ]
    ]
