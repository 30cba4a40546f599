-- ===== src/Vm/Power.antt =====
-- `cmd_start` and `cmd_stop` of ltvm_pkg/vm_commands.py. A VM is known by the name of its `.info` file. The
-- sync of the guests before a stop, which is best effort, is left out.
use lustre_test_vms.Base.{
  ℕ, Bool, Option, ◌⊎◌, ◌≢◌, ◌||◌, nat_eq, String, ◌≡◌, refl, sym, subst, inl, inr, true, false,
  not, none, some, List, [], ◌∷◌, arith, ◌==◌, string_eq, contains, Bool-cases, Option-cases,
  if◌then◌else◌,
}
use lustre_test_vms.Result.{Result, ok, err, exit, value_error, Err, Action, Done, Result-cases}
use lustre_test_vms.Qemu.{Answer, sent, no_process, not_permitted, other_error}
use lustre_test_vms.Cluster.Vms.{validate_vm_name_for_lookup}
use lustre_test_vms.Vm.Files.{VmInfo, info, bytes, fields, content}
use lustre_test_vms.Vm.Create.{
  World, Meets, launch_qemu, provision, launch_and_provision, without_name,
}
use lustre_test_vms.Vm.Create.Touched.{launch_cases}
use lustre_test_vms.Vm.Create.Launched.{contains-without_name}
use lustre_test_vms.Vm.Create.Whole.{without_name_self}

-- What the commands ask: `vm_claim.require`, the owner of a VM's `.info` file, the user, whether the host is
-- set up for unprivileged VMs, `sudo_prime`, the signal 0 to a VM's QEMU, and how `kill_qemu` ends.
pub record Guards : Type 0 where
  pub claim : String → Result Done
  pub owner : String → Option ℕ
  pub euid : ℕ
  pub rootless : Bool
  pub sudo : String → Bool
  pub probe : String → Answer
  pub kill : String → Result Done

-- `_require_manageable`; `starts` is whether the verb is "start".
unfoldable pub require_manageable : Guards → Bool → String → Result Done
require_manageable g starts name = elim (g.claim name) [
  | err x ↦ err x
  | ok _ ↦ elim (g.owner name) [
    | none ↦ ok tt
    | some owner ↦
        if g.euid == 0 || (g.euid == owner || not g.rootless)
        then ok tt
        else if starts
        then err exit
        else if g.sudo name
        then ok tt
        else err exit
  ]
]

-- `_require_signalable`, where the VMs that run are known by name.
unfoldable pub require_signalable : Guards → List String → String → Result Done
require_signalable g running name =
    if g.euid == 0 || not (contains running name) then ok tt else elim (g.probe name) [
      | sent ↦ ok tt
      | no_process ↦ ok tt
      | other_error ↦ ok tt
      | not_permitted ↦ if g.sudo name then ok tt else err exit
    ]

-- The first loop of `cmd_stop`: the VMs to stop.
unfoldable pub collect : Guards → World → List String → Result (List String)
collect g w [] = ok []
collect g w (name ∷ names) =
    if not (validate_vm_name_for_lookup name)
    then err exit
    else elim (content (info name) w.files) [
      | none ↦ collect g w names
      | some bytes ↦ err value_error
      | some (fields vm) ↦ elim (require_manageable g false name) [
        | err x ↦ err x
        | ok _ ↦ elim (require_signalable g w.running name) [
          | err x ↦ err x
          | ok _ ↦ elim (collect g w names) [ err x ↦ err x | ok rest ↦ ok (name ∷ rest) ]
        ]
      ]
    ]

-- The second loop.
unfoldable pub kill_each : Guards → List String → Action World Done
kill_each g [] w = (ok tt, w)
kill_each g (name ∷ names) w = elim (g.kill name) [
  | err x ↦ (err x, w)
  | ok _ ↦ kill_each g names (record w { running = without_name name w.running })
]

-- `cmd_stop`
unfoldable pub cmd_stop : Guards → List String → Action World Done
unfolding collect kill_each
cmd_stop g names w = elim (collect g w names) [ err x ↦ (err x, w) | ok vms ↦ kill_each g vms w ]

-- One turn of the loop of `cmd_start`.
unfoldable pub start_one : Guards → Meets → String → Action World Done
start_one g e name w =
    if not (validate_vm_name_for_lookup name)
    then (err exit, w)
    else elim (content (info name) w.files) [
      | none ↦ (err exit, w)
      | some bytes ↦ (err value_error, w)
      | some (fields vm) ↦ elim (require_manageable g true name) [
        | err x ↦ (err x, w)
        | ok _ ↦ if contains w.running name then (ok tt, w) else launch_and_provision e true name w
      ]
    ]

-- `cmd_start`, whose launches each meet their own.
unfoldable pub cmd_start : Guards → (String → Meets) → List String → Action World Done
cmd_start g e [] w = (ok tt, w)
cmd_start g e (name ∷ names) w = elim (start_one g (e name) name w).0 [
  | err x ↦ (err x, (start_one g (e name) name w).1)
  | ok _ ↦ cmd_start g e names (start_one g (e name) name w).1
]

collect-contains :
    (g : Guards) (w : World) (names vms : List String) (m : String)
    → collect g w names ≡ ok vms
    → (contains vms m ≡ true → contains names m ≡ true)
      × ((v : VmInfo)
          → content (info m) w.files ≡ some (fields v)
          → contains names m ≡ true
          → contains vms m ≡ true)
unfolding collect
collect-contains g w [] vms m h = (λ c. ground (arith, h), λ v l c. absurd (ground arith))
collect-contains g w (name ∷ names) vms m h = elim (Bool-cases (validate_vm_name_for_lookup name)) [
  | inr b ↦ absurd (ground arith)
  | inl b ↦ elim (Option-cases (content (info name) w.files)) [
    | inl z ↦
        let rest = collect-contains g w names vms m (ground arith) in
        (λ c. ground (arith, rest.0 c), λ v l c. ground (arith, rest.1 v l))
    | inr (bytes, z) ↦ absurd (ground arith)
    | inr (fields vm, z) ↦ elim (Result-cases (require_manageable g false name)) [
      | inr (x, y) ↦ absurd (ground arith)
      | inl (_, y) ↦ elim (Result-cases (require_signalable g w.running name)) [
        | inr (x, s) ↦ absurd (ground arith)
        | inl (_, s) ↦ elim (Result-cases (collect g w names)) [
          | inr (x, r) ↦ absurd (ground arith)
          | inl (rest, r) ↦
              let later = collect-contains g w names rest m r in
              let one : name ∷ rest ≡ vms = ground arith in
              (λ c. ground (arith, one, later.0), λ v l c. ground (arith, one, later.1 v l))
        ]
      ]
    ]
  ]
]

kill_each-running :
    (g : Guards) (vms : List String) (w : World) (m : String)
    → (contains vms m ≡ false → contains (kill_each g vms w).1.running m ≡ contains w.running m)
      × (contains w.running m ≡ false → contains (kill_each g vms w).1.running m ≡ false)
      × ((kill_each g vms w).0 ≡ ok tt
          → contains vms m ≡ true
          → contains (kill_each g vms w).1.running m ≡ false)
unfolding kill_each
kill_each-running g [] w m = (λ n. refl, λ h. h, λ o c. absurd (ground arith))
kill_each-running g (name ∷ vms) w m = elim (Result-cases (g.kill name)) [
  | inr (x, r) ↦ (λ n. ground arith, λ h. ground arith, λ o c. absurd (ground arith))
  | inl (_, r) ↦
      let later = kill_each-running g vms (record w { running = without_name name w.running }) m in
      elim (Bool-cases (m == name)) [
        | inl s ↦
            let gone = without_name_self name w.running in
            let stopped : contains (without_name name w.running) m ≡ false =
              ground (arith, gone, s) in
            (
              λ n. absurd (ground arith),
              λ h. ground (arith, later.1 stopped),
              λ o c. ground (arith, later.1 stopped),
            )
        | inr d ↦
            let same = contains-without_name name m w.running (ground arith) in
            (
              λ n. ground (arith, later.0 (ground arith), same),
              λ h. ground (arith, later.1 (ground (arith, same))),
              λ o c. ground (arith, later.2 (ground arith) (ground arith)),
            )
      ]
]

-- Why a stop is refused for a VM: its name, a file that cannot be read, a claim of another session, an
-- owner other than a user who has no root, or a QEMU that this user cannot signal.
abbrev pub Refused : Guards → World → String → Type 0
Refused g w m =
    (validate_vm_name_for_lookup m ≡ false)
    ⊎ ((content (info m) w.files ≡ some bytes)
        ⊎ ((v : VmInfo) × (content (info m) w.files ≡ some (fields v))
            × (((x : Err) × (g.claim m ≡ err x))
                ⊎ (((u : ℕ) × (g.owner m ≡ some u)
                      × (g.euid ≢ 0)
                      × (g.euid ≢ u)
                      × (g.rootless ≡ true)
                      × (g.sudo m ≡ false))
                    ⊎ ((g.euid ≢ 0)
                        × (contains w.running m ≡ true)
                        × (g.probe m ≡ not_permitted)
                        × (g.sudo m ≡ false))))))

guards-Refused :
    (g : Guards) (w : World) (m : String) (v : VmInfo)
    → content (info m) w.files ≡ some (fields v)
    → Refused g w m
    → require_manageable g false m ≡ ok tt
    → require_signalable g w.running m ≡ ok tt
    → validate_vm_name_for_lookup m ≡ false
unfolding require_manageable require_signalable
guards-Refused g w m v c (inl bad) a s = bad
guards-Refused g w m v c (inr (inl z)) a s = absurd (ground arith)
guards-Refused g w m v c (inr (inr (u, l, inl (x, z)))) a s = absurd (ground arith)
guards-Refused g w m v c (inr (inr (u, l, inr (inl (o, z, root, self, less, sudo))))) a s =
    elim (Result-cases (g.claim m)) [
      | inr (x, y) ↦ absurd (ground arith)
      | inl (_, y) ↦ absurd (ground arith)
    ]
guards-Refused g w m v c (inr (inr (u, l, inr (inr (root, runs, z, sudo))))) a s =
    absurd (ground arith)

Refused-content :
    (g : Guards) (w : World) (m : String)
    → Refused g w m
    → validate_vm_name_for_lookup m ≡ true
    → content (info m) w.files ≢ none
Refused-content g w m (inl bad) b = λ z. ground arith
Refused-content g w m (inr (inl c)) b = λ z. ground arith
Refused-content g w m (inr (inr (v, c, _))) b = λ z. ground arith

collect-Refused :
    (g : Guards) (w : World) (names : List String) (m : String)
    → contains names m ≡ true
    → Refused g w m
    → (x : Err) × (collect g w names ≡ err x)
unfolding collect
collect-Refused g w [] m h f = absurd (ground arith)
collect-Refused g w (name ∷ names) m h f = elim (Bool-cases (validate_vm_name_for_lookup name)) [
  | inr b ↦ (exit, ground arith)
  | inl b ↦ elim (Bool-cases (m == name)) [
    | inr d ↦
        let rest = collect-Refused g w names m (ground arith) f in
        elim (Option-cases (content (info name) w.files)) [
          | inl z ↦ (rest.0, ground (arith, rest.1))
          | inr (bytes, z) ↦ (value_error, ground arith)
          | inr (fields v, z) ↦ elim (Result-cases (require_manageable g false name)) [
            | inr (x, y) ↦ (x, ground arith)
            | inl (_, y) ↦ elim (Result-cases (require_signalable g w.running name)) [
              | inr (x, s) ↦ (x, ground arith)
              | inl (_, s) ↦ (rest.0, ground (arith, rest.1))
            ]
          ]
        ]
    | inl e ↦
        let same : name ≡ m = ground arith in
        let here : Refused g w name = subst (Refused g w) (sym same) f in
        elim (Option-cases (content (info name) w.files)) [
          | inl z ↦ (exit, absurd (Refused-content g w name here b z))
          | inr (bytes, z) ↦ (value_error, ground arith)
          | inr (fields v, z) ↦ elim (Result-cases (require_manageable g false name)) [
            | inr (x, y) ↦ (x, ground arith)
            | inl (_, y) ↦ elim (Result-cases (require_signalable g w.running name)) [
              | inr (x, s) ↦ (x, ground arith)
              | inl (_, s) ↦ absurd (ground (arith, guards-Refused g w name v z here y s))
            ]
          ]
        ]
  ]
]

-- A stop touches the VMs that it names only. If one of them is refused, because of its name, a file that
-- cannot be read, another session's claim, its owner, or a QEMU that the user cannot signal, the stop fails
-- and stops none; and if it returns, none of those that are there runs.
pub cmd_stop_lem :
    (g : Guards) (names : List String) (w : World) (m : String)
    → (contains names m ≡ false → contains (cmd_stop g names w).1.running m ≡ contains w.running m)
      × (contains names m ≡ true → Refused g w m → (x : Err) × (cmd_stop g names w ≡ (err x, w)))
      × ((cmd_stop g names w).0 ≡ ok tt
          → (v : VmInfo) → content (info m) w.files ≡ some (fields v)
          → contains names m ≡ true
          → contains (cmd_stop g names w).1.running m ≡ false)
unfolding cmd_stop
cmd_stop_lem g names w m = elim (Result-cases (collect g w names)) [
  | inr (x, c) ↦
      (λ n. ground arith, λ n. (λ r. (x, ground arith)), λ o v l n. absurd (ground arith))
  | inl (vms, c) ↦
      let listed = collect-contains g w names vms m c in
      let killed = kill_each-running g vms w m in
      (
        λ n. elim (Bool-cases (contains vms m)) [
          | inl i ↦ absurd (ground (arith, listed.0 i))
          | inr i ↦ ground (arith, killed.0 i)
        ],
        λ n. λ r. let (x, e) = collect-Refused g w names m n r in absurd (ground arith),
        λ o v l n. ground (arith, killed.2 (ground arith) (listed.1 v l n)),
      )
]

start_one-running :
    (g : Guards) (e : Meets) (name : String) (w : World) (m : String)
    → (contains w.running m ≡ true → contains (start_one g e name w).1.running m ≡ true)
      × ((start_one g e name w).0 ≡ ok tt → contains (start_one g e name w).1.running name ≡ true)
unfolding start_one launch_and_provision launch_qemu provision
start_one-running g e name w m = elim (Bool-cases (validate_vm_name_for_lookup name)) [
  | inr b ↦ (λ h. ground arith, λ o. absurd (ground arith))
  | inl b ↦ elim (Option-cases (content (info name) w.files)) [
    | inl z ↦ (λ h. ground arith, λ o. absurd (ground arith))
    | inr (bytes, z) ↦ (λ h. ground arith, λ o. absurd (ground arith))
    | inr (fields vm, z) ↦ elim (Result-cases (require_manageable g true name)) [
      | inr (x, y) ↦ (λ h. ground arith, λ o. absurd (ground arith))
      | inl (_, y) ↦ elim (Bool-cases (contains w.running name)) [
        | inl r ↦ (λ h. ground arith, λ o. ground arith)
        | inr r ↦ elim (launch_cases e.launch) [
          | inl l ↦ (λ h. ground arith, λ o. ground arith)
          | inr (inl l) ↦ (λ h. ground arith, λ o. absurd (ground arith))
          | inr (inr l) ↦ (λ h. ground arith, λ o. absurd (ground arith))
        ]
      ]
    ]
  ]
]

-- A start stops no VM that runs; and if it returns, all the VMs that it names run.
pub cmd_start_lem :
    (g : Guards) (e : String → Meets) (names : List String) (w : World) (m : String)
    → (contains w.running m ≡ true → contains (cmd_start g e names w).1.running m ≡ true)
      × ((cmd_start g e names w).0 ≡ ok tt
          → contains names m ≡ true
          → contains (cmd_start g e names w).1.running m ≡ true)
unfolding cmd_start
cmd_start_lem g e [] w m = (λ h. h, λ o c. absurd (ground arith))
cmd_start_lem g e (name ∷ names) w m =
    let here = start_one-running g (e name) name w m in
    elim (Result-cases (start_one g (e name) name w).0) [
      | inr (x, r) ↦ (λ h. ground (arith, here.0 h), λ o c. absurd (ground arith))
      | inl (tt, r) ↦
          let later = cmd_start_lem g e names (start_one g (e name) name w).1 m in
          (
            λ h. ground (arith, later.0 (here.0 h)),
            λ o c. elim (Bool-cases (m == name)) [
              | inl s ↦
                  let runs : contains (start_one g (e name) name w).1.running m ≡ true =
                    ground (arith, here.1 r, s) in
                  ground (arith, later.0 runs)
              | inr d ↦ ground (arith, later.1 (ground arith) (ground arith))
            ],
          )
    ]
