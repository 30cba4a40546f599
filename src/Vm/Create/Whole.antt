-- ===== src/Vm/Create/Whole.antt =====
-- That a creation is done or leaves nothing.
use lustre_test_vms.Base.{
  String, ◌≡◌, ◌≢◌, refl, sym, ap, subst, inl, inr, true, false, none, some, List, [], ◌∷◌, arith,
  nat_eq, string_eq, ◌==◌, contains, Bool-cases,
}
use lustre_test_vms.Result.{ok, err, Err, Done, Result-cases}
use lustre_test_vms.Vm.Files.{VmInfo, File, info, failed_log, same_file, fields, content}
use lustre_test_vms.Vm.Files.Laws.{can_remove}
use lustre_test_vms.Vm.Devices.{Drivers, stops_halfway}
use lustre_test_vms.Vm.Devices.Laws.{Distinct, rebind_each-bind_each}
use lustre_test_vms.Vm.Create.{
  World, Meets, launch_and_wait, rollback_launch_failure, without_name, persist_vm, create_vm,
}
use lustre_test_vms.Vm.Create.Touched.{covers, launch_and_wait-content}
use lustre_test_vms.Vm.Create.Launched.{
  SameNames, launch_and_wait-Known, launch_and_wait-SameNames, launch_and_wait-drivers,
  contains-without_name,
}
use lustre_test_vms.Vm.Create.Restores.{
  rollback_launch_failure-content, all_removable, SameRest, persist_vm-SameRest, persist_vm-content,
}

-- Two states with the same files, but for the preserved log of a VM, the same drivers, and the same names
-- registered and running.
unfoldable pub Same : String → World → World → Type 0
Same name w u =
    ((g : File) → same_file (failed_log name) g ≡ false → content g u.files ≡ content g w.files)
    × ((b : String) → u.drivers b ≡ w.drivers b)
    × ((m : String) → SameNames m w u)

pub without_name_self :
    (name : String) (xs : List String) → contains (without_name name xs) name ≡ false
without_name_self name [] = refl
without_name_self name (x ∷ xs) = elim (Bool-cases (x == name)) [
  | inl e ↦ ground (arith, without_name_self name xs)
  | inr e ↦ ground (arith, without_name_self name xs)
]

module _ (e : Meets) (can : (f : File) → can_remove e.host f ≡ true)
    (back : (k d : String) → e.bus.rebind k d ≡ true) (saves : e.save ≡ ok tt)
    (kills : e.kill ≡ ok tt) (unregisters : e.unregister ≡ true) where
  rollback-drivers :
      (vm : VmInfo) (bdfs : List String) (w u : World)
      → vm.passthrough_drivers ≡ []
      → Distinct bdfs
      → ((k : String)
          → contains bdfs k ≡ true
          → (e.bus.bind k ≢ stops_halfway) × (w.drivers k ≢ ""))
      → SameRest w u
      → (b : String)
      → let run = launch_and_wait e vm bdfs u in
        (rollback_launch_failure e vm.name run.1 run.2).drivers b ≡ w.drivers b
  unfolding rollback_launch_failure SameRest
  rollback-drivers vm bdfs w u none_yet once bindable rest b =
      let bound = launch_and_wait-drivers e vm bdfs u in
      let undone = rebind_each-bind_each e.bus bdfs w.drivers b once bindable back in
      ground (arith, bound, undone, none_yet, rest)

  rollback-SameNames :
      (vm : VmInfo) (bdfs : List String) (w u : World)
      → contains w.registered vm.name ≡ false
      → contains w.running vm.name ≡ false
      → SameRest w u
      → (m : String)
      → let run = launch_and_wait e vm bdfs u in
        SameNames m w (rollback_launch_failure e vm.name run.1 run.2)
  unfolding rollback_launch_failure SameRest
  rollback-SameNames vm bdfs w u unnamed stopped rest m =
      let run = launch_and_wait e vm bdfs u in
      elim (Bool-cases (m == vm.name)) [
        | inl z ↦ (
          ground (arith, without_name_self vm.name run.2.registered, z, unnamed, unregisters),
          ground (arith, without_name_self vm.name run.2.running, z, stopped, kills),
        )
        | inr z ↦
            let names = launch_and_wait-SameNames e vm bdfs m u (ground arith) in
            let left = contains-without_name vm.name m run.2.registered (ground arith) in
            let left_running = contains-without_name vm.name m run.2.running (ground arith) in
            (
              ground (arith, left, names.0, rest, unregisters),
              ground (arith, left_running, names.1, rest, kills),
            )
      ]

  rollback-Same :
      (vm : VmInfo) (bdfs : List String) (w u : World)
      → vm.passthrough_drivers ≡ []
      → Distinct bdfs
      → ((k : String)
          → contains bdfs k ≡ true
          → (e.bus.bind k ≢ stops_halfway) × (w.drivers k ≢ ""))
      → ((f : File) → covers e.host vm.name vm.disk_dir f ≡ true → content f w.files ≡ none)
      → contains w.registered vm.name ≡ false
      → contains w.running vm.name ≡ false
      → content (info vm.name) u.files ≡ some (fields vm)
      → ((g : File)
          → covers e.host vm.name vm.disk_dir g ≡ false
          → content g u.files ≡ content g w.files)
      → SameRest w u
      → let run = launch_and_wait e vm bdfs u in
        Same vm.name w (rollback_launch_failure e vm.name run.1 run.2)
  unfolding Same SameRest
  rollback-Same vm bdfs w u none_yet once bindable fresh unnamed stopped recorded others rest =
      let name = vm.name in
      let run = launch_and_wait e vm bdfs u in
      let known = launch_and_wait-Known e vm bdfs u (vm, recorded, refl) in
      (
        λ g. (λ n.
            let gone =
              rollback_launch_failure-content e name vm.disk_dir run.1 run.2 g
                (all_removable e.host _ can) known n in
            elim (Bool-cases (covers e.host name vm.disk_dir g)) [
              | inl o ↦ ground (arith, gone, o, fresh g o)
              | inr o ↦
                  let live = launch_and_wait-content e vm bdfs u g (ground arith) (ground arith) in
                  ground (arith, gone, o, live, others g o)
            ]),
        λ b. rollback-drivers vm bdfs w u none_yet once bindable rest b,
        rollback-SameNames vm bdfs w u unnamed stopped rest,
      )

  failed_persist-Same :
      (vm : VmInfo) (w : World) (y : Err)
      → ((f : File) → covers e.host vm.name vm.disk_dir f ≡ true → content f w.files ≡ none)
      → (persist_vm e vm w).0 ≡ err y
      → Same vm.name w (persist_vm e vm w).1
  unfolding Same SameRest
  failed_persist-Same vm w y fresh r =
      let rest = persist_vm-SameRest e vm w in
      (
        λ g. (λ n. elim (persist_vm-content e vm w g can saves fresh) [
          | inl (o, _, _) ↦ absurd (ground arith)
          | inr (_, _, same) ↦ same
        ]),
        λ b. ap (λ (d : Drivers). d b) rest.0,
        λ m. (ap (λ r. contains r m) rest.1, ap (λ r. contains r m) rest.2),
      )

  made_persist :
      (vm : VmInfo) (w : World) (z : Done)
      → ((f : File) → covers e.host vm.name vm.disk_dir f ≡ true → content f w.files ≡ none)
      → (persist_vm e vm w).0 ≡ ok z
      → (content (info vm.name) (persist_vm e vm w).1.files ≡ some (fields vm))
        × ((g : File)
            → covers e.host vm.name vm.disk_dir g ≡ false
            → content g (persist_vm e vm w).1.files ≡ content g w.files)
  made_persist vm w z fresh r = (
    elim (persist_vm-content e vm w (info vm.name) can saves fresh) [
      | inl (_, recorded, _) ↦ recorded
      | inr (_, o, _) ↦ absurd (ground arith)
    ],
    λ g. elim (persist_vm-content e vm w g can saves fresh) [
      | inl (_, _, others) ↦ others
      | inr (_, o, _) ↦ absurd (ground arith)
    ],
  )

  pub create_vm-Same :
      (vm : VmInfo) (bdfs : List String) (w : World) (x : Err)
      → vm.passthrough_drivers ≡ []
      → Distinct bdfs
      → ((k : String)
          → contains bdfs k ≡ true
          → (e.bus.bind k ≢ stops_halfway) × (w.drivers k ≢ ""))
      → ((f : File) → covers e.host vm.name vm.disk_dir f ≡ true → content f w.files ≡ none)
      → contains w.registered vm.name ≡ false
      → contains w.running vm.name ≡ false
      → (create_vm e vm bdfs w).0 ≡ err x
      → Same vm.name w (create_vm e vm bdfs w).1
  unfolding create_vm
  create_vm-Same vm bdfs w x none_yet once bindable fresh unnamed stopped fails =
      let p = persist_vm e vm w in
      let rest = persist_vm-SameRest e vm w in
      elim (Result-cases p.0) [
        | inr (y, r) ↦
            let same : Same vm.name w p.1 = failed_persist-Same vm w y fresh r in
            let turn : (create_vm e vm bdfs w).1 ≡ p.1 = ground arith in
            subst (Same vm.name w) (sym turn) same
        | inl (z, r) ↦
            let run = launch_and_wait e vm bdfs p.1 in
            elim (Result-cases run.0) [
              | inl (_, l) ↦ absurd (ground arith)
              | inr (y, l) ↦
                  let turn : (create_vm e vm bdfs w).1
                      ≡ rollback_launch_failure e vm.name run.1 run.2 =
                    ground arith in
                  let done = made_persist vm w z fresh r in
                  subst (Same vm.name w) (sym turn) (
                    rollback-Same vm bdfs w p.1 none_yet once bindable fresh unnamed stopped done.0
                      done.1 rest)
            ]
      ]
