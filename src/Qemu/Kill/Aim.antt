-- ===== src/Qemu/Kill/Aim.antt =====
-- What a stop signals.
use lustre_test_vms.Base.{
  ℕ, zero, suc, List, [], ◌∷◌, ◌++◌, String, ◌≡◌, ◌≢◌, refl, sym, ap, subst, ◌∙◌, ◌⊎◌, inl, inr,
  Bool, true, false, none, some, All, nat_eq, string_eq, ◌==◌, arith, Bool-cases, Option-cases,
  if◌then◌else◌,
}
use lustre_test_vms.Result.{Result-cases}
use lustre_test_vms.Owner.{codes}
use lustre_test_vms.Qemu.{
  Ps, Sight, name_value, next_is, cmdline_names_vm, starts_with, ps_is, proc_is, words_name,
  qemu_pid_is, is_running,
}
use lustre_test_vms.Qemu.Identity.{same_codes_sound}
use lustre_test_vms.Qemu.Kill.{
  Host, Signal, term, kill, Shot, Run, look, shoot, wait_gone, finish, check_gone, force,
  after_term, kill_qemu,
}

-- No word gives a name.
abbrev pub Unnamed : List String → Type 0
Unnamed words = All (λ w. (w ≢ "-name") × (name_value w ≡ none)) words

-- The first word that gives a name gives this one: as the next word, or after `-name=`.
abbrev pub Named : String → List String → Type 0
Named name words =
    (before : List String) × (after : List String) × Unnamed before
    × ((words ≡ before ++ ("-name" ∷ name ∷ after))
        ⊎ ((w : String) × (words ≡ before ++ (w ∷ after))
            × (w ≢ "-name")
            × (name_value w ≡ some (codes name))))

-- What a process shows that is taken for the QEMU of a VM. On macOS, its words name the VM, or nothing. On
-- Linux, they name the VM, or cannot be read, or there are none.
abbrev pub IsQemu : Host → Sight → ℕ → String → Type 0
IsQemu h s pid name =
    ((h.macos ≡ true)
      × ((p : Ps) × (s.ps pid ≡ some p)
          × (starts_with "qemu-system" p.exe ≡ true)
          × (p.words ≢ [])
          × (Named name p.words ⊎ Unnamed p.words)))
    ⊎ ((h.macos ≡ false)
        × ((comm : String) × ((s.proc pid).comm ≡ some comm)
            × (starts_with "qemu-system" comm ≡ true))
        × (((s.proc pid).cmdline ≡ none)
            ⊎ (((s.proc pid).cmdline ≡ some [])
                ⊎ ((words : List String) × ((s.proc pid).cmdline ≡ some words)
                    × Named name words))))

-- At the moment before a signal its process showed itself as the QEMU of the VM.
abbrev pub Aimed : Host → String → Shot → Type 0
Aimed h name s = (k : ℕ) × (s.moment ≡ suc k) × IsQemu h (h.sight k) s.pid name

Named-later :
    (name w : String) (words : List String)
    → w ≢ "-name"
    → name_value w ≡ none
    → Named name words
    → Named name (w ∷ words)
Named-later name w words n v (before, after, u, inl e) =
    (w ∷ before, after, ((n, v), u), inl (ap (λ ws. w ∷ ws) e))
Named-later name w words n v (before, after, u, inr (x, e, m, y)) =
    (w ∷ before, after, ((n, v), u), inr (x, ap (λ ws. w ∷ ws) e, m, y))

next_is-Named :
    (name : String) (words : List String) → next_is name words ≡ true → Named name ("-name" ∷ words)
next_is-Named name [] h = absurd (ground arith)
next_is-Named name (a ∷ words) h =
    let same : a ≡ name = ground arith in ([], words, tt, inl (ap (λ b. "-name" ∷ b ∷ words) same))

cmdline_names_vm-Named :
    (strict : Bool) (name : String) (words : List String)
    → cmdline_names_vm strict name words ≡ true
    → Named name words ⊎ ((strict ≡ false) × Unnamed words)
unfolding cmdline_names_vm
cmdline_names_vm-Named strict name [] h = inr (ground arith, tt)
cmdline_names_vm-Named strict name (w ∷ words) h = elim (Bool-cases (w == "-name")) [
  | inl e ↦
      let same : "-name" ≡ w = ground arith in
      inl (subst (λ x. Named name (x ∷ words)) same (next_is-Named name words (ground arith)))
  | inr e ↦
      let other : w ≢ "-name" = λ z. ground arith in
      elim (Option-cases (name_value w)) [
        | inl z ↦ elim (cmdline_names_vm-Named strict name words (ground arith)) [
          | inl named ↦ inl (Named-later name w words other z named)
          | inr (lax, bare) ↦ inr (lax, ((other, z), bare))
        ]
        | inr (v, z) ↦
            let value : v ≡ codes name = same_codes_sound v (codes name) (ground arith) in
            inl ([], words, tt, inr (w, refl, other, z ∙ ap some value))
      ]
]

ps_is-Named :
    (name : String) (p : Ps) (words : List String)
    → p.words ≡ words
    → ps_is name (some p) ≡ true
    → (starts_with "qemu-system" p.exe ≡ true)
      × (p.words ≢ [])
      × (Named name p.words ⊎ Unnamed p.words)
unfolding ps_is
ps_is-Named name p [] e h = absurd (ground arith)
ps_is-Named name p (w ∷ ws) e h =
    let named = cmdline_names_vm-Named false name (w ∷ ws) (ground arith) in
    (
      ground arith,
      λ z. ground arith,
      subst (λ v. Named name v ⊎ Unnamed v) (sym e)
          (elim named [ inl n ↦ inl n | inr (_, u) ↦ inr u ]),
    )

-- What the program takes for the QEMU of a VM shows itself as it.
qemu_pid_is-IsQemu :
    (h : Host) (s : Sight) (pid : ℕ) (name : String)
    → qemu_pid_is h.macos s pid name ≡ true
    → IsQemu h s pid name
unfolding qemu_pid_is proc_is words_name
qemu_pid_is-IsQemu h s pid name t = elim (Bool-cases h.macos) [
  | inl m ↦ elim (Option-cases (s.ps pid)) [
    | inl z ↦ absurd (ground arith)
    | inr (p, z) ↦
        let (exe, some_word, named) = ps_is-Named name p p.words refl (ground arith) in
        inl (m, (p, z, exe, some_word, named))
  ]
  | inr m ↦ elim (Option-cases (s.proc pid).comm) [
    | inl z ↦ absurd (ground arith)
    | inr (comm, z) ↦
        let qemu : starts_with "qemu-system" comm ≡ true = ground arith in
        elim (Option-cases (s.proc pid).cmdline) [
          | inl c ↦ inr (m, (comm, z, qemu), inl c)
          | inr ([], c) ↦ inr (m, (comm, z, qemu), inr (inl c))
          | inr (w ∷ ws, c) ↦ elim (cmdline_names_vm-Named true name (w ∷ ws) (ground arith)) [
            | inl n ↦ inr (m, (comm, z, qemu), inr (inr (w ∷ ws, c, n)))
            | inr (lax, u) ↦ absurd (ground arith)
          ]
        ]
  ]
]

is_running_true :
    (macos : Bool) (s : Sight) (name : String) (pid : ℕ)
    → (is_running macos s name pid).0 ≡ true
    → qemu_pid_is macos s (is_running macos s name pid).1 name ≡ true
unfolding is_running
is_running_true macos s name (suc pid) h = h
is_running_true macos s name zero h = by_file s.pidfile h
  where
    by_file :
        (file : ℕ)
        → (elim file as (λ x. Bool × ℕ) [
          | zero ↦ (false, 0)
          | suc p ↦ if qemu_pid_is macos s (suc p) name then (true, suc p) else (false, 0)
        ]).0
          ≡ true
        → qemu_pid_is macos s
            (elim file as (λ x. Bool × ℕ) [
              | zero ↦ (false, 0)
              | suc p ↦ if qemu_pid_is macos s (suc p) name then (true, suc p) else (false, 0)
            ]).1
            name
          ≡ true
    by_file zero g = absurd (ground arith)
    by_file (suc p) g = ground arith

shoot-Aimed :
    (h : Host) (name : String) (sig : Signal) (r : Run)
    → All (Aimed h name) r.shots
    → (look h name r).0 ≡ true
    → All (Aimed h name) (shoot h sig (look h name r).1).1.shots
unfolding look shoot
shoot-Aimed h name sig r a t = (
  (
    r.now,
    refl,
    qemu_pid_is-IsQemu h (h.sight r.now) _ name
        (is_running_true h.macos (h.sight r.now) name r.pid t),
  ),
  a,
)

wait_gone-shots : (h : Host) (left : ℕ) (r : Run) → (wait_gone h left r).1.shots ≡ r.shots
unfolding wait_gone
wait_gone-shots h zero r = refl
wait_gone-shots h (suc left) r =
    ground (arith, wait_gone-shots h left (record r { now = suc r.now }))

finish-shots : (h : Host) (r : Run) → (finish h r).1.shots ≡ r.shots
unfolding finish
finish-shots h r = elim (Option-cases r.stored) [
  | inl z ↦ ground arith
  | inr (p, z) ↦ elim (Result-cases h.update_pid) [
    | inl (_, u) ↦ ground arith
    | inr (x, u) ↦ ground arith
  ]
]

check_gone-shots : (h : Host) (name : String) (r : Run) → (check_gone h name r).1.shots ≡ r.shots
unfolding check_gone look
check_gone-shots h name r =
    let next = record r { now = suc r.now } in
    ground (arith, finish-shots h next, finish-shots h (look h name next).1)

force-shots :
    (h : Host) (name : String) (r : Run)
    → (((look h name r).0 ≡ false) × ((force h name r).1.shots ≡ r.shots))
      ⊎ (((look h name r).0 ≡ true)
          × ((force h name r).1.shots ≡ (shoot h kill (look h name r).1).1.shots))
unfolding force look shoot
force-shots h name r = elim (Bool-cases (look h name r).0) [
  | inr f ↦ inl (f, ground (arith, f, check_gone-shots h name (look h name r).1))
  | inl t ↦
      let shot = (shoot h kill (look h name r).1).1 in
      inr (
        t,
        ground (
          arith,
          t,
          check_gone-shots h name shot,
          check_gone-shots h name (wait_gone h 20 shot).1,
          wait_gone-shots h 20 shot,
        ),
      )
]

force-Aimed :
    (h : Host) (name : String) (r : Run)
    → All (Aimed h name) r.shots
    → All (Aimed h name) (force h name r).1.shots
force-Aimed h name r a = elim (force-shots h name r) [
  | inl (f, same) ↦ subst (All (Aimed h name)) (sym same) a
  | inr (t, same) ↦ subst (All (Aimed h name)) (sym same) (shoot-Aimed h name kill r a t)
]

after_term-Aimed :
    (h : Host) (name : String) (sent : Bool) (r : Run)
    → All (Aimed h name) r.shots
    → All (Aimed h name) (after_term h name sent r).1.shots
unfolding after_term
after_term-Aimed h name sent r a =
    let waited = wait_gone h (if sent then 50 else 0) r in
    let still : All (Aimed h name) waited.1.shots =
      subst (All (Aimed h name)) (sym (wait_gone-shots h (if sent then 50 else 0) r)) a in
    elim (Bool-cases (wait_gone h (if sent then 50 else 0) r).0) [
      | inl gone ↦
          rw (gone, after_term) (subst (All (Aimed h name)) (sym (finish-shots h waited.1)) still)
      | inr alive ↦ rw (alive, after_term) (force-Aimed h name waited.1 still)
    ]

kill_keeps-Aimed :
    (h : Host) (name : String) (r : Run)
    → All (Aimed h name) r.shots
    → All (Aimed h name) (kill_qemu h name r).1.shots
unfolding kill_qemu look
kill_keeps-Aimed h name r a = elim (Bool-cases (look h name r).0) [
  | inl t ↦
      rw (t, kill_qemu)
        (after_term-Aimed h name (shoot h term (look h name r).1).0
          (shoot h term (look h name r).1).1 (shoot-Aimed h name term r a t))
  | inr f ↦
      rw (f, kill_qemu) (subst (All (Aimed h name)) (sym (finish-shots h (look h name r).1)) a)
]

-- Every signal of a stop goes to a process that showed itself as the QEMU of the VM at the moment before: the
-- first name that its command line gives is the VM's; or, on Linux, its executable is a QEMU and the command
-- line cannot be read or is empty, and on macOS, the command line gives no name.
pub kill_qemu-Aimed :
    (h : Host) (name : String) (r : Run)
    → All (Aimed h name) (kill_qemu h name (record r { shots = [] })).1.shots
kill_qemu-Aimed h name r = kill_keeps-Aimed h name (record r { shots = [] }) tt
