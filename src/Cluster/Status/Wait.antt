-- ===== src/Cluster/Status/Wait.antt =====
-- That the wait for recovery ends, and what its answer means.
use lustre_test_vms.Base.{
  ℕ, zero, suc, ◌+◌, ◌-◌, ◌≤◌, ◌<◌, min, ◌≡◌, ◌≢◌, ap, sym, refl, ◌⊎◌, inl, inr, Bool, false,
  Option, some, List, arith, nat_eq, string_eq, leb, Bool-cases,
}
use lustre_test_vms.Cluster.Status.{Cluster, Row, recovery_done, wait_until, wait_recovery}

-- When a probe of a wait begins: at the start, or after a sleep that began before the deadline and was to
-- end by it.
abbrev pub Begins : Cluster → ℕ → ℕ → ℕ → Type 0
Begins c deadline start k =
    (k ≡ start)
    ⊎ ((t : ℕ) × (d : ℕ) × (start ≤ t)
        × (t < deadline)
        × (t + d ≤ deadline)
        × (k ≡ c.after_sleep t d))

-- The answer is what `recovery_done` says of a probe of the wait, and it is no only for one that ends at the
-- deadline or after it.
abbrev pub Answer : Cluster → ℕ → ℕ → Option (List Row × Bool) → Type 0
Answer c deadline start r =
    (k : ℕ) × (start ≤ k)
    × Begins c deadline start k
    × (r ≡ some (c.probe k, recovery_done (c.probe k)))
    × (recovery_done (c.probe k) ≡ false → deadline ≤ c.after_probe k)

-- The clock does not go back, and a sleep does not end early.
abbrev pub Clock : Cluster → Type 0
Clock c = ((t : ℕ) → t ≤ c.after_probe t) × ((t d : ℕ) → t + d ≤ c.after_sleep t d)

wait_until-Answer :
    (c : Cluster) (deadline interval turns start now : ℕ)
    → Clock c
    → interval ≢ 0
    → start ≤ now
    → Begins c deadline start now
    → turns ≢ 0
    → deadline < now + turns
    → Answer c deadline start (wait_until c deadline interval turns now)
unfolding wait_until
wait_until-Answer c deadline interval zero start now clock i from begins some_turn enough =
    absurd (some_turn refl)
wait_until-Answer c deadline interval (suc turns) start now clock i from begins some_turn enough =
    let goes_on : now ≤ c.after_probe now = clock.0 now in
    let d = min interval (deadline - c.after_probe now) in
    let next = c.after_sleep (c.after_probe now) d in
    let slept : c.after_probe now + d ≤ next = clock.1 (c.after_probe now) d in
    elim (Bool-cases (recovery_done (c.probe now))) [
      | inl done ↦
          rw (done, wait_until)
            (
              now,
              from,
              begins,
              ap (λ b. some (c.probe now, b)) (sym done),
              λ h. absurd (ground (arith, done, h)),
            )
      | inr still ↦ elim (Bool-cases (leb deadline (c.after_probe now))) [
        | inl late ↦
            rw (still, late, wait_until)
              (
                now,
                from,
                begins,
                ap (λ b. some (c.probe now, b)) (sym still),
                λ h. ground (arith, late),
              )
        | inr room ↦
            let left : c.after_probe now < deadline = ground (arith, room) in
            let wait : start ≤ next = omega (arith, goes_on, slept, from) in
            let more : deadline < next + turns = omega (arith, goes_on, left, i, enough, slept) in
            let another : turns ≢ 0 = λ z. absurd (omega (arith, goes_on, left, enough, z)) in
            let sleeps : Begins c deadline start next = inr (
              c.after_probe now,
              d,
              omega (arith, from, goes_on),
              left,
              omega (arith, left),
              refl,
            ) in
            rw (still, room, wait_until)
              (wait_until-Answer c deadline interval turns start next clock i wait sleeps another
                more)
      ]
    ]

-- If the clock does not go back, no sleep ends early and the interval is positive, the wait ends, and its
-- answer is what `recovery_done` says of a probe that begins at the start, or after a sleep that began before
-- the deadline and was to end by it. The answer is no only if that probe ends at the deadline or after it.
pub wait_recovery-Answer :
    (c : Cluster) (timeout interval now : ℕ)
    → Clock c
    → interval ≢ 0
    → Answer c (now + timeout) now (wait_recovery c timeout interval now)
unfolding wait_recovery
wait_recovery-Answer c timeout interval now clock i =
    wait_until-Answer c (now + timeout) interval (suc (suc timeout)) now now clock i (omega arith)
      (inl refl) (omega arith) (omega arith)
