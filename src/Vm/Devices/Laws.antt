-- ===== src/Vm/Devices/Laws.antt =====
-- That giving devices back undoes what was bound.
use lustre_test_vms.Base.{
  String, ◌≡◌, ◌≢◌, refl, sym, subst, ◌⊎◌, inl, inr, Bool, true, false, not, ◌||◌, ◌&&◌, List, [],
  ◌∷◌, ◌++◌, any, arith, string_eq, ◌==◌, contains, Bool-cases,
}
use lustre_test_vms.Result.{Result, err, exit, Done}
use lustre_test_vms.Vm.Devices.{
  Drivers, Recorded, Bind, binds, refuses, stops_halfway, Bus, set_driver, bind_to_vfio, put,
  bind_each, rebind_each, has_key,
}

-- Whether a device is to be given back, and to which driver.
has_rebind : String → Recorded → Bool
has_rebind b rs = any (λ (r : String × String). r.0 == b && not (r.1 == "")) rs

Restores : Drivers → Recorded → Type 0
Restores before [] = Unit
Restores before (r ∷ rs) = ((r.1 ≡ "") ⊎ (r.1 ≡ before r.0)) × Restores before rs

rebind_each-Restores :
    (e : Bus) (rs : Recorded) (before ds : Drivers) (b : String)
    → ((k d : String) → e.rebind k d ≡ true)
    → Restores before rs
    → (ds b ≡ before b) ⊎ (has_rebind b rs ≡ true)
    → rebind_each e rs ds b ≡ before b
unfolding rebind_each Restores has_rebind
rebind_each-Restores e [] before ds b can r (inl h) = h
rebind_each-Restores e [] before ds b can r (inr h) = absurd (ground arith)
rebind_each-Restores e (r ∷ rs) before ds b can (here, more) h = elim (Bool-cases (r.1 == "")) [
  | inl z ↦ rebind_each-Restores e rs before _ b can more (ground (arith, can r.0 r.1))
  | inr z ↦ elim (Bool-cases (b == r.0)) [
    | inl s ↦ rebind_each-Restores e rs before _ b can more (inl (ground (arith, can r.0 r.1)))
    | inr s ↦ rebind_each-Restores e rs before _ b can more (ground (arith, can r.0 r.1))
  ]
]

put-new : (k v : String) (rs : Recorded) → has_key k rs ≡ false → put k v rs ≡ rs ++ ((k, v) ∷ [])
put-new k v [] n = refl
put-new k v (r ∷ rs) n = ground (arith, put-new k v rs (ground arith))

Restores-snoc :
    (before : Drivers) (rs : Recorded) (k v : String)
    → Restores before rs
    → (v ≡ "") ⊎ (v ≡ before k)
    → Restores before (rs ++ ((k, v) ∷ []))
unfolding Restores
Restores-snoc before [] k v r h = (h, tt)
Restores-snoc before (x ∷ rs) k v (here, more) h = (here, Restores-snoc before rs k v more h)

any-snoc :
    (p : String × String → Bool) (rs : Recorded) (r : String × String)
    → any p (rs ++ (r ∷ [])) ≡ any p rs || p r
any-snoc p [] r = ground arith
any-snoc p (x ∷ rs) r = ground (arith, any-snoc p rs r)

-- Every device is listed once.
unfoldable pub Distinct : List String → Type 0
Distinct [] = Unit
Distinct (b ∷ bs) = (contains bs b ≡ false) × Distinct bs

-- What holds of the devices between two turns of the loop that binds.
Bound : List String → Drivers → Recorded → Drivers → Type 0
Bound rest before rec ds =
    Restores before rec
    × ((b : String) → (ds b ≡ before b) ⊎ (has_rebind b rec ≡ true))
    × ((b : String) → contains rest b ≡ true → (ds b ≡ before b) × (has_key b rec ≡ false))

bind_cases : (a : Bind) → (a ≡ binds) ⊎ ((a ≡ refuses) ⊎ (a ≡ stops_halfway))
bind_cases binds = inl refl
bind_cases refuses = inr (inl refl)
bind_cases stops_halfway = inr (inr refl)

-- One more device that is recorded.
Bound-put :
    (bdf v : String) (rest : List String) (before : Drivers) (rec : Recorded) (ds to : Drivers)
    → contains rest bdf ≡ false
    → Bound (bdf ∷ rest) before rec ds
    → (v ≡ "") ⊎ (v ≡ before bdf)
    → ((b : String) → b ≢ bdf → to b ≡ ds b)
    → (to bdf ≡ before bdf) ⊎ (v ≢ "")
    → Bound rest before (put bdf v rec) to
unfolding Bound has_rebind
Bound-put bdf v rest before rec ds to n (r, back, free) h same here =
    let new = put-new bdf v rec (free bdf (ground arith)).1 in
    (
      subst (Restores before) (sym new) (Restores-snoc before rec bdf v r h),
      λ b. rw new (
          let last = any-snoc (λ x. x.0 == b && not (x.1 == "")) rec (bdf, v) in
          elim (Bool-cases (b == bdf)) [
            | inl e ↦ elim here [
              | inl back_here ↦ inl (ground arith)
              | inr kept ↦ inr (ground (arith, last))
            ]
            | inr e ↦ ground (arith, last, same b (ground arith), back b)
          ]),
      λ b. (λ within. rw new (
          let last = any-snoc (λ x. x.0 == b) rec (bdf, v) in
          let other : b ≢ bdf = ground arith in
          ground (arith, last, same b other, free b (ground arith)))),
    )

-- What was recorded suffices to give all devices back.
Undoable : Drivers → Result Done × Recorded × Drivers → Type 0
Undoable before r =
    Restores before r.1 × ((b : String) → (r.2 b ≡ before b) ⊎ (has_rebind b r.1 ≡ true))

-- Where every device is listed once and has a driver, and no bind fails after the device was unbound, what
-- is recorded suffices to give all devices back, however the loop ends.
bind_each-Bound :
    (e : Bus) (bdfs : List String) (before : Drivers) (rec : Recorded) (ds : Drivers)
    → Distinct bdfs
    → ((b : String) → contains bdfs b ≡ true → (e.bind b ≢ stops_halfway) × (before b ≢ ""))
    → Bound bdfs before rec ds
    → Undoable before (bind_each e bdfs rec ds)
unfolding bind_each bind_to_vfio Bound Distinct Undoable
bind_each-Bound e [] before rec ds u can (r, back, free) = (r, back)
bind_each-Bound e (bdf ∷ bdfs) before rec ds (new, u) can bound =
    let later = bind_each-Bound e bdfs before in
    let can_later : (b : String)
        → contains bdfs b ≡ true
        → (e.bind b ≢ stops_halfway) × (before b ≢ "") =
      λ b. (λ within. can b (ground arith)) in
    let at_bdf : ds bdf ≡ before bdf = (bound.2 bdf (ground arith)).0 in
    elim (Bool-cases (ds bdf == "vfio-pci")) [
      | inl z ↦
          let next =
            Bound-put bdf "" bdfs before rec ds ds new bound (inl refl) (λ b. (λ d. refl))
              (inl at_bdf) in
          let turn : bind_each e (bdf ∷ bdfs) rec ds ≡ bind_each e bdfs (put bdf "" rec) ds =
            ground arith in
          subst (Undoable before) (sym turn) (later (put bdf "" rec) ds u can_later next)
      | inr z ↦ elim (bind_cases (e.bind bdf)) [
        | inl y ↦
            let next =
              Bound-put bdf (ds bdf) bdfs before rec ds (set_driver bdf "vfio-pci" ds) new bound
                (inr at_bdf) (λ b. (λ d. ground arith))
                (inr (ground (arith, can bdf (ground arith)))) in
            let to = set_driver bdf "vfio-pci" ds in
            let turn : bind_each e (bdf ∷ bdfs) rec ds
                ≡ bind_each e bdfs (put bdf (ds bdf) rec) to =
              ground arith in
            subst (Undoable before) (sym turn) (later (put bdf (ds bdf) rec) to u can_later next)
        | inr (inl y) ↦
            let turn : bind_each e (bdf ∷ bdfs) rec ds ≡ (err exit, rec, ds) = ground arith in
            subst (Undoable before) (sym turn) (bound.0, bound.1)
        | inr (inr y) ↦ absurd ((can bdf (ground arith)).0 y)
      ]
    ]

-- If every device is listed once and had a driver, no bind fails after the device was unbound, and every
-- device can be given back, then giving back what was recorded undoes what was bound, whether or not all
-- of it was.
pub rebind_each-bind_each :
    (e : Bus) (bdfs : List String) (ds : Drivers) (b : String)
    → Distinct bdfs
    → ((k : String) → contains bdfs k ≡ true → (e.bind k ≢ stops_halfway) × (ds k ≢ ""))
    → ((k d : String) → e.rebind k d ≡ true)
    → rebind_each e (bind_each e bdfs [] ds).1 (bind_each e bdfs [] ds).2 b ≡ ds b
unfolding Bound Undoable Restores has_rebind
rebind_each-bind_each e bdfs ds b u can back =
    let bound : Bound bdfs ds [] ds = (tt, λ k. inl refl, λ k. (λ h. (refl, refl))) in
    let all = bind_each-Bound e bdfs ds [] ds u can bound in
    rebind_each-Restores e (bind_each e bdfs [] ds).1 ds (bind_each e bdfs [] ds).2 b back all.0
      (all.1 b)
