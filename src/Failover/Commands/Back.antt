-- ===== src/Failover/Commands/Back.antt =====
-- What a failback touches, and in which order.
use lustre_test_vms.Base.{
  String, ◌≡◌, ◌≢◌, refl, inl, inr, Bool, true, List, [], ◌∷◌, any, keep, All, arith, nat_eq,
  string_eq, Bool-cases,
}
use lustre_test_vms.Result.{ok}
use lustre_test_vms.Owner.{Host}
use lustre_test_vms.Claim.{Store}
use lustre_test_vms.Failover.{Cluster, Pair, new_pair, active, Active}
use lustre_test_vms.Failover.Commands.{
  Event, stop, move, start, drop, Log, Env, unfault, put_back, cluster_failback, on, unmounted_home,
}

abbrev pub AllTrue : (String → Bool) → List String → Type 0
AllTrue p fs = All (λ f. p f ≡ true) fs

-- Targets are stopped, moved and dropped only from the partner, and mounted only where nothing has them.
abbrev pub Fits : Pair → Active → Event → Type 0
Fits p rows (stop fs) = AllTrue (on p rows) fs
Fits p rows (move fs) = AllTrue (on p rows) fs
Fits p rows (drop fs) = AllTrue (on p rows) fs
Fits p rows (start fs) = AllTrue (unmounted_home p rows) fs
Fits p rows _ = Unit

All-keep : (p : String → Bool) (fs : List String) → AllTrue p (keep p fs)
All-keep p [] = tt
All-keep p (f ∷ fs) = elim (Bool-cases (p f)) [
  | inl e ↦ rw (e, keep) (e, All-keep p fs)
  | inr e ↦ rw (e, keep) (All-keep p fs)
]

put_back_Fits :
    (e : Env) (p : Pair) (rows : Active) (back remount : List String) (log : Log)
    → AllTrue (on p rows) back
    → AllTrue (unmounted_home p rows) remount
    → All (Fits p rows) log
    → All (Fits p rows) (put_back e back remount log).1
unfolding put_back
put_back_Fits e p rows [] [] log a b c = c
put_back_Fits e p rows [] (g ∷ gs) log a b c = ground arith
put_back_Fits e p rows (f ∷ fs) [] log a b c = ground arith
put_back_Fits e p rows (f ∷ fs) (g ∷ gs) log a b c = ground arith

unfault-Fits :
    (e : Env) (p : Pair) (rows : Active) (log : Log)
    → All (Fits p rows) log
    → All (Fits p rows) (unfault e log).1
unfolding unfault
unfault-Fits e p rows log c = ground arith

-- A failback stops, moves and drops only targets that are recorded on the partner, and mounts only
-- targets that are recorded on the primary and unmounted there.
pub cluster_failback-Fits :
    (e : Env) (h : Host) (s : Store) (c : Cluster) (node : String) (p : Pair) (rows : Active)
    → new_pair c node ≡ ok p
    → active p e.before ≡ ok rows
    → All (Fits p rows) (cluster_failback e h s c node []).1
unfolding cluster_failback
cluster_failback-Fits e h s c node p rows n a = ground (
  arith,
  unfault-Fits e p rows [] tt,
  put_back_Fits e p rows (keep (on p rows) p.facets) (keep (unmounted_home p rows) p.facets)
      (unfault e []).1 (All-keep (on p rows) p.facets) (All-keep (unmounted_home p rows) p.facets)
      (unfault-Fits e p rows [] tt),
)

-- Nothing is moved to the primary or mounted.
abbrev pub Idle : Event → Type 0
Idle (move fs) = ⊥
Idle (start fs) = ⊥
Idle _ = Unit

any-keep :
    (p : String → Bool) (fs : List String)
    → any p fs ≡ true
    → (g : String) × (gs : List String) × (keep p fs ≡ g ∷ gs)
any-keep p [] h = absurd (ground arith)
any-keep p (f ∷ fs) h = elim (Bool-cases (p f)) [
  | inl e ↦ (f, keep p fs, rw (e, keep) refl)
  | inr e ↦ let (g, gs, k) = any-keep p fs (ground arith) in (g, gs, rw (e, keep) k)
]

put_back_Idle :
    (e : Env) (f : String) (fs remount : List String) (log : Log)
    → e.stop_rc ≢ 0
    → All Idle log
    → All Idle (put_back e (f ∷ fs) remount log).1
unfolding put_back
put_back_Idle e f fs remount log b c = ground arith

unfault-Idle : (e : Env) (log : Log) → All Idle log → All Idle (unfault e log).1
unfolding unfault
unfault-Idle e log c = ground arith

-- As long as a target on the partner cannot be stopped there, a failback mounts nothing on the primary.
pub cluster_failback-Idle :
    (e : Env) (h : Host) (s : Store) (c : Cluster) (node : String) (p : Pair) (rows : Active)
    → new_pair c node ≡ ok p
    → active p e.before ≡ ok rows
    → any (on p rows) p.facets ≡ true
    → e.stop_rc ≢ 0
    → All Idle (cluster_failback e h s c node []).1
unfolding cluster_failback
cluster_failback-Idle e h s c node p rows n a some_back stuck =
    let (f, fs, k) = any-keep (on p rows) p.facets some_back in
    ground (
      arith,
      unfault-Idle e [] tt,
      put_back_Idle e f fs (keep (unmounted_home p rows) p.facets) (unfault e []).1 stuck
          (unfault-Idle e [] tt),
    )
