-- ===== src/Claim/Exclusion.antt =====
-- A live claim stays: what the other sessions do, in any order, does not touch it.
use lustre_test_vms.Base.{
  String, ◌≡◌, refl, sym, ◌∙◌, inl, inr, none, ◌≢◌, Bool, true, false, Option, some, List, [], ◌∷◌,
  All, arith, string_eq,
}
use lustre_test_vms.Result.{ok, Result-cases}
use lustre_test_vms.Owner.{Host, current_owner}
use lustre_test_vms.Owner.Laws.{current_owner-some, session_owner_filled}
use lustre_test_vms.Claim.{
  Claim, Store, Body, file, node, Wish, live, read, claim, release, auto_claim, forget, auto_wish,
}
use lustre_test_vms.Claim.Frame.{
  node-ensure_claims_dir, node-claim, node-release, node-forget, node-auto_claim,
}

module _ (h : Host) (vm : String) (c : Claim) (alive : live h c ≡ true) where
  claim-keeps :
      (w : Wish) (s : Store) (b : Body)
      → w.force ≡ false
      → current_owner h w.owner ≢ ok c.owner
      → node s vm ≡ file b
      → read vm b ≡ some c
      → node (claim h w vm s).1 vm ≡ file b
  unfolding claim
  claim-keeps w s b unforced other e r =
      ground (arith, node-ensure_claims_dir h w.noninteractive s vm)

  release-keeps :
      (explicit : Option String) (s : Store) (b : Body)
      → current_owner h explicit ≢ ok c.owner
      → node s vm ≡ file b
      → read vm b ≡ some c
      → node (release h explicit false vm s).1 vm ≡ file b
  unfolding release
  release-keeps explicit s b other e r = ground arith

  auto_keeps :
      (tree : Option String) (s : Store) (b : Body) (o : String)
      → current_owner h none ≡ ok o
      → current_owner h none ≢ ok c.owner
      → node s vm ≡ file b
      → read vm b ≡ some c
      → node (auto_claim h tree vm s).1 vm ≡ file b
  unfolding auto_claim
  auto_keeps tree s b o found other e r = ground (
    arith,
    session_owner_filled h o found,
    current_owner-some h o c.owner,
    claim-keeps (auto_wish o tree) s b refl,
  )

  auto_claim-keeps :
      (tree : Option String) (s : Store) (b : Body)
      → current_owner h none ≢ ok c.owner
      → node s vm ≡ file b
      → read vm b ≡ some c
      → node (auto_claim h tree vm s).1 vm ≡ file b
  unfolding auto_claim
  auto_claim-keeps tree s b other e r = elim (Result-cases (current_owner h none)) [
    | inr (x, failed) ↦ ground arith
    | inl (o, found) ↦ auto_keeps tree s b o found other e r
  ]

-- One call of another command, in the order in which the calls get the lock.
pub data Call : Type 0 where
  claims : Host → Wish → String → Call
  releases : Host → Option String → Bool → String → Call
  autos : Host → Option String → String → Call
  forgets : String → Call

pub run : List Call → Store → Store
run [] s = s
run (claims h w vm ∷ calls) s = run calls (claim h w vm s).1
run (releases h o force vm ∷ calls) s = run calls (release h o force vm s).1
run (autos h tree vm ∷ calls) s = run calls (auto_claim h tree vm s).1
run (forgets vm ∷ calls) s = run calls (forget vm s)

-- The call comes from another owner while `c` is live and does not force, or is about another VM.
abbrev pub Outsider : String → Claim → Call → Type 0
Outsider vm c (claims h w v) =
    v ≡ vm → (live h c ≡ true) × (w.force ≡ false) × (current_owner h w.owner ≢ ok c.owner)
Outsider vm c (releases h o force v) =
    v ≡ vm → (live h c ≡ true) × (force ≡ false) × (current_owner h o ≢ ok c.owner)
Outsider vm c (autos h tree v) = v ≡ vm → (live h c ≡ true) × (current_owner h none ≢ ok c.owner)
Outsider vm c (forgets v) = v ≢ vm

module _ (vm : String) (c : Claim) (b : Body) (r : read vm b ≡ some c) where
  step-keeps :
      (call : Call) (s : Store)
      → Outsider vm c call
      → node s vm ≡ file b
      → node (run (call ∷ []) s) vm ≡ file b
  unfolding run
  step-keeps (claims h w v) s o e = elim (string_eq.dec v vm) [
    | yes p ↦
        rw p
          (let (alive, unforced, other) = o p in claim-keeps h vm c alive w s b unforced other e r)
    | no p ↦ node-claim v vm (λ q. p (sym q)) h w s ∙ e
  ]
  step-keeps (releases h x force v) s o e = elim (string_eq.dec v vm) [
    | yes p ↦
        let (alive, unforced, other) = o p in
        rw (p, unforced) (release-keeps h vm c alive x s b other e r)
    | no p ↦ node-release v vm (λ q. p (sym q)) h x force s ∙ e
  ]
  step-keeps (autos h tree v) s o e = elim (string_eq.dec v vm) [
    | yes p ↦ rw p (let (alive, other) = o p in auto_claim-keeps h vm c alive tree s b other e r)
    | no p ↦ node-auto_claim v vm (λ q. p (sym q)) h tree s ∙ e
  ]
  step-keeps (forgets v) s o e = node-forget v vm (λ q. o (sym q)) s ∙ e

  -- While a claim is on a VM, no sequence of claims, releases and automatic claims by other owners,
  -- none of them forced and each made while the claim is live, changes its claim file; nor does
  -- anything that is done to other VMs.
  pub run-keeps :
      (calls : List Call) (s : Store)
      → All (Outsider vm c) calls
      → node s vm ≡ file b
      → node (run calls s) vm ≡ file b
  unfolding run
  run-keeps [] s _ e = e
  run-keeps (claims h w v ∷ calls) s o e = run-keeps calls _ o.1 (step-keeps (claims h w v) s o.0 e)
  run-keeps (releases h x force v ∷ calls) s o e =
      run-keeps calls _ o.1 (step-keeps (releases h x force v) s o.0 e)
  run-keeps (autos h tree v ∷ calls) s o e =
      run-keeps calls _ o.1 (step-keeps (autos h tree v) s o.0 e)
  run-keeps (forgets v ∷ calls) s o e = run-keeps calls _ o.1 (step-keeps (forgets v) s o.0 e)
