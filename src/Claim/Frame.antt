-- ===== src/Claim/Frame.antt =====
-- What an operation on one VM's claim leaves alone: the claims on the others.
use lustre_test_vms.Base.{String, ◌≡◌, ◌≢◌, Bool, Option, arith, string_eq}
use lustre_test_vms.Owner.{Host}
use lustre_test_vms.Claim.{
  Store, Body, node, Wish, locked, ensure_claims_dir, take_claim, claim, release, auto_claim,
  forget,
}

-- Setting the directory up keeps every claim file.
pub node-ensure_claims_dir :
    (h : Host) (quiet : Bool) (s : Store) (k : String)
    → node (ensure_claims_dir h quiet s).1 k ≡ node s k
unfolding ensure_claims_dir
node-ensure_claims_dir h quiet s k = ground arith

module _ (vm k : String) (other : k ≢ vm) where
  node-locked : (create : Bool) (s : Store) → node (locked create vm s).1 k ≡ node s k
  unfolding locked
  node-locked create s = ground arith

  node-take_claim :
      (h : Host) (w : Wish) (owner : String) (b : Body) (s : Store)
      → node (take_claim h w vm owner b s).1 k ≡ node s k
  unfolding take_claim
  node-take_claim h w owner b s = ground arith

  -- Neither claiming a VM, nor an error on the way, changes the claim file of another VM.
  pub node-claim : (h : Host) (w : Wish) (s : Store) → node (claim h w vm s).1 k ≡ node s k
  unfolding claim
  node-claim h w s = grind (arith, node-ensure_claims_dir, node-locked, node-take_claim)

  pub node-release :
      (h : Host) (explicit : Option String) (force : Bool) (s : Store)
      → node (release h explicit force vm s).1 k ≡ node s k
  unfolding release
  node-release h explicit force s = ground arith

  pub node-forget : (s : Store) → node (forget vm s) k ≡ node s k
  unfolding forget
  node-forget s = ground arith

  pub node-auto_claim :
      (h : Host) (tree : Option String) (s : Store) → node (auto_claim h tree vm s).1 k ≡ node s k
  unfolding auto_claim
  node-auto_claim h tree s = grind (arith, node-claim)
