-- ===== src/Claim/Refresh.antt =====
-- What a claim or a release leaves in the store, and who is held off by it.
use lustre_test_vms.Base.{
  ℕ, suc, ◌+◌, String, ◌≡◌, ◌≢◌, Bool, true, false, Option, none, some, arith, ◌⊎◌, ◌==◌, string_eq,
  nat_eq, if◌then◌else◌,
}
use lustre_test_vms.Result.{Err, ok, err}
use lustre_test_vms.Owner.{Host, current_owner}
use lustre_test_vms.Claim.{
  Claim, Store, node, Wish, live, read, written, load, claim, release, holder,
}

-- A claim that is written is read back as it was.
pub read-written : (vm : String) (c : Claim) → c.vm ≡ vm → read vm (written (some c)) ≡ some c
unfolding read written
read-written vm c e = ground arith

-- A successful claim is what is read back from the store, belongs to the caller and is about the VM.
pub load-claim :
    (h : Host) (w : Wish) (vm : String) (s : Store) {new : Claim} {old : Option Claim}
    → (claim h w vm s).0 ≡ ok (new, old)
    → (load vm (claim h w vm s).1 ≡ ok (some new))
      × (current_owner h w.owner ≡ ok new.owner)
      × (new.vm ≡ vm)
unfolding claim load
load-claim h w vm s e = (ground arith, ground arith, ground arith)

-- After a successful claim, a caller with another owner is told of it while it is live, and the
-- owner is not held off.
pub holder-claim :
    (h g : Host) (w : Wish) (x : Option String) (vm : String) (s : Store) {new : Claim}
    {old : Option Claim} {owner : String}
    → (claim h w vm s).0 ≡ ok (new, old)
    → current_owner g x ≡ ok owner
    → live g new ≡ true
    → holder g x vm (claim h w vm s).1 ≡ (if owner == new.owner then ok none else ok (some new))
unfolding holder
holder-claim h g w x vm s e o alive = ground (arith, load-claim h w vm s e)

-- Claiming a VM again while the claim is live keeps its start, and its end and its tree unless new
-- ones are given; nobody is replaced.
pub claim_again :
    (h : Host) (w : Wish) (vm : String) (s : Store) {c new : Claim} {old : Option Claim}
    → load vm s ≡ ok (some c)
    → current_owner h w.owner ≡ ok c.owner
    → live h c ≡ true
    → (claim h w vm s).0 ≡ ok (new, old)
    → (new.since ≡ c.since)
      × (w.ttl ≡ none → new.expires ≡ c.expires)
      × (w.tree ≡ none → new.tree ≡ c.tree)
      × (old ≡ none)
unfolding claim load
claim_again h w vm s l o alive e =
    (ground arith, λ t. ground arith, λ t. ground arith, ground arith)

-- A claim that replaces another owner's claim is forced or finds it stale; it reports that claim and
-- starts now, and ends after its TTL if it has one.
pub claim_over :
    (h : Host) (w : Wish) (vm : String) (s : Store) {c new : Claim} {old : Option Claim}
    → load vm s ≡ ok (some c)
    → current_owner h w.owner ≢ ok c.owner
    → (claim h w vm s).0 ≡ ok (new, old)
    → ((w.force ≡ true) ⊎ (live h c ≡ false))
      × (old ≡ some c)
      × (new.since ≡ h.now)
      × ((n : ℕ) → w.ttl ≡ some (suc n) → new.expires ≡ some (h.now + suc n))
unfolding claim load
claim_over h w vm s l o e = (ground arith, ground arith, ground arith, λ n t. ground arith)

-- A claim that raises an error leaves every claim file as it was.
pub claim_error_keeps :
    (h : Host) (w : Wish) (vm : String) (s : Store) {e : Err}
    → (claim h w vm s).0 ≡ err e
    → (k : String) → node (claim h w vm s).1 k ≡ node s k
unfolding claim
claim_error_keeps h w vm s f k = ground arith

-- A release that drops a claim drops the one that was there, for its owner, by force, or because it
-- is stale; after it there is none.
pub release_drops :
    (h : Host) (x : Option String) (force : Bool) (vm : String) (s : Store) {c : Claim}
    → (release h x force vm s).0 ≡ ok (some c)
    → (load vm s ≡ ok (some c))
      × (load vm (release h x force vm s).1 ≡ ok none)
      × ((current_owner h x ≡ ok c.owner) ⊎ (force ≡ true) ⊎ (live h c ≡ false))
unfolding release load
release_drops h x force vm s e = (ground arith, ground arith, ground arith)
