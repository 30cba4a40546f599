-- ===== src/Claim/Guard.antt =====
-- When commands go ahead: the guards agree with what the claims say, and with each other.
use lustre_test_vms.Base.{
  String, ◌≡◌, refl, ◌≢◌, ◌↔◌, Bool, true, false, Option, none, some, List, [], ◌∷◌, All, arith,
  string_eq, nat_eq,
}
use lustre_test_vms.Result.{Result, ok, err, claim_error, claim_held}
use lustre_test_vms.Owner.{Host, current_owner, is_session_owner}
use lustre_test_vms.Owner.Laws.{current_owner-err}
use lustre_test_vms.Claim.{
  Claim, Store, file, blank, node, ready, Wish, claim, release, holder, require, require_all,
  auto_claim,
}

abbrev pub names_holder : Result (Option Claim) → Bool
names_holder (ok (some c)) = true
names_holder _ = false

-- With the directory in place, a claim is refused as held exactly when it is not forced and `holder`
-- names a holder.
pub claim-holder :
    (h : Host) (w : Wish) (vm : String) (s : Store)
    → s.dir ≡ ready
    → ((claim h w vm s).0 ≡ err claim_held)
      ↔ ((w.force ≡ false) × (names_holder (holder h w.owner vm s) ≡ true))
unfolding claim holder
claim-holder h w vm s d =
    (λ e. ground (arith, current_owner-err h w.owner claim_held), λ p. ground arith)

node-release_self :
    (h : Host) (x : Option String) (force : Bool) (vm : String) (s : Store) {c : Claim}
    → (release h x force vm s).0 ≡ ok (some c)
    → node (release h x force vm s).1 vm ≡ file blank
unfolding release
node-release_self h x force vm s e = ground arith

claim_of_blank :
    (h : Host) (w : Wish) (vm : String) (s : Store)
    → node s vm ≡ file blank
    → (claim h w vm s).0 ≢ err claim_held
unfolding claim
claim_of_blank h w vm s e f = ground (arith, current_owner-err h w.owner claim_held)

-- Once a claim is dropped, nobody is refused as held off.
pub claim-release :
    (h g : Host) (x : Option String) (force : Bool) (w : Wish) (vm : String) (s : Store) {c : Claim}
    → (release h x force vm s).0 ≡ ok (some c)
    → (claim g w vm (release h x force vm s).1).0 ≢ err claim_held
claim-release h g x force w vm s e = claim_of_blank g w vm _ (node-release_self h x force vm s e)

require_ok_iff :
    (h : Host) (vm : String) (s : Store) → (require h vm s ≡ ok tt) ↔ (holder h none vm s ≡ ok none)
unfolding require
require_ok_iff h vm s = (λ e. ground arith, λ e. ground arith)

-- All VMs pass exactly when none of them has a holder.
pub require_all_iff :
    (h : Host) (vms : List String) (s : Store)
    → (require_all h vms s ≡ ok tt) ↔ All (λ vm. holder h none vm s ≡ ok none) vms
unfolding require_all
require_all_iff h [] s = (λ _. tt, λ _. refl)
require_all_iff h (vm ∷ vms) s = (
  λ e. ((require_ok_iff h vm s).0 (ground arith), (require_all_iff h vms s).0 (ground arith)),
  λ p. ground (arith, (require_ok_iff h vm s).1 p.0, (require_all_iff h vms s).1 p.1),
)

-- An automatic claim never fails for the state of the claim store: `ClaimError` does not get out,
-- other than as a claim that is held. For a caller without a session it does nothing.
pub auto_claim_result :
    (h : Host) (tree : Option String) (vm : String) (s : Store)
    → ((auto_claim h tree vm s).0 ≢ err claim_error)
      × ((owner : String)
          → current_owner h none ≡ ok owner
          → is_session_owner owner ≡ false
          → auto_claim h tree vm s ≡ (ok none, s))
unfolding auto_claim
auto_claim_result h tree vm s =
    (λ e. ground (arith, current_owner-err h none claim_error), λ owner o f. ground arith)
