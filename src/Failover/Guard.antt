-- ===== src/Failover/Guard.antt =====
-- What the guard of `require_no_moved_facets` lets pass.
use lustre_test_vms.Base.{
  String, ◌≡◌, ◌≢◌, refl, inl, inr, false, List, [], ◌∷◌, keep, map, All, arith, string_eq,
  Bool-cases,
}
use lustre_test_vms.Result.{ok, Result-cases}
use lustre_test_vms.Failover.{
  Cluster, Pair, Answer, Active, insert, new_pair, active, is_moved, first_of, note_moved,
  moved_from, moved_facets, require_no_moved_facets,
}

-- None of the pair's targets is on the partner, as far as one can tell.
abbrev pub Home : Cluster → (String → Answer) → String × String → Type 0
Home c ask (primary, partner) =
    (p : Pair) × (rows : Active) × (new_pair c primary ≡ ok p)
    × (active p (ask primary) ≡ ok rows)
    × All (λ row. is_moved partner row ≡ false) rows

none-kept :
    (partner : String) (rows : Active)
    → map first_of (keep (is_moved partner) rows) ≡ []
    → All (λ row. is_moved partner row ≡ false) rows
none-kept partner [] h = tt
none-kept partner (row ∷ rows) h = elim (Bool-cases (is_moved partner row)) [
  | inl e ↦ absurd (ground arith)
  | inr e ↦ (e, none-kept partner rows (rw (e, keep) at h))
]

insert-ne-nil : (k : String) (v : List String) (d : List (String × List String)) → insert k v d ≢ []
insert-ne-nil k v [] h = cc
insert-ne-nil k v ((n, a) ∷ d) h = ground arith

note_moved-nil :
    (primary : String) (fs : List String) (d : List (String × List String))
    → note_moved primary fs d ≡ []
    → (fs ≡ []) × (d ≡ [])
note_moved-nil primary [] d h = (refl, h)
note_moved-nil primary (f ∷ fs) d h = absurd (insert-ne-nil primary (f ∷ fs) d h)

moved_from-nil :
    (c : Cluster) (ask : String → Answer) (ps : List (String × String))
    → moved_from c ask ps ≡ ok []
    → All (Home c ask) ps
unfolding moved_from
moved_from-nil c ask [] h = tt
moved_from-nil c ask ((primary, partner) ∷ ps) h = elim (Result-cases (new_pair c primary)) [
  | inr (x, n) ↦ absurd (ground arith)
  | inl (p, n) ↦ elim (Result-cases (active p (ask primary))) [
    | inr (x, a) ↦ absurd (ground arith)
    | inl (rows, a) ↦ elim (Result-cases (moved_from c ask ps)) [
      | inr (x, m) ↦ absurd (ground arith)
      | inl (d, m) ↦
          let (quiet, rest) =
            note_moved-nil primary (map first_of (keep (is_moved partner) rows)) d (ground arith) in
          ((p, rows, n, a, none-kept partner rows quiet), moved_from-nil c ask ps (rw rest at m))
    ]
  ]
]

-- The guard passes only if every pair of the cluster can be asked, and no target of any is recorded on its
-- partner, other than one that is unmounted there.
pub require_no_moved_facets-Home :
    (c : Cluster) (ask : String → Answer)
    → require_no_moved_facets c ask ≡ ok tt
    → All (Home c ask) c.partners
unfolding require_no_moved_facets moved_facets
require_no_moved_facets-Home c ask h = elim (Result-cases (moved_from c ask c.partners)) [
  | inr (x, m) ↦ absurd (ground arith)
  | inl ([], m) ↦ moved_from-nil c ask c.partners m
  | inl (f ∷ fs, m) ↦ absurd (ground arith)
]
