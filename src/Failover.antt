-- ===== src/Failover.antt =====
-- ltvm_pkg/cluster_failover.py: the pair of nodes that a failover moves targets between, what the test
-- framework records of each target, and the guard of the commands that would act on the primaries. The
-- commands are in Failover/Commands.antt.
pub mod Commands
pub mod Guard
use lustre_test_vms.Base.{
  ℕ, String, Bool, true, false, not, ◌&&◌, ◌||◌, Option, none, some, List, [], ◌∷◌, ◌++◌, map, any,
  keep, ◌==◌, string_eq, nat_eq, if◌then◌else◌,
}
use lustre_test_vms.Result.{Result, ok, err, exit, Err}

-- A dict with texts as keys is the list of its items in order.
module _ {ℓ} {A : Type ℓ} where
  abbrev pub lookup : String → List (String × A) → Option A
  lookup k [] = none
  lookup k ((n, a) ∷ rest) = let found = lookup k rest in if k == n then some a else found

  abbrev pub insert : String → A → List (String × A) → List (String × A)
  insert k v [] = (k, v) ∷ []
  insert k v ((n, a) ∷ rest) =
      let later = insert k v rest in if k == n then (n, v) ∷ rest else (n, a) ∷ later

-- What the commands read of a cluster: `failover_partners()`, the `_HOST` lines of its local.sh with
-- whether one names a separate MGS, and the clients.
pub record Cluster : Type 0 where
  pub nodes : List String
  pub partners : List (String × String)
  pub hosts : List (String × String)
  pub separate_mgs : Bool
  pub clients : List String

abbrev append_to : String → String → List (String × List String) → List (String × List String)
append_to host facet d = elim (lookup host d) [
  | none ↦ insert host (facet ∷ []) d
  | some fs ↦ insert host (fs ++ (facet ∷ [])) d
]

-- `node_facets`
unfoldable pub add_facets :
    Bool → List (String × String) → List (String × List String) → List (String × List String)
add_facets separate [] d = d
add_facets separate ((facet, host) ∷ rest) d =
    add_facets separate rest (if facet == "mgs" && not separate then d else append_to host facet d)

unfoldable pub node_facets : Cluster → List (String × List String)
unfolding add_facets
node_facets c = add_facets c.separate_mgs c.hosts []

-- `_Pair`
pub record Pair : Type 0 where
  pub primary : String
  pub partner : String
  pub facets : List String
  pub client : String

-- `_Pair.__init__`
unfoldable pub new_pair : Cluster → String → Result Pair
new_pair c node = elim (lookup node c.partners) [
  | none ↦ err exit
  | some q ↦ elim (lookup node (node_facets c)) [
    | none ↦ err exit
    | some [] ↦ err exit
    | some (f ∷ fs) ↦ elim c.clients [
      | [] ↦ err exit
      | client ∷ _ ↦ ok (record { primary = node; partner = q; facets = f ∷ fs; client = client })
    ]
  ]
]

-- What failover-facets.sh ends with: its exit status, and the words of each line of its output.
pub record Answer : Type 0 where
  pub rc : ℕ
  pub rows : List (List String)

-- `row[0]: (row[1], row[2])` for the rows of three words.
pub record Place : Type 0 where
  pub host : String
  pub state : String

abbrev pub Active : Type 0
Active = List (String × Place)

unfoldable pub add_rows : List (List String) → Active → Active
add_rows [] d = d
add_rows ((f ∷ host ∷ state ∷ []) ∷ rows) d =
    add_rows rows (insert f (record { host = host; state = state }) d)
add_rows (_ ∷ rows) d = add_rows rows d

abbrev pub is_missing : Active → String → Bool
is_missing d f = elim (lookup f d) [ none ↦ true | some _ ↦ false ]

-- `_Pair.active`
unfoldable pub active : Pair → Answer → Result Active
active p a =
    if not (a.rc == 0)
    then err exit
    else if any (is_missing (add_rows a.rows [])) p.facets
    then err exit
    else ok (add_rows a.rows [])

-- Recorded on the partner, and mounted there as far as one can tell.
abbrev pub is_moved : String → String × Place → Bool
is_moved partner (f, at) = at.host == partner && not (at.state == "unmounted")

abbrev pub first_of {ℓ} : {A : Type ℓ} → String × A → String
first_of (f, _) = f

abbrev pub note_moved :
    String → List String → List (String × List String) → List (String × List String)
note_moved primary [] d = d
note_moved primary (f ∷ fs) d = insert primary (f ∷ fs) d

-- `moved_facets`, with the answer that each primary's pair gets.
unfoldable pub moved_from :
    Cluster → (String → Answer) → List (String × String) → Result (List (String × List String))
moved_from c ask [] = ok []
moved_from c ask ((primary, partner) ∷ rest) =
    let later = moved_from c ask rest in
    elim (new_pair c primary) [
      | err e ↦ err e
      | ok p ↦ elim (active p (ask primary)) [
        | err e ↦ err e
        | ok rows ↦ elim later [
          | err e ↦ err e
          | ok d ↦ ok (note_moved primary (map first_of (keep (is_moved partner) rows)) d)
        ]
      ]
    ]

unfoldable pub moved_facets : Cluster → (String → Answer) → Result (List (String × List String))
moved_facets c ask = moved_from c ask c.partners

-- `require_no_moved_facets`
unfoldable pub require_no_moved_facets : Cluster → (String → Answer) → Result (Unit {0})
require_no_moved_facets c ask = elim (moved_facets c ask) [
  | err e ↦ err e
  | ok [] ↦ ok tt
  | ok (_ ∷ _) ↦ err exit
]
