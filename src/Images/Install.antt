-- ===== src/Images/Install.antt =====
-- `set_current` and `install_image` of ltvm_pkg/image_store.py.
use lustre_test_vms.Base.{
  String, ◌≡◌, ◌≢◌, sym, subst, ◌∙◌, ◌⊎◌, inl, inr, Bool, true, false, not, Option, none, some,
  List, [], ◌∷◌, arith, ◌==◌, string_eq, contains, Bool-cases, Option-cases, if◌then◌else◌,
}
use mathlib.Core.Bool.{false≢true}
use lustre_test_vms.Result.{Result, ok, err, os_error, Action, Done}
use lustre_test_vms.Images.{
  Stat, Entry, file, link, Dir, inside, entry, unlink, put_entry, Host, current_name, is_absolute,
  current_image,
}
use lustre_test_vms.Images.Prune.{entry-unlink}

-- Which calls succeed, the random name of the new pointer, and the names that are tried for the image.
pub record Calls : Type 0 where
  pub symlink : Bool
  pub replace : Bool
  pub rename : Bool
  pub tmp : String
  pub names : List String

-- `set_current`
unfoldable pub set_current : Calls → String → Action Dir Done
set_current e name d =
    if not e.symlink
    then (err os_error, d)
    else if e.replace
    then (ok tt, put_entry current_name (link name) (unlink e.tmp (put_entry e.tmp (link name) d)))
    else (err os_error, unlink e.tmp (put_entry e.tmp (link name) d))

-- The loop for a name that is free.
unfoldable pub free_name : List String → Dir → Option String
free_name [] d = none
free_name (n ∷ ns) d =
    let rest = free_name ns d in elim (entry n d) [ none ↦ some n | some _ ↦ rest ]

-- The rename to a free name, and the pointer.
unfoldable pub place_image : Calls → Stat → String → Dir → Result String × Dir
place_image e st dest d =
    let placed = put_entry dest (file st) d in
    if not e.rename then (err os_error, d) else elim (set_current e dest placed).0 [
      | err x ↦ (err x, (set_current e dest placed).1)
      | ok _ ↦ (ok dest, (set_current e dest placed).1)
    ]

-- `install_image` of a file; `none` when the names run out.
unfoldable pub install_image : Calls → Stat → Dir → Option (Result String × Dir)
install_image e st d = elim (free_name e.names d) [
  | none ↦ none
  | some dest ↦ some (place_image e st dest d)
]

entry-put_entry :
    (f n : String) (x : Entry) (d : Dir)
    → entry n (put_entry f x d) ≡ (if f == n then some x else entry n d)
entry-put_entry f n x d = ground (arith, entry-unlink f n d)

-- A pointer that is set, or not, leaves everything but itself and its temporary name.
set_current-entry :
    (e : Calls) (name n : String) (d : Dir)
    → entry e.tmp d ≡ none
    → (((set_current e name d).0 ≡ ok tt)
        × (e.tmp ≢ current_name
            → entry n (set_current e name d).1
              ≡ (if current_name == n then some (link name) else entry n d)))
      ⊎ (((set_current e name d).0 ≡ err os_error) × (entry n (set_current e name d).1 ≡ entry n d))
unfolding set_current
set_current-entry e name n d absent =
    let one = put_entry e.tmp (link name) d in
    let back = entry-unlink e.tmp n one in
    let put = entry-put_entry e.tmp n (link name) d in
    elim (Bool-cases e.symlink) [
      | inr s ↦ inr (ground arith, ground arith)
      | inl s ↦ elim (Bool-cases e.replace) [
        | inr r ↦ inr (ground arith, ground (arith, back, put))
        | inl r ↦
            let last = entry-put_entry current_name n (link name) (unlink e.tmp one) in
            inl (ground arith, λ d. ground (arith, back, put, last))
      ]
    ]

free_name-entry :
    (ns : List String) (d : Dir) (n : String) → free_name ns d ≡ some n → entry n d ≡ none
unfolding free_name
free_name-entry [] d n h = absurd (ground arith)
free_name-entry (m ∷ ns) d n h = elim (Option-cases (entry m d)) [
  | inl z ↦ ground arith
  | inr (x, z) ↦ free_name-entry ns d n (ground arith)
]

free_name-contains :
    (ns : List String) (d : Dir) (n : String) → free_name ns d ≡ some n → contains ns n ≡ true
unfolding free_name
free_name-contains [] d n h = absurd (ground arith)
free_name-contains (m ∷ ns) d n h = elim (Option-cases (entry m d)) [
  | inl z ↦ ground arith
  | inr (x, z) ↦ ground (arith, free_name-contains ns d n (ground arith))
]

place_image-entry :
    (h : Host) (e : Calls) (st : Stat) (dest : String) (d : Dir)
    → entry e.tmp d ≡ none
    → entry dest d ≡ none
    → e.tmp ≢ current_name
    → dest ≢ e.tmp
    → dest ≢ current_name
    → is_absolute dest ≡ false
    → ((n : String) (x : Entry)
        → n ≢ current_name
        → entry n d ≡ some x
        → entry n (place_image e st dest d).1 ≡ some x)
      × ((((place_image e st dest d).0 ≡ ok dest)
            × (current_image h (place_image e st dest d).1 ≡ some (inside dest)))
          ⊎ (((place_image e st dest d).0 ≡ err os_error)
              × (entry current_name (place_image e st dest d).1 ≡ entry current_name d)))
unfolding place_image current_image
place_image-entry h e st dest d no_tmp new tmp_name tmp_dest dest_name relative =
    let placed = put_entry dest (file st) d in
    let absent : entry e.tmp placed ≡ none =
      ground (arith, entry-put_entry dest e.tmp (file st) d) in
    elim (Bool-cases e.rename) [
      | inr r ↦ (λ n. (λ x. (λ c. (λ s. ground arith))), inr (ground arith, ground arith))
      | inl r ↦ (
        λ n. (λ x. (λ c. (λ s.
            let here = entry-put_entry dest n (file st) d in
            elim (set_current-entry e dest n placed absent) [
              | inl (o, set) ↦ ground (arith, o, set tmp_name, here, c, s, new)
              | inr (o, same) ↦ ground (arith, o, same, here, c, s, new)
            ]))),
        elim (set_current-entry e dest current_name placed absent) [
          | inr (o, same) ↦
              inr (
                ground arith,
                ground (arith, o, same, entry-put_entry dest current_name (file st) d),
              )
          | inl (o, set) ↦ elim (set_current-entry e dest dest placed absent) [
            | inr (p, same) ↦ absurd (ground arith)
            | inl (p, kept) ↦
                let pointer = set tmp_name in
                let image : entry dest (place_image e st dest d).1 ≡ some (file st) =
                  ground (arith, p, kept tmp_name, entry-put_entry dest dest (file st) d) in
                inl (ground arith, ground (arith, pointer, image, relative, o))
          ]
        ],
      )
    ]

-- An install for which a free name is found returns. It keeps every entry but the pointer; and either it
-- returns the name, which is current then for new VMs, or it raises, and the pointer is as it was. The names
-- that are tried are relative and neither the pointer's nor its temporary one, which is free.
pub install_image_lem :
    (h : Host) (e : Calls) (st : Stat) (d : Dir) (dest : String)
    → free_name e.names d ≡ some dest
    → entry e.tmp d ≡ none
    → e.tmp ≢ current_name
    → contains e.names e.tmp ≡ false
    → contains e.names current_name ≡ false
    → ((n : String) → contains e.names n ≡ true → is_absolute n ≡ false)
    → (r : Result String) × (after : Dir) × (install_image e st d ≡ some (r, after))
      × ((n : String) (x : Entry) → n ≢ current_name → entry n d ≡ some x → entry n after ≡ some x)
      × (((r ≡ ok dest) × (current_image h after ≡ some (inside dest)))
          ⊎ ((r ≡ err os_error) × (entry current_name after ≡ entry current_name d)))
unfolding install_image
install_image_lem h e st d dest found no_tmp tmp_name tmp_apart pointer_apart relative =
    let listed = free_name-contains e.names d dest found in
    let all =
      place_image-entry h e st dest d no_tmp (free_name-entry e.names d dest found) tmp_name
        (λ p. false≢true (sym (subst (λ n. contains e.names n ≡ false) (sym p) tmp_apart) ∙ listed))
        (λ p.
          false≢true (sym (subst (λ n. contains e.names n ≡ false) (sym p) pointer_apart) ∙ listed))
        (relative dest listed) in
    ((place_image e st dest d).0, (place_image e st dest d).1, ground arith, all.0, all.1)
