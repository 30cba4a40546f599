-- ===== src/Images/Prune.antt =====
-- Which images are pruned.
use lustre_test_vms.Base.{
  String, ◌≡◌, ◌≢◌, refl, ap, ◌∙◌, ◌⊎◌, inl, inr, Bool, true, false, not, ◌&&◌, ◌||◌, none, some,
  List, [], ◌∷◌, ◌++◌, map, any, arith, ◌==◌, string_eq, nat_eq, contains, Bool-cases, Option-cases,
  if◌then◌else◌,
}
use lustre_test_vms.Images.{
  file, link, other, Dir, Place, inside, same_path, among_paths, entry, unlink, Overlay, Host,
  is_image_name, current_image, is_image_file, image_files, overlay_backing_file, recorded,
  overlay_refs, is_unknown, referenced_images, prune_each, prune_superseded,
}

pub entry-unlink :
    (f n : String) (d : Dir) → entry n (unlink f d) ≡ (if f == n then none else entry n d)
entry-unlink f n [] = ground arith
entry-unlink f n (e ∷ es) = elim (Bool-cases (e.0 == f)) [
  | inl s ↦ ground (arith, entry-unlink f n es)
  | inr s ↦ ground (arith, entry-unlink f n es)
]

-- An image that is neither the current one nor referred to.
abbrev pub loose : Host → Place → List Place → String → Bool
loose e current refs n = not (same_path (inside n) current || among_paths (e.real (inside n)) refs)

pub prune_each-entry :
    (e : Host) (current : Place) (refs : List Place) (fs : List String) (d : Dir) (n : String)
    → (entry n (prune_each e current refs fs d).1 ≡ entry n d)
      ⊎ ((entry n (prune_each e current refs fs d).1 ≡ none)
          × (contains fs n && loose e current refs n ≡ true))
unfolding prune_each
prune_each-entry e current refs [] d n = inl refl
prune_each-entry e current refs (f ∷ fs) d n =
    let kept = prune_each-entry e current refs fs d n in
    let rest = prune_each-entry e current refs fs (unlink f d) n in
    elim (Bool-cases (loose e current refs f)) [
      | inr l ↦ ground (arith, kept)
      | inl l ↦ elim (Option-cases (entry f d)) [
        | inl z ↦ ground (arith, kept)
        | inr (file st, z) ↦ elim (Bool-cases (e.can_unlink f)) [
          | inr c ↦ ground (arith, kept)
          | inl c ↦ ground (arith, rest, entry-unlink f n d)
        ]
        | inr (link t, z) ↦ ground (arith, kept)
        | inr (other, z) ↦ ground (arith, kept)
      ]
    ]

-- Whether an overlay is backed by an image.
unfoldable pub backs : Host → Place → Overlay → Bool
backs e p o = elim (overlay_backing_file e o) [ none ↦ false | some q ↦ same_path p (e.real q) ]

-- Whether a VM or an overlay of the host needs an image: one records it, or is backed by it.
unfoldable pub is_needed : Host → String → Bool
unfolding backs
is_needed e n =
    any (λ (r : String × String). same_path (e.real (inside n)) (e.real (e.image_path r.1)))
      (recorded e.vms)
    || any (backs e (e.real (inside n))) e.overlays

among-map :
    (p : Place) (e : Host) (rs : List (String × String))
    → among_paths p (map (λ (r : String × String). e.real (e.image_path r.1)) rs)
      ≡ any (λ (r : String × String). same_path p (e.real (e.image_path r.1))) rs
among-map p e [] = refl
among-map p e (r ∷ rs) = ground (arith, among-map p e rs)

among-overlay_refs :
    (p : Place) (e : Host) (os : List Overlay)
    → among_paths p (overlay_refs e os) ≡ any (backs e p) os
unfolding overlay_refs backs
among-overlay_refs p e [] = refl
among-overlay_refs p e (o ∷ os) = elim (Option-cases (overlay_backing_file e o)) [
  | inl z ↦ ground (arith, among-overlay_refs p e os)
  | inr (q, z) ↦ ground (arith, among-overlay_refs p e os)
]

among-append :
    (p : Place) (xs ys : List Place)
    → among_paths p (xs ++ ys) ≡ among_paths p xs || among_paths p ys
among-append p [] ys = refl
among-append p (x ∷ xs) ys = ground (arith, among-append p xs ys)

pub referenced_images-is_needed :
    (e : Host) (n : String)
    → among_paths (e.real (inside n)) (referenced_images e).0 ≡ is_needed e n
unfolding referenced_images is_needed
referenced_images-is_needed e n =
    let p = e.real (inside n) in
    among-append p (map (λ (r : String × String). e.real (e.image_path r.1)) (recorded e.vms))
      (overlay_refs e e.overlays)
    ∙ ap (λ b. b || among_paths p (overlay_refs e e.overlays)) (among-map p e (recorded e.vms))
    ∙ ap
        (λ b.
          any (λ (r : String × String). same_path p (e.real (e.image_path r.1))) (recorded e.vms)
          || b)
        (among-overlay_refs p e e.overlays)

image_files-is_image_name :
    (d : Dir) (n : String) → contains (image_files d) n ≡ true → is_image_name n ≡ true
unfolding is_image_file
image_files-is_image_name [] n h = absurd (ground arith)
image_files-is_image_name ((m, file st) ∷ d) n h = ground (arith, image_files-is_image_name d n)
image_files-is_image_name ((m, link t) ∷ d) n h = image_files-is_image_name d n h
image_files-is_image_name ((m, other) ∷ d) n h = image_files-is_image_name d n h

-- Pruning leaves each entry of the directory as it is, or removes it; and it removes one only if it has the
-- name of an image and is not the current one, no VM records it, no overlay is backed by it, and what backs
-- each overlay is known.
pub prune_superseded-entry :
    (e : Host) (d : Dir) (n : String)
    → (entry n (prune_superseded e d).1 ≡ entry n d)
      ⊎ ((entry n (prune_superseded e d).1 ≡ none)
          × (is_image_name n ≡ true)
          × (current_image e d ≢ some (inside n))
          × (is_needed e n ≡ false)
          × (any (is_unknown e) e.overlays ≡ false))
unfolding prune_superseded referenced_images same_path
prune_superseded-entry e d n = elim (Option-cases (current_image e d)) [
  | inl z ↦ inl (ground arith)
  | inr (current, z) ↦ elim (Bool-cases (any (is_unknown e) e.overlays)) [
    | inl u ↦ inl (ground arith)
    | inr u ↦ elim (prune_each-entry e current (referenced_images e).0 (image_files d) d n) [
      | inl same ↦ inl (ground (arith, same))
      | inr (gone, why) ↦ inr (
        ground (arith, gone),
        image_files-is_image_name d n (ground arith),
        λ c. ground (arith, c, why),
        ground (arith, why, referenced_images-is_needed e n),
        u,
      )
    ]
  ]
]
