-- ===== src/Images/Gone.antt =====
-- That what is superseded is pruned, and what backs an overlay is not.
use lustre_test_vms.Base.{
  String, ◌≡◌, ◌≢◌, refl, sym, subst, inl, inr, Bool, true, false, none, some, List, [], ◌∷◌, ◌++◌,
  any, arith, ◌==◌, string_eq, nat_eq, contains, Bool-cases, Option-cases,
}
use lustre_test_vms.Images.{
  Stat, file, link, other, Dir, Place, inside, outside, same_path, entry, unlink, Overlay, Host,
  is_image_name, current_image, is_image_file, image_files, overlay_backing_file, is_unknown,
  referenced_images, prune_each, prune_superseded,
}
use lustre_test_vms.Images.Prune.{
  entry-unlink, loose, prune_each-entry, backs, is_needed, referenced_images-is_needed,
  prune_superseded-entry,
}

prune_each-Gone :
    (e : Host) (current : Place) (refs : List Place) (fs : List String) (d : Dir) (n : String)
    (st : Stat)
    → contains fs n ≡ true
    → loose e current refs n ≡ true
    → e.can_unlink n ≡ true
    → entry n d ≡ some (file st)
    → entry n (prune_each e current refs fs d).1 ≡ none
unfolding prune_each
prune_each-Gone e current refs [] d n st c l u h = absurd (ground arith)
prune_each-Gone e current refs (f ∷ fs) d n st c l u h = elim (Bool-cases (f == n)) [
  | inl s ↦
      let rest = prune_each-entry e current refs fs (unlink f d) n in
      ground (arith, rest, entry-unlink f n d)
  | inr s ↦
      let kept = prune_each-Gone e current refs fs d n st (ground arith) l u h in
      let other_name = entry-unlink f n d in
      let rest =
        prune_each-Gone e current refs fs (unlink f d) n st (ground arith) l u (ground arith) in
      elim (Bool-cases (loose e current refs f)) [
        | inr k ↦ ground (arith, kept)
        | inl k ↦ elim (Option-cases (entry f d)) [
          | inl z ↦ ground (arith, kept)
          | inr (file t, z) ↦ elim (Bool-cases (e.can_unlink f)) [
            | inr m ↦ ground (arith, kept)
            | inl m ↦ ground (arith, rest)
          ]
          | inr (link t, z) ↦ ground (arith, kept)
          | inr (other, z) ↦ ground (arith, kept)
        ]
      ]
]

entry-image_files :
    (d : Dir) (n : String) (st : Stat)
    → entry n d ≡ some (file st)
    → is_image_name n ≡ true
    → contains (image_files d) n ≡ true
unfolding is_image_file
entry-image_files [] n st h i = absurd (ground arith)
entry-image_files ((m, file t) ∷ d) n st h i = elim (Bool-cases (m == n)) [
  | inl s ↦ ground arith
  | inr s ↦ ground (arith, entry-image_files d n st (ground arith) i)
]
entry-image_files ((m, link t) ∷ d) n st h i = entry-image_files d n st (ground arith) i
entry-image_files ((m, other) ∷ d) n st h i = entry-image_files d n st (ground arith) i

same_path-Other : (n : String) (p : Place) → p ≢ inside n → same_path (inside n) p ≡ false
unfolding same_path
same_path-Other n (inside m) d = elim (Bool-cases (n == m)) [
  | inl e ↦ absurd (d (ground arith))
  | inr e ↦ ground arith
]
same_path-Other n (outside m) d = refl

-- Where there is a current image and what backs each overlay is known, pruning removes every file with the
-- name of an image that can be unlinked, is not the current one and is not needed.
pub prune_superseded-Gone :
    (e : Host) (d : Dir) (n : String) (st : Stat) (current : Place)
    → current_image e d ≡ some current
    → any (is_unknown e) e.overlays ≡ false
    → entry n d ≡ some (file st)
    → is_image_name n ≡ true
    → e.can_unlink n ≡ true
    → current ≢ inside n
    → is_needed e n ≡ false
    → entry n (prune_superseded e d).1 ≡ none
unfolding prune_superseded referenced_images
prune_superseded-Gone e d n st current c u h i can differs unneeded =
    let refs = (referenced_images e).0 in
    let free = referenced_images-is_needed e n in
    let apart = same_path-Other n current differs in
    let gone =
      prune_each-Gone e current refs (image_files d) d n st (entry-image_files d n st h i)
        (ground arith) can h in
    ground (arith, gone)

overlay_in :
    (p : Overlay → Bool) (before after : List Overlay) (o : Overlay)
    → p o ≡ true
    → any p (before ++ (o ∷ after)) ≡ true
overlay_in p [] after o h = ground arith
overlay_in p (b ∷ before) after o h = ground (arith, overlay_in p before after o h)

same_path_refl : (p : Place) → same_path p p ≡ true
unfolding same_path
same_path_refl (inside a) = ground arith
same_path_refl (outside a) = ground arith

-- An image that backs an overlay of the host is left by pruning.
pub backing-Kept :
    (e : Host) (d : Dir) (n : String) (o : Overlay) (before after : List Overlay)
    → e.overlays ≡ before ++ (o ∷ after)
    → overlay_backing_file e o ≡ some (inside n)
    → entry n (prune_superseded e d).1 ≡ entry n d
unfolding is_needed backs
backing-Kept e d n o before after listed backed =
    let here : backs e (e.real (inside n)) o ≡ true =
      ground (arith, backed, same_path_refl (e.real (inside n))) in
    let needed : any (backs e (e.real (inside n))) e.overlays ≡ true =
      subst (λ os. any (backs e (e.real (inside n))) os ≡ true) (sym listed)
        (overlay_in (backs e (e.real (inside n))) before after o here) in
    elim (prune_superseded-entry e d n) [
      | inl same ↦ same
      | inr (_, _, _, free, _) ↦ absurd (ground (arith, needed, free))
    ]
