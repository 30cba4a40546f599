-- ===== src/Tests/Images.antt =====
-- A directory of images with an old one that an overlay uses, and an old one that nothing uses.
use mathlib.Core.Bool.{false≢true}
use text.Mathlib.TextEquality.{eq_iff}
use lustre_test_vms.Base.{
  ℕ, String, ◌≡◌, ◌≢◌, refl, ap, ◌∙◌, ◌⊎◌, inl, inr, true, false, none, some, List, [], ◌∷◌, any,
  arith, ◌==◌, nat_eq, string_eq, contains, Bool-cases,
}
use lustre_test_vms.Result.{Result, ok, err, os_error}
use lustre_test_vms.Images.{
  Stat, Entry, file, link, Dir, Place, inside, outside, Host, entry, current_image, current_name,
  is_image_name, is_absolute, is_unknown, overlay_backing_file, recorded, prune_superseded,
  is_qcow2, backing_offset, backing_size, big_endian, take, drop, same_path,
}
use lustre_test_vms.Images.Prune.{backs, is_needed, prune_superseded-entry}
use lustre_test_vms.Images.Gone.{prune_superseded-Gone}
use lustre_test_vms.Images.Install.{Calls, free_name, install_image, install_image_lem}
use lustre_test_vms.Images.Backing.{Vm, Seen, missing, check_backing, check_backing-Stable}

abbrev newest : String
newest = "base-20260102T000000-aaaaaa.ext4"

abbrev used : String
used = "base-20260101T000000-bbbbbb.ext4"

abbrev superseded : String
superseded = "base-20251231T000000-cccccc.ext4"

abbrev stat_of : ℕ → Stat
stat_of n = record { size = 4096; mtime = n; ctime = n }

abbrev dir : Dir
dir =
    ("current.ext4", link newest)
    ∷ (newest, file (stat_of 3))
    ∷ (used, file (stat_of 2))
    ∷ (superseded, file (stat_of 1))
    ∷ []

-- A qcow2 header that says that the name of the backing file has one byte, at offset 20.
abbrev header : List ℕ
header =
    81 ∷ 70 ∷ 73 ∷ 251 ∷ 0 ∷ 0 ∷ 0 ∷ 3 ∷ 0 ∷ 0 ∷ 0 ∷ 0 ∷ 0 ∷ 0 ∷ 0 ∷ 20 ∷ 0 ∷ 0 ∷ 0 ∷ 1 ∷ 117 ∷ []

abbrev host : Host
host = record {
  real = λ p. p;
  resolve = λ n bytes. inside used;
  place = λ t. outside t;
  image_path = λ t. inside t;
  vms = ("co1", some used) ∷ [];
  overlays = ("co1", some header) ∷ [];
  is_file = λ p. false;
  stat = λ p. err os_error;
  can_unlink = λ n. true;
}

backed : overlay_backing_file host ("co1", some header) ≡ some (inside used)
unfolding overlay_backing_file is_qcow2 backing_offset backing_size big_endian take drop nat_eq
backed = refl

pointed : current_image host dir ≡ some (inside newest)
unfolding current_image string_eq nat_eq
pointed = refl

known : any (is_unknown host) host.overlays ≡ false
unfolding overlay_backing_file is_qcow2 backing_offset backing_size big_endian take drop nat_eq
known = refl

named : is_image_name superseded ≡ true
unfolding is_image_name string_eq nat_eq
named = refl

unneeded : is_needed host superseded ≡ false
unfolding is_needed backs recorded same_path overlay_backing_file is_qcow2 backing_offset
    backing_size big_endian take drop nat_eq string_eq
unneeded = refl

there : entry superseded dir ≡ some (file (stat_of 1))
unfolding string_eq
there = refl

apart : inside newest ≢ inside superseded
apart p = false≢true ((eq_iff newest superseded).1 (ap name_of p))
  where
    name_of : Place → String
    name_of (inside n) = n
    name_of (outside n) = n

prune_superseded-entry_example :
    (entry superseded (prune_superseded host dir).1 ≡ entry superseded dir)
    ⊎ ((entry superseded (prune_superseded host dir).1 ≡ none)
        × (is_image_name superseded ≡ true)
        × (current_image host dir ≢ some (inside superseded))
        × (is_needed host superseded ≡ false)
        × (any (is_unknown host) host.overlays ≡ false))
prune_superseded-entry_example = prune_superseded-entry host dir superseded

prune_superseded-Gone_example : entry superseded (prune_superseded host dir).1 ≡ none
prune_superseded-Gone_example =
    prune_superseded-Gone host dir superseded (stat_of 1) (inside newest) pointed known there named
      refl apart unneeded

abbrev next : String
next = "base-20260103T000000-dddddd.ext4"

abbrev calls : Calls
calls = record {
  symlink = true;
  replace = true;
  rename = true;
  tmp = ".current.ext4.01234567";
  names = next ∷ [];
}

free : free_name calls.names dir ≡ some next
unfolding free_name string_eq
free = refl

no_tmp : entry calls.tmp dir ≡ none
unfolding string_eq
no_tmp = refl

tmp_name : calls.tmp ≢ current_name
tmp_name p = false≢true ((eq_iff ".current.ext4.01234567" "current.ext4").1 p)

names_apart : (contains calls.names calls.tmp ≡ false) × (contains calls.names current_name ≡ false)
unfolding string_eq
names_apart = (refl, refl)

relative : (n : String) → contains calls.names n ≡ true → is_absolute n ≡ false
unfolding nat_eq
relative n h = elim (Bool-cases (n == next)) [
  | inl e ↦ let same : n ≡ next = ground arith in ap is_absolute same ∙ next_relative
  | inr e ↦ absurd (ground arith)
]
  where
    next_relative : is_absolute next ≡ false
    next_relative = refl

install_image_lem_example :
    (r : Result String) × (after : Dir) × (install_image calls (stat_of 4) dir ≡ some (r, after))
    × ((n : String) (x : Entry) → n ≢ current_name → entry n dir ≡ some x → entry n after ≡ some x)
    × (((r ≡ ok next) × (current_image host after ≡ some (inside next)))
        ⊎ ((r ≡ err os_error) × (entry current_name after ≡ entry current_name dir)))
install_image_lem_example =
    install_image_lem host calls (stat_of 4) dir next free no_tmp tmp_name names_apart.0
      names_apart.1 relative

abbrev vm : Vm
vm = record {
  overlay = ("co1", some header);
  image = used;
  image_id = some (4096, 2);
  created = 1;
  updates = true;
}

abbrev nowhere : Place → Seen
nowhere p = missing

new_absent : entry next dir ≡ none
unfolding string_eq
new_absent = refl

still_free : free_name calls.names (prune_superseded host dir).1 ≡ some next
unfolding free_name string_eq
still_free = ground (arith, prune_superseded-entry host dir next, new_absent)

still_no_tmp : entry calls.tmp (prune_superseded host dir).1 ≡ none
still_no_tmp = absent_after (prune_superseded-entry host dir calls.tmp)
  where
    absent_after :
        (entry calls.tmp (prune_superseded host dir).1 ≡ entry calls.tmp dir)
          ⊎ ((entry calls.tmp (prune_superseded host dir).1 ≡ none)
              × (is_image_name calls.tmp ≡ true)
              × (current_image host dir ≢ some (inside calls.tmp))
              × (is_needed host calls.tmp ≡ false)
              × (any (is_unknown host) host.overlays ≡ false))
        → entry calls.tmp (prune_superseded host dir).1 ≡ none
    absent_after (inl same) = same ∙ no_tmp
    absent_after (inr (gone, _, _, _, _)) = gone

used_there : entry used dir ≡ some (file (stat_of 2))
unfolding string_eq
used_there = refl

used_name : used ≢ current_name
used_name p = false≢true ((eq_iff used "current.ext4").1 p)

check_backing-Stable_example :
    (check_backing host nowhere (prune_superseded host dir).1 vm
      ≡ check_backing host nowhere dir vm)
    × ((r : Result String) × (last : Dir) × (install_image calls
            (stat_of 4)
            (prune_superseded host dir).1
          ≡ some (r, last))
        × (check_backing host nowhere last vm ≡ check_backing host nowhere dir vm))
check_backing-Stable_example =
    check_backing-Stable host nowhere dir vm used (file (stat_of 2)) [] [] calls (stat_of 4) next
      refl backed used_name used_there still_free still_no_tmp tmp_name names_apart.0 names_apart.1
      relative
