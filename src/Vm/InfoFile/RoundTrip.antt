-- ===== src/Vm/InfoFile/RoundTrip.antt =====
-- That a VM is read back from the file that is written of it.
use lustre_test_vms.Base.{
  ℕ, ◌≡◌, refl, ap, subst, ◌∙◌, Bool, true, false, not, ◌&&◌, none, some, List, [], ◌∷◌, ◌++◌, any,
  arith, nat_eq,
}
use mathlib.Core.List.{append_assoc}
use lustre_test_vms.Result.{ok}
use lustre_test_vms.Qemu.{same_codes}
use lustre_test_vms.Vm.Files.Laws.{same_codes_refl}
use lustre_test_vms.Vm.InfoFile.{
  Text, equals, Value, Field, Vm, Readers, show, write_lines, save_text, lookup, read_field,
  read_fields, load_text, info_fields,
}
use lustre_test_vms.Vm.InfoFile.Lines.{
  has_sign, has_break, split_once-append, split_lines-end_lines,
}
use lustre_test_vms.Vm.InfoFile.Values.{Fits, read_value-show}

abbrev pub has_field : Text → List Field → Bool
has_field key fs = any (λ (f : Field). same_codes f.key key) fs

-- Keys without equals signs, none of which stands twice.
unfoldable pub Keys : List Field → Type 0
Keys [] = Unit
Keys (f ∷ fs) = (has_sign equals f.key ≡ false) × (has_field f.key fs ≡ false) × Keys fs

-- A value for each field that fits it, and whose text is one line.
unfoldable pub Storable : Readers → List Field → Vm → Type 0
Storable r [] [] = Unit
Storable r [] (_ ∷ _) = true ≡ false
Storable r (_ ∷ _) [] = true ≡ false
Storable r (f ∷ fs) (v ∷ vm) =
    Fits r f.kind v × (has_break (f.key ++ (equals ∷ show v)) ≡ false) × Storable r fs vm

lookup-append :
    (key v : Text) (before ls : List Text)
    → lookup key ls ≡ some v
    → lookup key (before ++ ls) ≡ some v
unfolding lookup
lookup-append key v [] ls h = h
lookup-append key v (b ∷ before) ls h = ground (arith, lookup-append key v before ls h)

lookup-Keys :
    (key : Text) (fs : List Field) (vm : Vm)
    → Keys fs
    → has_field key fs ≡ false
    → lookup key (write_lines fs vm) ≡ none
unfolding lookup write_lines Keys
lookup-Keys key [] vm k n = refl
lookup-Keys key (f ∷ fs) [] k n = refl
lookup-Keys key (f ∷ fs) (v ∷ vm) (sign, _, more) n =
    ground (
      arith,
      lookup-Keys key fs vm more (ground arith),
      split_once-append equals f.key (show v) sign,
    )

lookup-first :
    (f : Field) (fs : List Field) (v : Value) (vm : Vm)
    → Keys (f ∷ fs)
    → lookup f.key (write_lines (f ∷ fs) (v ∷ vm)) ≡ some (show v)
unfolding lookup write_lines Keys
lookup-first f fs v vm (sign, once, more) = ground (
  arith,
  lookup-Keys f.key fs vm more once,
  split_once-append equals f.key (show v) sign,
  same_codes_refl f.key,
)

read_fields-write_lines :
    (r : Readers) (fs : List Field) (vm : Vm) (before : List Text)
    → Keys fs
    → Storable r fs vm
    → read_fields r fs (before ++ write_lines fs vm) ≡ ok vm
unfolding read_fields read_field Keys Storable write_lines
read_fields-write_lines r [] [] before k s = refl
read_fields-write_lines r [] (_ ∷ _) before k s = absurd (ground arith)
read_fields-write_lines r (_ ∷ _) [] before k s = absurd (ground arith)
read_fields-write_lines r (f ∷ fs) (v ∷ vm) before (sign, once, more) (fits, line, rest) =
    let found =
      lookup-append f.key (show v) before (write_lines (f ∷ fs) (v ∷ vm))
        (lookup-first f fs v vm (sign, once, more)) in
    let value = read_value-show r f.kind v fits in
    let here = (f.key ++ (equals ∷ show v)) ∷ [] in
    let later = read_fields-write_lines r fs vm (before ++ here) more rest in
    let regroup = append_assoc before here (write_lines fs vm) in
    let last : read_fields r fs (before ++ (here ++ write_lines fs vm)) ≡ ok vm =
      subst (λ ls. read_fields r fs ls ≡ ok vm) regroup later in
    ground (arith, found, value, last)

one_line :
    (r : Readers) (fs : List Field) (vm : Vm)
    → Storable r fs vm
    → any has_break (write_lines fs vm) ≡ false
unfolding Storable write_lines
one_line r [] vm s = refl
one_line r (f ∷ fs) [] s = refl
one_line r (f ∷ fs) (v ∷ vm) (_, line, rest) = ground (arith, line, one_line r fs vm rest)

load_text-save_text :
    (r : Readers) (fs : List Field) (vm : Vm)
    → Keys fs
    → Storable r fs vm
    → load_text r fs (save_text fs vm) ≡ ok vm
unfolding load_text save_text
load_text-save_text r fs vm k s =
    ap (read_fields r fs) (split_lines-end_lines (write_lines fs vm) (one_line r fs vm s))
    ∙ read_fields-write_lines r fs vm [] k s

-- Whether the keys are such.
are_keys : List Field → Bool
are_keys [] = true
are_keys (f ∷ fs) = not (has_sign equals f.key) && (not (has_field f.key fs) && are_keys fs)

are_keys-Keys : (fs : List Field) → are_keys fs ≡ true → Keys fs
unfolding are_keys Keys
are_keys-Keys [] h = tt
are_keys-Keys (f ∷ fs) h =
    (ground (arith, h), ground (arith, h), are_keys-Keys fs (ground (arith, h)))

info_fields-keys : (name : Text) (disk root : ℕ) → are_keys (info_fields name disk root) ≡ true
unfolding are_keys nat_eq
info_fields-keys name disk root = refl

-- The VM that is written to a `.info` file is the one that is read from it, if each value fits its field and
-- is written in one line: lists have no empty texts and no bars in them, NIC specs are read as they are
-- written, and no device stands twice or has a bar or an equals sign.
pub load_info-save_info :
    (r : Readers) (name : Text) (disk_size root_size : ℕ) (vm : Vm)
    → Storable r (info_fields name disk_size root_size) vm
    → load_text r
        (info_fields name disk_size root_size)
        (save_text (info_fields name disk_size root_size) vm)
      ≡ ok vm
load_info-save_info r name disk_size root_size vm s =
    let fs = info_fields name disk_size root_size in
    load_text-save_text r fs vm (are_keys-Keys fs (info_fields-keys name disk_size root_size)) s
