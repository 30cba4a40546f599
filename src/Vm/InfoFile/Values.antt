-- ===== src/Vm/InfoFile/Values.antt =====
-- That each value is read from the text that is written of it.
use lustre_test_vms.Base.{
  ℕ, zero, suc, ◌+◌, ◌*◌, ◌-◌, ◌/◌, ◌%◌, ◌<◌, ◌≡◌, refl, sym, ap, subst, ◌∙◌, inl, inr, Bool, true,
  false, not, ◌||◌, List, [], ◌∷◌, ◌++◌, any, keep, arith, nat_eq, ltb, Bool-cases,
}
use mathlib.Core.List.{append_assoc, append-nil}
use lustre_test_vms.Result.{ok}
use lustre_test_vms.Qemu.{same_codes}
use lustre_test_vms.Qemu.Identity.{same_codes_sound}
use lustre_test_vms.Vm.Files.{digits, digits_on}
use lustre_test_vms.Vm.Files.Created.{are_digits, digits_on-digits, digits_nonempty}
use lustre_test_vms.Vm.Files.Laws.{same_codes_refl}
use lustre_test_vms.Vm.Options.{is_empty}
use lustre_test_vms.Vm.InfoFile.{
  Text, split_once, split_all, join, equals, bar, Value, text, number, texts, pairs, flag, Kind,
  as_text, as_number, as_number_or_zero, as_texts, as_nics, as_pairs, as_flag, Readers, show,
  show_pairs, value_of, to_int, parts, load_nics, put, load_pairs, read_value,
}
use lustre_test_vms.Vm.InfoFile.Lines.{has_sign, split_once-append, split_all-join}

value_of-snoc :
    (n : ℕ) (t : Text) (c : ℕ) → value_of n (t ++ (c ∷ [])) ≡ value_of n t * 10 + (c - 48)
unfolding value_of
value_of-snoc n [] c = refl
value_of-snoc n (d ∷ t) c = value_of-snoc (n * 10 + (d - 48)) t c

value_of-digits_on : (fuel n : ℕ) → n < fuel → value_of 0 (digits_on fuel n) ≡ n
unfolding value_of digits_on
value_of-digits_on zero n h = absurd (omega (arith, h))
value_of-digits_on (suc fuel) n h = elim (Bool-cases (ltb n 10)) [
  | inl e ↦ ground arith
  | inr e ↦
      let front = value_of-digits_on fuel (n / 10) (ground arith) in
      let last = value_of-snoc 0 (digits_on fuel (n / 10)) (48 + n % 10) in
      ground (arith, front, last)
]

nonempty : (t : Text) → not (same_codes t []) ≡ true → is_empty t ≡ false
nonempty [] h = absurd (ground arith)
nonempty (_ ∷ _) h = refl

digits_lem : (r : Readers) (n : ℕ) → (is_empty (digits n) ≡ false) × (to_int r (digits n) ≡ ok n)
unfolding digits to_int are_digits
digits_lem r n =
    let some_digit = nonempty (digits n) (digits_nonempty n) in
    (
      some_digit,
      ground (
        arith,
        some_digit,
        digits_on-digits (suc n) n,
        value_of-digits_on (suc n) n (ground arith),
      ),
    )

-- A list of texts can be joined with bars: none is empty or has one.
abbrev pub joinable : List Text → Bool
joinable ts = not (any (λ t. is_empty t || has_sign bar t) ts)

joinable-has_sign : (ts : List Text) → joinable ts ≡ true → any (has_sign bar) ts ≡ false
joinable-has_sign [] j = refl
joinable-has_sign (t ∷ ts) j = ground (arith, joinable-has_sign ts (ground arith))

joinable-keep : (ts : List Text) → joinable ts ≡ true → keep (λ t. not (is_empty t)) ts ≡ ts
joinable-keep [] j = refl
joinable-keep (t ∷ ts) j = ground (arith, joinable-keep ts (ground arith))

parts-join : (ts : List Text) → joinable ts ≡ true → parts (join bar ts) ≡ ts
unfolding join split_all
parts-join [] j = refl
parts-join (t ∷ ts) j =
    ap (keep (λ x. not (is_empty x))) (split_all-join bar t ts (joinable-has_sign (t ∷ ts) j))
    ∙ joinable-keep (t ∷ ts) j

-- Every text is a spec that `load_stored` gives back.
unfoldable pub Specs : Readers → List Text → Type 0
Specs r [] = Unit
Specs r (t ∷ ts) = (r.load_stored t ≡ ok t) × Specs r ts

load_nics-Specs : (r : Readers) (ts : List Text) → Specs r ts → load_nics r ts ≡ ok ts
unfolding Specs load_nics
load_nics-Specs r [] s = refl
load_nics-Specs r (t ∷ ts) (here, more) = ground (arith, here, load_nics-Specs r ts more)

abbrev pub has_pair : Text → List (Text × Text) → Bool
has_pair k ps = any (λ (p : Text × Text). same_codes p.0 k) ps

-- Pairs that can be written: no key has a bar or an equals sign or stands twice, and no driver has a bar.
unfoldable pub Drivers : List (Text × Text) → Type 0
Drivers [] = Unit
Drivers ((k, v) ∷ ps) =
    (has_sign bar k || (has_sign equals k || has_sign bar v) ≡ false)
    × (has_pair k ps ≡ false)
    × Drivers ps

has_sign-append :
    (sign : ℕ) (xs ys : Text) → has_sign sign (xs ++ ys) ≡ has_sign sign xs || has_sign sign ys
has_sign-append sign [] ys = refl
has_sign-append sign (x ∷ xs) ys = ground (arith, has_sign-append sign xs ys)

show_pairs-bar : (ps : List (Text × Text)) → Drivers ps → any (has_sign bar) (show_pairs ps) ≡ false
unfolding Drivers show_pairs nat_eq
show_pairs-bar [] d = refl
show_pairs-bar ((k, v) ∷ ps) (here, _, more) =
    ground (arith, here, has_sign-append bar k (equals ∷ v), show_pairs-bar ps more)

put-new :
    (k v : Text) (ps : List (Text × Text))
    → has_pair k ps ≡ false
    → put k v ps ≡ ps ++ ((k, v) ∷ [])
put-new k v [] n = refl
put-new k v (p ∷ ps) n = ground (arith, put-new k v ps (ground arith))

has_pair-append :
    (k : Text) (ps qs : List (Text × Text)) → has_pair k (ps ++ qs) ≡ has_pair k ps || has_pair k qs
has_pair-append k [] qs = refl
has_pair-append k (p ∷ ps) qs = ground (arith, has_pair-append k ps qs)

apart-snoc :
    (k v : Text) (acc ps : List (Text × Text))
    → any (λ (p : Text × Text). has_pair p.0 acc) ps ≡ false
    → has_pair k ps ≡ false
    → any (λ (p : Text × Text). has_pair p.0 (acc ++ ((k, v) ∷ []))) ps ≡ false
apart-snoc k v acc [] a n = refl
apart-snoc k v acc (p ∷ ps) a n = elim (Bool-cases (same_codes k p.0)) [
  | inl s ↦ absurd (ground (arith, n, same_codes_sound k p.0 s, same_codes_refl p.0))
  | inr d ↦ ground (
    arith,
    has_pair-append p.0 acc ((k, v) ∷ []),
    apart-snoc k v acc ps (ground arith) (ground arith),
  )
]

load_pairs-show_pairs :
    (acc ps : List (Text × Text))
    → Drivers ps
    → any (λ (p : Text × Text). has_pair p.0 acc) ps ≡ false
    → load_pairs acc (show_pairs ps) ≡ acc ++ ps
unfolding Drivers load_pairs show_pairs
load_pairs-show_pairs acc [] d a = sym (append-nil acc)
load_pairs-show_pairs acc ((k, v) ∷ ps) (here, new, more) a =
    let split = split_once-append equals k v (ground arith) in
    let added = put-new k v acc (ground arith) in
    let rest =
      load_pairs-show_pairs (acc ++ ((k, v) ∷ [])) ps more
        (apart-snoc k v acc ps (ground arith) new) in
    let turn : load_pairs acc (show_pairs ((k, v) ∷ ps))
        ≡ load_pairs (put k v acc) (show_pairs ps) =
      ground (arith, split) in
    turn ∙ ap (λ x. load_pairs x (show_pairs ps)) added ∙ rest ∙ append_assoc acc ((k, v) ∷ []) ps

-- What a field of a kind can hold.
unfoldable pub Fits : Readers → Kind → Value → Type 0
Fits r as_text v = (t : Text) × (v ≡ text t)
Fits r as_number v = (n : ℕ) × (v ≡ number n)
Fits r as_number_or_zero v = (n : ℕ) × (v ≡ number n)
Fits r as_texts v = (ts : List Text) × (v ≡ texts ts) × (joinable ts ≡ true)
Fits r as_nics v = (ts : List Text) × (v ≡ texts ts) × (joinable ts ≡ true) × Specs r ts
Fits r as_pairs v = (ps : List (Text × Text)) × (v ≡ pairs ps) × Drivers ps
Fits r as_flag v = (b : Bool) × (v ≡ flag b)

apart_empty : (ps : List (Text × Text)) → any (λ (p : Text × Text). has_pair p.0 []) ps ≡ false
apart_empty [] = refl
apart_empty (p ∷ ps) = apart_empty ps

read_pairs :
    (r : Readers) (ps : List (Text × Text))
    → Drivers ps
    → read_value r as_pairs (show (pairs ps)) ≡ ok (pairs ps)
unfolding read_value show show_pairs load_pairs split_all split_once join
read_pairs r [] d = refl
read_pairs r ((k, v) ∷ ps) d =
    let split =
      split_all-join bar (k ++ (equals ∷ v)) (show_pairs ps) (show_pairs-bar ((k, v) ∷ ps) d) in
    ap (λ x. ok (pairs x))
      (ap (load_pairs []) split
        ∙ load_pairs-show_pairs [] ((k, v) ∷ ps) d (apart_empty ((k, v) ∷ ps)))

-- A field of a kind reads back a value.
Reads : Readers → Kind → Value → Type 0
Reads r kind v = read_value r kind (show v) ≡ ok v

read_flag : (r : Readers) (b : Bool) → Reads r as_flag (flag b)
unfolding Reads read_value show digits digits_on nat_eq
read_flag r true = refl
read_flag r false = refl

read_nics :
    (r : Readers) (ts : List Text) → joinable ts ≡ true → Specs r ts → Reads r as_nics (texts ts)
unfolding Reads read_value show
read_nics r ts j s = ground (arith, parts-join ts j, load_nics-Specs r ts s)

read_number :
    (r : Readers) (n : ℕ) → Reads r as_number (number n) × Reads r as_number_or_zero (number n)
unfolding Reads read_value show
read_number r n = (ground (arith, (digits_lem r n).1), ground (arith, digits_lem r n))

-- What fits a field is read back from what is written of it.
pub read_value-show :
    (r : Readers) (kind : Kind) (v : Value) → Fits r kind v → read_value r kind (show v) ≡ ok v
unfolding Fits Reads read_value show
read_value-show r as_text v (t, e) = subst (Reads r as_text) (sym e) refl
read_value-show r as_number v (n, e) = subst (Reads r as_number) (sym e) (read_number r n).0
read_value-show r as_number_or_zero v (n, e) =
    subst (Reads r as_number_or_zero) (sym e) (read_number r n).1
read_value-show r as_texts v (ts, e, j) =
    subst (Reads r as_texts) (sym e) (ap (λ x. ok (texts x)) (parts-join ts j))
read_value-show r as_nics v (ts, e, j, s) = subst (Reads r as_nics) (sym e) (read_nics r ts j s)
read_value-show r as_pairs v (ps, e, d) = subst (Reads r as_pairs) (sym e) (read_pairs r ps d)
read_value-show r as_flag v (b, e) = subst (Reads r as_flag) (sym e) (read_flag r b)
