-- ===== src/Targets/Kernels.antt =====
-- Names of kernels, as they are declared and as they are built: `kernel_dir_version_key`,
-- `matching_kernel_dirs`, `resolve_kernel_dir`, and of TargetConfig `declared_kernel`,
-- `declared_kernels`, `_short_kernel_name` and `resolve_kernel`, of ltvm_pkg/target_config.py. A name is the
-- list of its code points; its digits are those of ASCII. The warnings are left out.
pub mod Order
pub mod Numbers
pub mod Resolve
pub mod Pinned
use lustre_test_vms.Base.{
  ℕ, zero, suc, ◌+◌, ◌*◌, ◌-◌, Bool, true, false, not, ◌&&◌, ◌||◌, Option, none, some, List, [],
  ◌∷◌, ◌++◌, any, keep, ◌==◌, nat_eq, ltb, leb, if◌then◌else◌,
}
use lustre_test_vms.Result.{Result, ok, err, value_error}
use lustre_test_vms.Qemu.{strip, same_codes}

abbrev pub Name : Type 0
Name = List ℕ

-- A run of digits, or of others.
pub data Chunk : Type 0 where
  number : ℕ → Chunk
  text : Name → Chunk

abbrev pub is_digit : ℕ → Bool
is_digit c = leb 48 c && leb c 57

-- `re.split(r"(\d+)", name)`, which gives a text, a number, and so on, and ends with a text. The number, if
-- one is read, and the text that is read are handed on.
unfoldable pub split_digits : Option ℕ → Name → Name → List Chunk
split_digits none t [] = text t ∷ []
split_digits (some n) t [] = number n ∷ text [] ∷ []
split_digits none t (c ∷ cs) =
    let digit = split_digits (some (c - 48)) [] cs in
    let longer = split_digits none (t ++ (c ∷ [])) cs in
    if is_digit c then text t ∷ digit else longer
split_digits (some n) t (c ∷ cs) =
    let digit = split_digits (some (n * 10 + (c - 48))) [] cs in
    let after = split_digits none (c ∷ []) cs in if is_digit c then digit else number n ∷ after

-- `kernel_dir_version_key`
unfoldable pub kernel_dir_version_key : Name → List Chunk
unfolding split_digits
kernel_dir_version_key name = split_digits none [] name

-- The order of texts by code points.
unfoldable pub text_ltb : Name → Name → Bool
text_ltb [] [] = false
text_ltb [] (_ ∷ _) = true
text_ltb (_ ∷ _) [] = false
text_ltb (a ∷ xs) (b ∷ ys) = let rest = text_ltb xs ys in if a == b then rest else ltb a b

unfoldable pub chunk_ltb : Chunk → Chunk → Bool
unfolding text_ltb
chunk_ltb (number a) (number b) = ltb a b
chunk_ltb (number a) (text b) = true
chunk_ltb (text a) (number b) = false
chunk_ltb (text a) (text b) = text_ltb a b

unfoldable pub same_chunk : Chunk → Chunk → Bool
same_chunk (number a) (number b) = a == b
same_chunk (text a) (text b) = same_codes a b
same_chunk _ _ = false

-- The order of keys, which are tuples.
unfoldable pub key_ltb : List Chunk → List Chunk → Bool
unfolding chunk_ltb same_chunk
key_ltb [] [] = false
key_ltb [] (_ ∷ _) = true
key_ltb (_ ∷ _) [] = false
key_ltb (a ∷ xs) (b ∷ ys) =
    let rest = key_ltb xs ys in if same_chunk a b then rest else chunk_ltb a b

-- Whether a kernel's version is below another's.
unfoldable pub is_older : Name → Name → Bool
is_older a b = key_ltb (kernel_dir_version_key a) (kernel_dir_version_key b)

-- `sorted(…, reverse=True)`, which keeps the order of equal keys.
unfoldable pub insert : Name → List Name → List Name
insert x [] = x ∷ []
insert x (y ∷ ys) = let rest = insert x ys in if is_older x y then y ∷ rest else x ∷ y ∷ ys

unfoldable pub newest_first : List Name → List Name
newest_first [] = []
newest_first (x ∷ xs) = insert x (newest_first xs)

-- `name.startswith(prefix + "-")`
unfoldable pub extends : Name → Name → Bool
extends prefix name = elim (strip (prefix ++ (45 ∷ [])) name) [ none ↦ false | some _ ↦ true ]

-- The directories of built kernels; `none` is no directory for them.
abbrev pub Built : Type 0
Built = Option (List Name)

abbrev pub is_among : Name → List Name → Bool
is_among n ns = any (same_codes n) ns

-- `matching_kernel_dirs`
unfoldable pub matching_kernel_dirs : Built → Name → List Name
unfolding newest_first
matching_kernel_dirs none name = []
matching_kernel_dirs (some dirs) name = newest_first (keep (extends name) dirs)

abbrev pub first_or : Name → List Name → Name
first_or name [] = name
first_or name (n ∷ _) = n

-- `resolve_kernel_dir`
unfoldable pub resolve_kernel_dir : Built → Name → Name
unfolding matching_kernel_dirs
resolve_kernel_dir none name = name
resolve_kernel_dir (some dirs) name =
    if is_among name dirs then name else first_or name (matching_kernel_dirs (some dirs) name)

-- What TargetConfig reads: the names under `kernels.available`, the default, the pin of the variant that it
-- is bound to, and what is built.
pub record Config : Type 0 where
  pub available : List Name
  pub default_kernel : Name
  pub pinned_kernel : Option Name
  pub built : Built

-- `declared_kernel`
abbrev pub declared_kernel : Config → Name
declared_kernel c = elim c.pinned_kernel [ some pin ↦ pin | none ↦ c.default_kernel ]

-- `declared_kernels`
abbrev pub declared_kernels : Config → List Name
declared_kernels c =
    if is_among c.default_kernel c.available then c.available else c.default_kernel ∷ c.available

-- What follows the dash in `_FULL_KERNEL_TAIL`, `-\d+\.\d+\.\d+-`: how many dots are still to come, and
-- whether a digit of this number was read.
unfoldable pub is_version : ℕ → Bool → Name → Bool
is_version dots seen [] = false
is_version zero seen (c ∷ cs) =
    let rest = is_version zero true cs in if is_digit c then rest else seen && c == 45
is_version (suc dots) seen (c ∷ cs) =
    let rest = is_version (suc dots) true cs in
    let next = is_version dots false cs in if is_digit c then rest else seen && (c == 46 && next)

-- The name up to the first match of the tail, if it matches.
unfoldable pub before_tail : Name → Option Name
before_tail [] = none
before_tail (c ∷ cs) =
    let rest = before_tail cs in
    if c == 45 && is_version 2 false cs
    then some []
    else elim rest [ none ↦ none | some n ↦ some (c ∷ n) ]

-- The loop over the declared names.
unfoldable pub declared_short : List Name → Name → Option Name
declared_short [] name = none
declared_short (short ∷ shorts) name =
    let rest = declared_short shorts name in
    if same_codes name short || extends short name then some short else rest

-- `_short_kernel_name`
unfoldable pub short_kernel_name : Config → Name → Name
unfolding declared_short before_tail
short_kernel_name c name = elim (declared_short c.available name) [
  | some short ↦ short
  | none ↦ elim (before_tail name) [ some short ↦ short | none ↦ name ]
]

-- `resolve_kernel`
unfoldable pub resolve_kernel : Config → Option Name → Result Name
resolve_kernel c kernel = elim c.pinned_kernel [
  | none ↦ elim kernel [
    | some name ↦ ok (resolve_kernel_dir c.built name)
    | none ↦ ok (resolve_kernel_dir c.built c.default_kernel)
  ]
  | some pin ↦ elim kernel [
    | none ↦ ok (resolve_kernel_dir c.built pin)
    | some name ↦
        if same_codes (short_kernel_name c name) pin
        then ok (resolve_kernel_dir c.built name)
        else err value_error
  ]
]
