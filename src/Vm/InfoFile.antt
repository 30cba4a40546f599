-- ===== src/Vm/InfoFile.antt =====
-- The text of a `.info` file: `save`, `load` and `_update_fields` of VMInfo in ltvm_pkg/vm_state.py. A VM is
-- the list of the values of its fields, in the order in which `save` writes them; `info_fields` says under
-- which key a field is written, how it is read, and what it is where the key is missing. NIC specs are the
-- texts that `str` gives, and what `load_stored` reads. Lock and atomic write are left out.
pub mod Lines
pub mod Values
pub mod RoundTrip
use lustre_test_vms.Base.{
  ℕ, zero, suc, ◌+◌, ◌*◌, ◌-◌, String, Bool, true, false, not, ◌&&◌, ◌||◌, Option, none, some, List,
  [], ◌∷◌, ◌++◌, map, any, keep, ◌==◌, nat_eq, contains, leb, if◌then◌else◌,
}
use lustre_test_vms.Result.{Result, ok, err, value_error}
use lustre_test_vms.Owner.{codes}
use lustre_test_vms.Qemu.{strip, same_codes}
use lustre_test_vms.Vm.Files.{digits, is_digit}
use lustre_test_vms.Vm.Options.{is_empty}

abbrev pub Text : Type 0
Text = List ℕ

-- What `splitlines` takes for the end of a line.
abbrev pub is_break : ℕ → Bool
is_break c = contains (10 ∷ 11 ∷ 12 ∷ 13 ∷ 28 ∷ 29 ∷ 30 ∷ 133 ∷ 8232 ∷ 8233 ∷ []) c

-- `splitlines`: whether the last one was a carriage return, after which a line feed ends no further line;
-- whether a line has begun; and what is read of it.
unfoldable pub split_lines : Bool → Bool → Text → Text → List Text
split_lines after begun line [] = if begun then line ∷ [] else []
split_lines after begun line (c ∷ cs) =
    let skipped = split_lines false false [] cs in
    let next = split_lines (c == 13) false [] cs in
    let longer = split_lines false true (line ++ (c ∷ [])) cs in
    if after && c == 10 then skipped else if is_break c then line ∷ next else longer

abbrev pub line_feed : ℕ
line_feed = 10

abbrev pub equals : ℕ
equals = 61

abbrev pub bar : ℕ
bar = 124

-- The parts of a text at the first occurrence of a sign, if it has one: `split(sign, 1)`.
unfoldable pub split_once : ℕ → Text → Option (Text × Text)
split_once sign [] = none
split_once sign (c ∷ cs) =
    let rest = split_once sign cs in
    if c == sign then some ([], cs) else elim rest [ none ↦ none | some (k, v) ↦ some (c ∷ k, v) ]

-- `split(sign)`, with the part that is read.
unfoldable pub split_all : ℕ → Text → Text → List Text
split_all sign part [] = part ∷ []
split_all sign part (c ∷ cs) =
    let next = split_all sign [] cs in
    let longer = split_all sign (part ++ (c ∷ [])) cs in if c == sign then part ∷ next else longer

unfoldable pub join : ℕ → List Text → Text
join sign [] = []
join sign (t ∷ []) = t
join sign (t ∷ u ∷ ts) = t ++ (sign ∷ join sign (u ∷ ts))

-- A field: a text; a number; a list of texts; NIC specs; pairs of a device and a driver; or a flag.
pub data Value : Type 0 where
  text : Text → Value
  number : ℕ → Value
  texts : List Text → Value
  pairs : List (Text × Text) → Value
  flag : Bool → Value

-- How the value of a key is read.
pub data Kind : Type 0 where
  as_text as_number as_number_or_zero as_texts as_nics as_pairs as_flag : Kind

pub record Field : Type 0 where
  pub key : Text
  pub kind : Kind
  pub default : Value

abbrev pub Vm : Type 0
Vm = List Value

-- What is not in these files: `load_stored` of nic_spec.py, and `int` of a text that is not made of ASCII
-- digits.
pub record Readers : Type 0 where
  pub load_stored : Text → Result Text
  pub other_int : Text → Result ℕ

unfoldable pub show_pairs : List (Text × Text) → List Text
show_pairs [] = []
show_pairs ((k, v) ∷ ps) = (k ++ (equals ∷ v)) ∷ show_pairs ps

-- What `save` writes of a field.
unfoldable pub show : Value → Text
unfolding show_pairs
show (text t) = t
show (number n) = digits n
show (texts ts) = join bar ts
show (pairs ps) = join bar (show_pairs ps)
show (flag b) = if b then digits 1 else digits 0

abbrev pub is_digits : Text → Bool
is_digits t = not (is_empty t) && not (any (λ c. not (is_digit c)) t)

unfoldable pub value_of : ℕ → Text → ℕ
value_of n [] = n
value_of n (c ∷ cs) = value_of (n * 10 + (c - 48)) cs

-- `int`
unfoldable pub to_int : Readers → Text → Result ℕ
to_int r t = if is_digits t then ok (value_of 0 t) else r.other_int t

-- `[s for s in raw.split("|") if s]`
abbrev pub parts : Text → List Text
parts raw = keep (λ t. not (is_empty t)) (split_all bar [] raw)

unfoldable pub load_nics : Readers → List Text → Result (List Text)
load_nics r [] = ok []
load_nics r (t ∷ ts) = elim (r.load_stored t) [
  | err x ↦ err x
  | ok spec ↦ elim (load_nics r ts) [ err x ↦ err x | ok specs ↦ ok (spec ∷ specs) ]
]

-- `d[k] = v`
abbrev pub put : Text → Text → List (Text × Text) → List (Text × Text)
put k v [] = (k, v) ∷ []
put k v (p ∷ ps) = let rest = put k v ps in if same_codes p.0 k then (k, v) ∷ ps else p ∷ rest

-- The loop over the entries of PASSTHROUGH_DRIVERS.
unfoldable pub load_pairs : List (Text × Text) → List Text → List (Text × Text)
load_pairs acc [] = acc
load_pairs acc (e ∷ es) = elim (split_once equals e) [
  | none ↦ load_pairs acc es
  | some (k, v) ↦ load_pairs (put k v acc) es
]

-- What `load` makes of the text of a field.
unfoldable pub read_value : Readers → Kind → Text → Result Value
unfolding load_nics load_pairs
read_value r as_text raw = ok (text raw)
read_value r as_number raw = elim (to_int r raw) [ ok n ↦ ok (number n) | err x ↦ err x ]
read_value r as_number_or_zero raw =
    if is_empty raw
    then ok (number 0)
    else elim (to_int r raw) [ ok n ↦ ok (number n) | err x ↦ err x ]
read_value r as_texts raw = ok (texts (parts raw))
read_value r as_nics raw = elim (load_nics r (parts raw)) [ ok ts ↦ ok (texts ts) | err x ↦ err x ]
read_value r as_pairs raw = ok (pairs (load_pairs [] (split_all bar [] raw)))
read_value r as_flag raw = ok (flag (same_codes raw (digits 1)))

-- The lines that `save` writes.
unfoldable pub write_lines : List Field → Vm → List Text
write_lines [] vm = []
write_lines (f ∷ fs) [] = []
write_lines (f ∷ fs) (v ∷ vm) = (f.key ++ (equals ∷ show v)) ∷ write_lines fs vm

unfoldable pub end_lines : List Text → Text
end_lines [] = []
end_lines (l ∷ ls) = l ++ (line_feed ∷ end_lines ls)

-- The text that `save` writes, once `validate_owner_id` has passed.
unfoldable pub save_text : List Field → Vm → Text
unfolding write_lines end_lines
save_text fs vm = end_lines (write_lines fs vm)

-- `vals.get(key)`: the last line with the key counts.
unfoldable pub lookup : Text → List Text → Option Text
lookup key [] = none
lookup key (l ∷ ls) = elim (lookup key ls) [
  | some v ↦ some v
  | none ↦ elim (split_once equals l) [
    | none ↦ none
    | some (k, v) ↦ if same_codes k key then some v else none
  ]
]

unfoldable pub read_field : Readers → Field → List Text → Result Value
unfolding lookup
read_field r f ls = elim (lookup f.key ls) [
  | none ↦ ok f.default
  | some raw ↦ read_value r f.kind raw
]

unfoldable pub read_fields : Readers → List Field → List Text → Result Vm
read_fields r [] ls = ok []
read_fields r (f ∷ fs) ls = elim (read_field r f ls) [
  | err x ↦ err x
  | ok v ↦ elim (read_fields r fs ls) [ err x ↦ err x | ok vm ↦ ok (v ∷ vm) ]
]

-- `load`, of the text of the file.
unfoldable pub load_text : Readers → List Field → Text → Result Vm
unfolding read_fields
load_text r fs t = read_fields r fs (split_lines false false [] t)

abbrev text_field : String → String → Field
text_field key default = record { key = codes key; kind = as_text; default = text (codes default) }

abbrev number_field : String → ℕ → Field
number_field key default = record { key = codes key; kind = as_number; default = number default }

abbrev other_field : String → Kind → Value → Field
other_field key kind default = record { key = codes key; kind = kind; default = default }

-- The fields of a VM of a given name, with the default sizes of its disks.
abbrev pub info_fields : Text → ℕ → ℕ → List Field
info_fields name disk_size root_size =
    record { key = codes "NAME"; kind = as_text; default = text name }
    ∷ text_field "IP" ""
    ∷ number_field "PID" 0
    ∷ text_field "TAP" ""
    ∷ text_field "MAC" ""
    ∷ number_field "VCPUS" 2
    ∷ number_field "MEM" 2048
    ∷ number_field "MDT_DISKS" 0
    ∷ number_field "OST_DISKS" 0
    ∷ number_field "DISK_SIZE" disk_size
    ∷ number_field "ROOT_SIZE" root_size
    ∷ text_field "IMAGE" ""
    ∷ text_field "KERNEL" ""
    ∷ number_field "CREATED" 0
    ∷ number_field "LAST_BOOT" 0
    ∷ number_field "LAST_DEPLOY" 0
    ∷ text_field "BUILD_PATH" ""
    ∷ text_field "KVER" ""
    ∷ text_field "BASE_IMAGE" ""
    ∷ text_field "IMAGE_ID" ""
    ∷ text_field "OS_ID" ""
    ∷ text_field "ARCH" "x86_64"
    ∷ text_field "CREATOR" ""
    ∷ text_field "OWNER_ID" ""
    ∷ text_field "VARIANT" "base"
    ∷ other_field "NICS" as_nics (texts [])
    ∷ other_field "NIC_IPS" as_texts (texts [])
    ∷ other_field "NIC_IP6S" as_texts (texts [])
    ∷ other_field "PASSTHROUGH_DRIVERS" as_pairs (pairs [])
    ∷ text_field "KERNEL_ARGS" ""
    ∷ other_field "NUMA_NODES" as_number_or_zero (number 0)
    ∷ other_field "SHARE_DISKS" as_flag (flag false)
    ∷ text_field "DISKS_FROM" ""
    ∷ text_field "DISK_DIR" ""
    ∷ text_field "DISK_CACHE" ""
    ∷ text_field "DISK_PREALLOC" ""
    ∷ []
