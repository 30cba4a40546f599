-- ===== src/Vm/InfoFile/Lines.antt =====
-- Splitting what was joined.
use lustre_test_vms.Base.{
  ℕ, ◌≡◌, refl, sym, ap, ◌∙◌, Bool, true, false, some, List, [], ◌∷◌, ◌++◌, any, arith, ◌==◌,
  nat_eq,
}
use mathlib.Core.List.{append_assoc, append-nil}
use lustre_test_vms.Vm.InfoFile.{
  Text, is_break, split_lines, split_once, split_all, join, end_lines, line_feed,
}

abbrev pub has_sign : ℕ → Text → Bool
has_sign sign t = any (λ c. c == sign) t

abbrev pub has_break : Text → Bool
has_break t = any is_break t

split_lines-line :
    (begun : Bool) (acc l rest : Text)
    → has_break l ≡ false
    → split_lines false begun acc (l ++ (line_feed ∷ rest))
      ≡ (acc ++ l) ∷ split_lines false false [] rest
unfolding split_lines nat_eq
split_lines-line begun acc [] rest n =
    ap (λ x. x ∷ split_lines false false [] rest) (sym (append-nil acc))
split_lines-line begun acc (c ∷ l) rest n =
    let longer = split_lines-line true (acc ++ (c ∷ [])) l rest (ground arith) in
    let regroup = append_assoc acc (c ∷ []) l in ground (arith, longer, regroup)

-- Lines that are written are the lines that are read.
pub split_lines-end_lines :
    (ls : List Text) → any has_break ls ≡ false → split_lines false false [] (end_lines ls) ≡ ls
unfolding end_lines split_lines
split_lines-end_lines [] n = refl
split_lines-end_lines (l ∷ ls) n =
    split_lines-line false [] l (end_lines ls) (ground arith)
    ∙ ap (λ x. l ∷ x) (split_lines-end_lines ls (ground arith))

pub split_once-append :
    (sign : ℕ) (k v : Text)
    → has_sign sign k ≡ false
    → split_once sign (k ++ (sign ∷ v)) ≡ some (k, v)
unfolding split_once
split_once-append sign [] v n = ground arith
split_once-append sign (c ∷ k) v n = ground (arith, split_once-append sign k v (ground arith))

split_all-part :
    (sign : ℕ) (acc t rest : Text)
    → has_sign sign t ≡ false
    → split_all sign acc (t ++ (sign ∷ rest)) ≡ (acc ++ t) ∷ split_all sign [] rest
unfolding split_all
split_all-part sign acc [] rest n = ground (arith, append-nil acc)
split_all-part sign acc (c ∷ t) rest n = ground (
  arith,
  split_all-part sign (acc ++ (c ∷ [])) t rest (ground arith),
  append_assoc acc (c ∷ []) t,
)

split_all-last :
    (sign : ℕ) (acc t : Text) → has_sign sign t ≡ false → split_all sign acc t ≡ (acc ++ t) ∷ []
unfolding split_all
split_all-last sign acc [] n = ground (arith, append-nil acc)
split_all-last sign acc (c ∷ t) n =
    ground
      (arith, split_all-last sign (acc ++ (c ∷ [])) t (ground arith), append_assoc acc (c ∷ []) t)

-- Texts without a sign that are joined with it are what the text splits into.
pub split_all-join :
    (sign : ℕ) (t : Text) (ts : List Text)
    → any (has_sign sign) (t ∷ ts) ≡ false
    → split_all sign [] (join sign (t ∷ ts)) ≡ t ∷ ts
unfolding join
split_all-join sign t [] n = split_all-last sign [] t (ground arith)
split_all-join sign t (u ∷ ts) n =
    split_all-part sign [] t (join sign (u ∷ ts)) (ground arith)
    ∙ ap (λ x. t ∷ x) (split_all-join sign u ts (ground arith))
