-- ===== src/Suite/Results/Names.antt =====
-- Every test that a results file names is kept, in the order of the file.
use mathlib.Core.List.{append_assoc, append-nil, map-append}
use lustre_test_vms.Base.{
  ℕ, zero, suc, String, ◌≡◌, refl, ◌∙◌, ap, sym, subst, inl, inr, Bool, true, false, Option, none,
  some, List, [], ◌∷◌, ◌++◌, map, arith, Option-cases, if◌then◌else◌,
}
use lustre_test_vms.Suite.Results.{
  Line, Field, Subtest, Suite, Parser, sub_name, sub_field, suite_name, suite_status,
  suite_duration, other, set_field, status, duration, return_code, error, update, subtest,
  name_line, field_line, read_line, read_lines, closed, parse_results, start, target,
}

abbrev test_names : List Subtest → List String
test_names ts = map (λ t. t.name) ts

abbrev pub all_names : List Suite → List String
all_names [] = []
all_names (s ∷ ss) = map (λ t. t.name) s.subtests ++ all_names ss

-- What a line adds to the names; one before the first suite's adds nothing.
abbrev pub new_names : Bool → Line → List String
new_names inside l = elim l [ sub_name n ↦ if inside then n ∷ [] else [] | _ ↦ [] ]

abbrev pub then_inside : Bool → Line → Bool
then_inside inside l = elim l [ suite_name n ↦ true | _ ↦ inside ]

abbrev pub named : Bool → List Line → List String
named inside [] = []
named inside (l ∷ ls) = new_names inside l ++ named (then_inside inside l) ls

names_update :
    (f : Field) (v : String) (ts : List Subtest) (i : ℕ)
    → test_names (update (set_field f v) ts i) ≡ test_names ts
names_update f v [] i = refl
names_update f v (t ∷ ts) (suc i) = ap (λ xs. t.name ∷ xs) (names_update f v ts i)
names_update status v (t ∷ ts) zero = refl
names_update duration v (t ∷ ts) zero = refl
names_update return_code v (t ∷ ts) zero = refl
names_update error v (t ∷ ts) zero = refl

abbrev last_names : Option Suite → List String
last_names none = []
last_names (some s) = test_names s.subtests

-- The names that a parser has read.
abbrev read_names : Parser → List String
read_names p = all_names p.past ++ last_names p.suite

abbrev started : Option Suite → Bool
started none = false
started (some s) = true

all_names-closed :
    (ss : List Suite) (o : Option Suite) → all_names (ss ++ closed o) ≡ all_names ss ++ last_names o
all_names-closed [] none = refl
all_names-closed [] (some s) = append-nil (test_names s.subtests)
all_names-closed (s ∷ ss) o =
    ap (λ xs. test_names s.subtests ++ xs) (all_names-closed ss o)
    ∙ sym (append_assoc (test_names s.subtests) (all_names ss) (last_names o))

-- What a line does to a parser.
abbrev Reads : Parser → Line → Parser → Type 0
Reads p l q =
    (read_names q ≡ read_names p ++ new_names (started p.suite) l)
    × (started q.suite ≡ then_inside (started p.suite) l)

-- A line that adds no name.
quiet :
    (p q : Parser) (l : Line)
    → read_names q ≡ read_names p
    → started q.suite ≡ started p.suite
    → new_names (started p.suite) l ≡ []
    → then_inside (started p.suite) l ≡ started p.suite
    → Reads p l q
quiet p q l e f g h = (e ∙ (sym (append-nil _) ∙ ap (λ xs. read_names p ++ xs) (sym g)), f ∙ sym h)

with_subtests :
    (p q : Parser) (s t : Suite)
    → p.suite ≡ some s
    → q.suite ≡ some t
    → q.past ≡ p.past
    → test_names t.subtests ≡ test_names s.subtests
    → read_names q ≡ read_names p
with_subtests p q s t e f g h =
    ap (λ xs. all_names xs ++ last_names q.suite) g
    ∙ ap (λ xs. all_names p.past ++ xs) (ap last_names f ∙ (h ∙ sym (ap last_names e)))

name_line_names :
    (p : Parser) (s : Suite) (n : String)
    → p.suite ≡ some s
    → Reads p (sub_name n) (name_line p s n)
unfolding name_line
name_line_names p s n e =
    let now : started p.suite ≡ true = ap started e in
    let one : new_names (started p.suite) (sub_name n) ≡ n ∷ [] =
      ap (λ b. new_names b (sub_name n)) now in
    let before : last_names p.suite ≡ test_names s.subtests = ap last_names e in
    (
      ap (λ xs. all_names p.past ++ xs)
            (map-append (λ t. t.name) s.subtests (subtest n ∷ [])
              ∙ ap (λ xs. xs ++ (n ∷ [])) (sym before))
          ∙ (sym (append_assoc (all_names p.past) (last_names p.suite) (n ∷ []))
              ∙ ap (λ xs. read_names p ++ xs) (sym one)),
      sym now,
    )

field_line_names :
    (p : Parser) (s : Suite) (c : ℕ) (f : Field) (v : String)
    → p.suite ≡ some s
    → Reads p (sub_field f v) (field_line p s c f v)
unfolding field_line
field_line_names p s c f v e =
    let (i, waiting) = target s f c p.waiting in
    quiet p (field_line p s c f v) (sub_field f v)
      (with_subtests p (field_line p s c f v) s
        (record s { subtests = update (set_field f v) s.subtests i }) e refl refl
        (names_update f v s.subtests i))
      (sym (ap started e)) refl refl

unread :
    (p : Parser) (l : Line)
    → new_names (started p.suite) l ≡ []
    → then_inside (started p.suite) l ≡ started p.suite
    → (q : Parser) → q ≡ p
    → Reads p l q
unread p l g h q e = quiet p q l (ap read_names e) (ap (λ r. started r.suite) e) g h

read_line_names : (p : Parser) (l : Line) → Reads p l (read_line p l)
unfolding read_line
read_line_names p (sub_name n) = elim (Option-cases p.suite) [
  | inl e ↦
      unread p (sub_name n) (ap (λ o. new_names (started o) (sub_name n)) e) refl
        (read_line p (sub_name n)) (ground arith)
  | inr (s, e) ↦
      let same : read_line p (sub_name n) ≡ name_line p s n = ground arith in
      subst (Reads p (sub_name n)) (sym same) (name_line_names p s n e)
]
read_line_names p (sub_field f v) = elim (Option-cases p.cur) [
  | inl e ↦ unread p (sub_field f v) refl refl (read_line p (sub_field f v)) (ground arith)
  | inr (c, e) ↦ elim (Option-cases p.suite) [
    | inl g ↦ unread p (sub_field f v) refl refl (read_line p (sub_field f v)) (ground arith)
    | inr (s, g) ↦
        let same : read_line p (sub_field f v) ≡ field_line p s c f v = ground arith in
        subst (Reads p (sub_field f v)) (sym same) (field_line_names p s c f v g)
  ]
]
read_line_names p (suite_name n) = (ap (λ xs. xs ++ []) (all_names-closed p.past p.suite), refl)
read_line_names p (suite_status v) = elim (Option-cases p.suite) [
  | inl g ↦ unread p (suite_status v) refl refl (read_line p (suite_status v)) (ground arith)
  | inr (s, g) ↦
      let next : Parser = record p { suite = some (record s { status = some v }) } in
      let same : read_line p (suite_status v) ≡ next = ground arith in
      subst (Reads p (suite_status v)) (sym same) (
        quiet p next (suite_status v)
          (with_subtests p next s (record s { status = some v }) g refl refl refl)
          (sym (ap started g)) refl refl)
]
read_line_names p (suite_duration v) = elim (Option-cases p.suite) [
  | inl g ↦ unread p (suite_duration v) refl refl (read_line p (suite_duration v)) (ground arith)
  | inr (s, g) ↦
      let next : Parser = record p { suite = some (record s { duration = some v }) } in
      let same : read_line p (suite_duration v) ≡ next = ground arith in
      subst (Reads p (suite_duration v)) (sym same) (
        quiet p next (suite_duration v)
          (with_subtests p next s (record s { duration = some v }) g refl refl refl)
          (sym (ap started g)) refl refl)
]
read_line_names p other = unread p other refl refl p refl

read_lines_names :
    (p : Parser) (ls : List Line)
    → read_names (read_lines p ls) ≡ read_names p ++ named (started p.suite) ls
unfolding read_lines
read_lines_names p [] = sym (append-nil _)
read_lines_names p (l ∷ ls) =
    let (names, inside) = read_line_names p l in
    read_lines_names (read_line p l) ls
    ∙ rw (names, inside)
        (append_assoc (read_names p) (new_names (started p.suite) l)
          (named (then_inside (started p.suite) l) ls))

-- The subtests of all suites have the names that stand after the first suite's name, in order.
pub parse_results_names : (ls : List Line) → all_names (parse_results ls) ≡ named false ls
unfolding parse_results
parse_results_names ls =
    let p = read_lines start ls in all_names-closed p.past p.suite ∙ read_lines_names start ls
