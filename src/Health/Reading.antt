-- ===== src/Health/Reading.antt =====
-- What a report that is accepted says, and what later output cannot change.
use mathlib.Core.List.{◌++◌}
use django_ops.Common.{
  ◌≡◌, refl, sym, ap, ◌∙◌, subst, inl, inr, Bool, true, false, ◌&&◌, ◌||◌, Option, none, some, List,
  [], ◌∷◌, arith, if◌then◌else◌, Bool-cases, Option-cases, ok,
}
use django_ops.Common.Text.{Text, codes, eq_text, eq_text_iff, split}
use django_ops.Health.Report.{
  check_names, has_text, eq_texts, HealthCheck, read_parts, read_line, names, remember, collect,
  parse_report,
}

eq_texts_lem : (xs ys : List Text) → eq_texts xs ys ≡ true → xs ≡ ys
unfolding eq_texts
eq_texts_lem [] [] h = refl
eq_texts_lem [] (y ∷ ys) h = cc
eq_texts_lem (x ∷ xs) [] h = cc
eq_texts_lem (x ∷ xs) (y ∷ ys) h = ground (arith, eq_text_iff x y, eq_texts_lem xs ys)

-- the check of the name that stands first
unfoldable pub first_check : Text → List HealthCheck → Option HealthCheck
first_check name [] = none
first_check name (c ∷ cs) = if eq_text c.name name then some c else first_check name cs

-- the check, if it is of the name, or else the other one
unfoldable pub pick : Text → Option HealthCheck → Option HealthCheck → Option HealthCheck
pick name none other = other
pick name (some c) other = if eq_text c.name name then some c else other

-- the first line that reports on the name
unfoldable pub first_report : Text → List Text → Option HealthCheck
first_report name [] = none
first_report name (line ∷ lines) = pick name (read_line line) (first_report name lines)

unfoldable pub or_else : Option HealthCheck → Option HealthCheck → Option HealthCheck
or_else none other = other
or_else (some c) other = some c

or_else-none : (o : Option HealthCheck) → or_else o none ≡ o
unfolding or_else
or_else-none none = refl
or_else-none (some c) = refl

first_check-append :
    (name : Text) (cs : List HealthCheck) (c : HealthCheck)
    → first_check name (cs ++ c ∷ []) ≡ or_else (first_check name cs) (first_check name (c ∷ []))
unfolding first_check or_else
first_check-append name [] c = ground arith
first_check-append name (x ∷ cs) c = ground (arith, first_check-append name cs c)

appended :
    (name : Text) (c : HealthCheck) (other found : Option HealthCheck)
    → or_else (or_else found (first_check name (c ∷ []))) other
      ≡ or_else found (if eq_text c.name name then some c else other)
unfolding first_check or_else
appended name c other none = ground arith
appended name c other (some x) = refl

has_text-first_check :
    (name : Text) (cs : List HealthCheck)
    → has_text name (names cs) ≡ false
    → first_check name cs ≡ none
unfolding first_check has_text
has_text-first_check name [] h = refl
has_text-first_check name (c ∷ cs) h = ground (arith, has_text-first_check name cs)

has_text-known :
    (name : Text) (cs : List HealthCheck) (other : Option HealthCheck)
    → has_text name (names cs) ≡ true
    → or_else (first_check name cs) other ≡ first_check name cs
unfolding first_check has_text or_else
has_text-known name [] other h = cc
has_text-known name (c ∷ cs) other h = ground (arith, has_text-known name cs other)

has_text-same :
    (x y : Text) (cs : List HealthCheck)
    → eq_text x y ≡ true
    → has_text x (names cs) ≡ true
    → has_text y (names cs) ≡ true
has_text-same x y cs e h =
    let same : x ≡ y = ground (arith, eq_text_iff x y) in
    subst (λ n. has_text n (names cs) ≡ true) same h

-- A line changes the check of a name only where it is the first that reports on it.
remember-first_check :
    (name : Text) (o other : Option HealthCheck) (cs : List HealthCheck)
    → or_else (first_check name (remember o cs)) other
      ≡ or_else (first_check name cs) (pick name o other)
unfolding remember pick
remember-first_check name none other cs = refl
remember-first_check name (some c) other cs = elim (Bool-cases (has_text c.name (names cs))) [
  | inl old ↦ elim (Bool-cases (eq_text c.name name)) [
    | inl same ↦
        let here = has_text-same c.name name cs same old in
        rw (old, same)
          (has_text-known name cs other here ∙ sym (has_text-known name cs (some c) here))
    | inr differ ↦ rw (old, differ) refl
  ]
  | inr new ↦ rw (new, first_check-append name cs c) (appended name c other (first_check name cs))
]

collect-first_check :
    (name : Text) (lines : List Text) (cs : List HealthCheck)
    → first_check name (collect lines cs) ≡ or_else (first_check name cs) (first_report name lines)
unfolding collect first_report
collect-first_check name [] cs = sym (or_else-none (first_check name cs))
collect-first_check name (line ∷ lines) cs =
    collect-first_check name lines (remember (read_line line) cs)
    ∙ remember-first_check name (read_line line) (first_report name lines) cs

parse_report-eq-ok :
    (lines : List Text) (r : List HealthCheck)
    → parse_report lines ≡ ok r
    → (names r ≡ check_names) × (r ≡ collect lines [])
unfolding parse_report
parse_report-eq-ok lines r h = elim (Bool-cases (eq_texts (names (collect lines [])) check_names)) [
  | inr e ↦ cc (rw e at h)
  | inl e ↦
      let same : r ≡ collect lines [] = cc (rw e at h) in
      (ap names same ∙ eq_texts_lem (names (collect lines [])) check_names e, same)
]

-- A report that is accepted has the five checks in their order, and the status of each is that of the
-- first line that reports on it.
pub parse_report_reads :
    (lines : List Text) (r : List HealthCheck)
    → parse_report lines ≡ ok r
    → (names r ≡ check_names) × ((name : Text) → first_check name r ≡ first_report name lines)
unfolding first_check or_else
parse_report_reads lines r h =
    let (all_names, same) = parse_report-eq-ok lines r h in
    (all_names, λ name. ap (first_check name) same ∙ collect-first_check name lines [])

named :
    {n : Text} {b : Bool} {c : HealthCheck}
    → some (record { name = n; passed = b }) ≡ some c
    → n ≡ c.name
named {n} {b} {c} h = ap name_of h
  where
    name_of : Option HealthCheck → Text
    name_of none = n
    name_of (some x) = x.name

read_parts-known :
    (parts : List Text) (c : HealthCheck)
    → read_parts parts ≡ some c
    → has_text c.name check_names ≡ true
unfolding read_parts
read_parts-known (mark ∷ name ∷ status ∷ []) c h =
    elim (Bool-cases (
      eq_text mark (codes "DJANGOOPS_HEALTH")
      && has_text name check_names
      && (eq_text status (codes "PASS") || eq_text status (codes "FAIL")))) [
        | inr e ↦ cc (rw e at h)
        | inl e ↦
            let inside : has_text name check_names ≡ true = ground (arith, e) in
            let same : name ≡ c.name = named (rw e at h) in
            subst (λ n. has_text n check_names ≡ true) same inside
      ]
read_parts-known [] c h = cc
read_parts-known (a ∷ []) c h = cc
read_parts-known (a ∷ b ∷ []) c h = cc
read_parts-known (a ∷ b ∷ d ∷ e ∷ s) c h = cc

-- Where all checks are known, no line adds one.
collect_complete :
    (lines : List Text) (cs : List HealthCheck) → names cs ≡ check_names → collect lines cs ≡ cs
unfolding collect remember read_line
collect_complete [] cs full = refl
collect_complete (line ∷ lines) cs full = elim (Option-cases (read_line line)) [
  | inl e ↦ rw e (collect_complete lines cs full)
  | inr (c, e) ↦
      let known : has_text c.name (names cs) ≡ true =
        subst (λ ns. has_text c.name ns ≡ true) (sym full) (read_parts-known (split 9 line) c e) in
      rw (e, known) (collect_complete lines cs full)
]

collect-append :
    (lines extra : List Text) (cs : List HealthCheck)
    → collect (lines ++ extra) cs ≡ collect extra (collect lines cs)
unfolding collect
collect-append [] extra cs = refl
collect-append (line ∷ lines) extra cs = collect-append lines extra (remember (read_line line) cs)

-- Whatever is printed after the lines of an accepted report leaves the report as it is.
pub parse_report_stable :
    (lines extra : List Text) (r : List HealthCheck)
    → parse_report lines ≡ ok r
    → parse_report (lines ++ extra) ≡ ok r
unfolding parse_report
parse_report_stable lines extra r h =
    let (all_names, same) = parse_report-eq-ok lines r h in
    let kept : collect (lines ++ extra) [] ≡ collect lines [] =
      collect-append lines extra []
      ∙ collect_complete extra (collect lines []) (ap names (sym same) ∙ all_names) in
    rw kept h
