-- ===== src/Operations/Refusals/Primary.antt =====
-- The primary issue of a request, by the order of the severities written out.
use lang_sop.Base.{
  ◌≡◌, refl, ◌∙◌, sym, ap, Bool, true, false, Option, none, some, List, [], ◌∷◌, ℕ, suc, any, leb,
  first?, find?, sort_by, insert_by, arith, Bool-cases, inl, inr, if◌then◌else◌,
}
use lang_sop.Operations.Requests.Records.{OperationRequestValidationIssue}
use lang_sop.Operations.Requests.Vocabulary.{OperationRequestIssueSeverity}
use lang_sop.Operations.Refusals.Reasons.{priority, precedes, primary_issue}

abbrev Issue : Type 0
Issue = OperationRequestValidationIssue

abbrev Severity : Type 0
Severity = OperationRequestIssueSeverity

abbrev same_severity : Severity → Severity → Bool
same_severity OperationRequestIssueSeverity.fault OperationRequestIssueSeverity.fault = true
same_severity OperationRequestIssueSeverity.refused OperationRequestIssueSeverity.refused = true
same_severity OperationRequestIssueSeverity.interrupt OperationRequestIssueSeverity.interrupt = true
same_severity OperationRequestIssueSeverity.stale OperationRequestIssueSeverity.stale = true
same_severity OperationRequestIssueSeverity.review_required
      OperationRequestIssueSeverity.review_required =
    true
same_severity OperationRequestIssueSeverity.blocked OperationRequestIssueSeverity.blocked = true
same_severity s t = false

-- The severities from the one that is looked for first.
abbrev severities : List Severity
severities =
    OperationRequestIssueSeverity.fault ∷ OperationRequestIssueSeverity.refused
    ∷ OperationRequestIssueSeverity.interrupt ∷ OperationRequestIssueSeverity.stale
    ∷ OperationRequestIssueSeverity.review_required ∷ OperationRequestIssueSeverity.blocked ∷ []

abbrev or_else {ℓ} : {A : Type ℓ} → Option A → Option A → Option A
or_else none p = p
or_else (some a) p = some a

abbrev has_severity : Severity → Issue → Bool
has_severity s i = same_severity i.severity s

-- The first issue with the first severity, else the first with the second, and so on.
abbrev pub first_by : List Severity → List Issue → Option Issue
first_by [] issues = none
first_by (s ∷ ss) issues = or_else (find? (has_severity s) issues) (first_by ss issues)

-- Severities of a priority from k on, each of a higher number than the one before.
data Ascending : ℕ → List Severity → Type 0 where
  nil : (k : ℕ) → Ascending k []
  cons :
      (k : ℕ) (s : Severity) (ss : List Severity)
      → leb k (priority s) ≡ true
      → Ascending (suc (priority s)) ss
      → Ascending k (s ∷ ss)

severities-Ascending : Ascending 0 severities
unfolding priority
severities-Ascending = cons _ _ _ refl (
    cons _ _ _ refl (cons _ _ _ refl (cons _ _ _ refl (cons _ _ _ refl (cons _ _ _ refl (nil _))))))

data IsAtLeast (k : ℕ) : Option Issue → Type 0 where
  absent : IsAtLeast k none
  present : (i : Issue) → leb k (priority i.severity) ≡ true → IsAtLeast k (some i)

data IsOf (s : Severity) : Option Issue → Type 0 where
  absent : IsOf s none
  present : (i : Issue) → i.severity ≡ s → IsOf s (some i)

same_severity-eq : (s t : Severity) → same_severity s t ≡ true → s ≡ t
same_severity-eq s t h = ground arith

same_severity_refl : (s : Severity) → same_severity s s ≡ true
same_severity_refl s = ground arith

find?-IsOf : (s : Severity) (xs : List Issue) → IsOf s (find? (has_severity s) xs)
unfolding find?
find?-IsOf s [] = absent
find?-IsOf s (x ∷ xs) = elim (Bool-cases (has_severity s x)) [
  | inl e ↦ rw e (present x (same_severity-eq x.severity s e))
  | inr e ↦ rw e (find?-IsOf s xs)
]

leb_trans : (a b c : ℕ) → leb a b ≡ true → leb (suc b) c ≡ true → leb a c ≡ true
leb_trans a b c h k = ground arith

or_else-IsAtLeast :
    (k : ℕ) (s : Severity) {o p : Option Issue}
    → leb k (priority s) ≡ true
    → IsOf s o
    → IsAtLeast (suc (priority s)) p
    → IsAtLeast k (or_else o p)
or_else-IsAtLeast k s h absent absent = absent
or_else-IsAtLeast k s h absent (present i l) =
    present i (leb_trans k (priority s) (priority i.severity) h l)
or_else-IsAtLeast k s h (present i e) q = present i (ap (λ t. leb k (priority t)) e ∙ h)

first_by-IsAtLeast :
    {k : ℕ} {ss : List Severity} (xs : List Issue) → Ascending k ss → IsAtLeast k (first_by ss xs)
first_by-IsAtLeast xs (nil k) = absent
first_by-IsAtLeast xs (cons k s ss h a) =
    or_else-IsAtLeast k s h (find?-IsOf s xs) (first_by-IsAtLeast xs a)

any-leb :
    {k : ℕ} {ss : List Severity} (t : Severity)
    → Ascending k ss
    → any (same_severity t) ss ≡ true
    → leb k (priority t) ≡ true
unfolding any
any-leb t (nil k) m = cc
any-leb t (cons k s ss h a) m = elim (Bool-cases (same_severity t s)) [
  | inl e ↦ ap (λ r. leb k (priority r)) (same_severity-eq t s e) ∙ h
  | inr e ↦ leb_trans k (priority s) (priority t) h (any-leb t a (ground (arith, m, e)))
]

or_earlier : Issue → Option Issue → Option Issue
or_earlier x none = some x
or_earlier x (some y) = if precedes x y then some x else some y

or_earlier-least :
    (x : Issue) {o : Option Issue} → IsAtLeast (priority x.severity) o → or_earlier x o ≡ some x
unfolding or_earlier
or_earlier-least x absent = refl
or_earlier-least x (present i l) = rw l refl

not_before : (a b : ℕ) → leb (suc b) a ≡ true → leb a b ≡ false
not_before a b h = ground arith

or_earlier-later :
    (x y : Issue)
    → leb (suc (priority y.severity)) (priority x.severity) ≡ true
    → or_earlier x (some y) ≡ some y
unfolding or_earlier
or_earlier-later x y h = rw (not_before (priority x.severity) (priority y.severity) h) refl

-- A new first issue stands against the one that was found.
stands : Issue → List Severity → Option Issue → Option Issue
stands x ss o = if any (same_severity x.severity) ss then or_earlier x o else o

leb_refl : (a : ℕ) → leb a a ≡ true
leb_refl a = ground arith

stands-first :
    (x : Issue) (s : Severity) (ss : List Severity) {o p : Option Issue}
    → same_severity x.severity s ≡ true
    → IsOf s o
    → IsAtLeast (suc (priority s)) p
    → some x ≡ stands x (s ∷ ss) (or_else o p)
unfolding stands any
stands-first x s ss e f l =
    let same =
      ap (λ r. leb (priority r) (priority s)) (same_severity-eq x.severity s e)
      ∙ leb_refl (priority s) in
    rw e (sym (or_earlier-least x (or_else-IsAtLeast (priority x.severity) s same f l)))

stands-later :
    (x : Issue) (s : Severity) (ss : List Severity) (p : Option Issue) {o q : Option Issue}
    → same_severity x.severity s ≡ false
    → IsOf s o
    → Ascending (suc (priority s)) ss
    → q ≡ stands x ss p
    → or_else o q ≡ stands x (s ∷ ss) (or_else o p)
unfolding stands any
stands-later x s ss p e absent a same = rw e same
stands-later x s ss p e (present i f) a same =
    elim (Bool-cases (any (same_severity x.severity) ss)) [
      | inl m ↦
          rw (e, m)
            (sym (
              or_earlier-later x i (
                ap (λ r. leb (suc (priority r)) (priority x.severity)) f ∙ any-leb x.severity a m)))
      | inr m ↦ rw (e, m) refl
    ]

nothing_stands : (y : Issue) → none ≡ stands y [] none
unfolding stands any
nothing_stands y = refl

first_by-cons :
    {k : ℕ} {ss : List Severity} (x : Issue) (xs : List Issue)
    → Ascending k ss
    → first_by ss (x ∷ xs) ≡ stands x ss (first_by ss xs)
unfolding find?
first_by-cons x xs (nil k) = nothing_stands x
first_by-cons x xs (cons k s ss h a) = elim (Bool-cases (same_severity x.severity s)) [
  | inl e ↦ rw e (stands-first x s ss e (find?-IsOf s xs) (first_by-IsAtLeast xs a))
  | inr e ↦ rw e (stands-later x s ss (first_by ss xs) e (find?-IsOf s xs) a (first_by-cons x xs a))
]

first_by_nil : first_by severities [] ≡ none
unfolding find?
first_by_nil = refl

is_listed : (t : Severity) → any (same_severity t) severities ≡ true
unfolding any
is_listed t = ground arith

first_by-severities :
    (x : Issue) (xs : List Issue)
    → first_by severities (x ∷ xs) ≡ or_earlier x (first_by severities xs)
unfolding stands
first_by-severities x xs = first_by-cons x xs severities-Ascending ∙ rw (is_listed x.severity) refl

first?-insert_by :
    (x : Issue) (xs : List Issue) → first? (insert_by precedes x xs) ≡ or_earlier x (first? xs)
unfolding insert_by or_earlier
first?-insert_by x [] = refl
first?-insert_by x (y ∷ ys) = elim (Bool-cases (precedes x y)) [
  | inl e ↦ rw e refl
  | inr e ↦ rw e refl
]

sort_by-first_by :
    (issues : List Issue) → first? (sort_by precedes issues) ≡ first_by severities issues
unfolding sort_by
sort_by-first_by [] = sym first_by_nil
sort_by-first_by (x ∷ xs) =
    first?-insert_by x (sort_by precedes xs)
    ∙ (ap (or_earlier x) (sort_by-first_by xs) ∙ sym (first_by-severities x xs))

-- The primary issue is the first fault; without a fault it is the first refused issue, then the first
-- interrupt, then the first stale one, then the first that asks for a review, then the first blocked one.
pub primary_issue-first_by :
    (issues : List OperationRequestValidationIssue)
    → primary_issue issues
      ≡ first_by
          (OperationRequestIssueSeverity.fault ∷ OperationRequestIssueSeverity.refused
            ∷ OperationRequestIssueSeverity.interrupt ∷ OperationRequestIssueSeverity.stale
            ∷ OperationRequestIssueSeverity.review_required ∷ OperationRequestIssueSeverity.blocked
            ∷ [])
          issues
unfolding primary_issue
primary_issue-first_by [] = sym first_by_nil
primary_issue-first_by (x ∷ xs) = sort_by-first_by (x ∷ xs)
