-- ===== src/Diff/Classify.antt =====
-- What `classify` of internal/diff/diff.go reports of a pair of sides.
use plumbline.Finding.{Result, unset, result_eq, Finding}
use plumbline.Diff.{
  Category, resolved, new_failure, newly_suppressed, regressed, verdict_changed, suppressed,
  underlying, failing, classify,
}
use plumbline.Suppress.{Time, Rule, Set, Decision, keep, lapsed, accept, rewrite, actionable}
use plumbline.Suppress.Apply.{verdict, verdict-accept}
use plumbline.Base.{◌≡◌, refl, ◌≢◌, ◌↔◌, Bool, true, false, Option, none, some, arith}

result_eq_iff : (a b : Result) → (result_eq a b ≡ true) ↔ (a ≡ b)
unfolding result_eq
result_eq_iff a b = ground arith

-- Nothing is reported exactly if both sides fail in the same way or neither fails, an acceptance
-- that the new side has was there before, and one that the old side had has not been lost on a
-- finding that still fails.
abbrev pub Unmoved : Option Finding → Option Finding → Type 0
Unmoved o n =
    (failing o ≡ failing n)
    × (failing o ≡ true → underlying o ≡ underlying n)
    × (suppressed n ≡ true → suppressed o ≡ true)
    × (suppressed o ≡ true → failing n ≡ true → suppressed n ≡ true)

-- `classify` reports no change exactly if the pair is unmoved.
pub classify-none_iff : (o n : Option Finding) → (classify o n ≡ none) ↔ Unmoved o n
unfolding classify
classify-none_iff o n = ground (arith, result_eq_iff (underlying o) (underlying n))

-- A finding is a failure before any acceptance: a FAIL or an UNKNOWN.
abbrev pub bad : Option Finding → Bool
bad none = false
bad (some f) = actionable f

-- A live rule of the set accepts it at the moment of the scan.
abbrev pub accepts : Decision → Bool
accepts keep = false
accepts (lapsed r) = false
accepts (accept r) = true

abbrev pub accepted_at : Option Set → Time → Option Finding → Bool
accepted_at s at none = false
accepted_at s at (some f) = accepts (verdict s at f)

abbrev pub evaluated : Option Finding → Result
evaluated none = unset
evaluated (some f) = f.result

-- No suppression yet, as a catalog yields it.
abbrev pub Fresh : Option Finding → Type 0
Fresh none = Unit
Fresh (some f) = f.suppression ≡ none

-- One side of a comparison: a finding that may be absent, after the set was applied at its own moment.
abbrev pub side : Option Set → Time → Option Finding → Option Finding
side s at none = none
side s at (some f) = some (rewrite (verdict s at f) f)

-- What a category says of the findings as evaluated, `o` at `t` and `n` at `u`, and of the rules.
abbrev pub Says : Option Set → Time → Time → Category → Option Finding → Option Finding → Type 0
Says s t u resolved o n = (bad o ≡ true) × (bad n ≡ false)
Says s t u new_failure o n = (bad o ≡ false) × (bad n ≡ true) × (accepted_at s u n ≡ false)
Says s t u newly_suppressed o n = (accepted_at s t o ≡ false) × (accepted_at s u n ≡ true)
Says s t u regressed o n = (accepted_at s t o ≡ true) × (accepted_at s u n ≡ false) × (bad n ≡ true)
Says s t u verdict_changed o n =
    (bad o ≡ true)
    × (bad n ≡ true)
    × (accepted_at s t o ≡ accepted_at s u n)
    × (evaluated o ≢ evaluated n)

accepted_at-bad :
    (s : Option Set) (at : Time) (f : Option Finding) → accepted_at s at f ≡ true → bad f ≡ true
accepted_at-bad s at none h = absurd (ground arith)
accepted_at-bad s at (some f) h = accept-bad (verdict s at f) h (λ r. verdict-accept s at f r)
  where
    accept-bad :
        (d : Decision)
        → accepts d ≡ true
        → ((r : Rule) → d ≡ accept r → actionable f ≡ true)
        → actionable f ≡ true
    accept-bad keep h k = absurd (ground arith)
    accept-bad (lapsed r) h k = absurd (ground arith)
    accept-bad (accept r) h k = k r refl

-- What `diff` reads off a finding on which a decision was carried out.
record Reads (d : Decision) (f : Finding) : Type 0 where
  is_failing : failing (some (rewrite d f)) ≡ actionable f
  is_suppressed : suppressed (some (rewrite d f)) ≡ accepts d
  is_underlying : underlying (some (rewrite d f)) ≡ f.result

rewrite-Reads : (d : Decision) (f : Finding) → f.suppression ≡ none → Reads d f
unfolding failing suppressed underlying rewrite
rewrite-Reads keep f h = record {
  is_failing = ground arith;
  is_suppressed = ground arith;
  is_underlying = ground arith;
}
rewrite-Reads (lapsed r) f h = record {
  is_failing = ground arith;
  is_suppressed = ground arith;
  is_underlying = ground arith;
}
rewrite-Reads (accept r) f h = record {
  is_failing = refl;
  is_suppressed = refl;
  is_underlying = refl;
}

-- The same of a side that may be absent.
record Shows (s : Option Set) (at : Time) (f : Option Finding) : Type 0 where
  is_failing : failing (side s at f) ≡ bad f
  is_suppressed : suppressed (side s at f) ≡ accepted_at s at f
  is_underlying : underlying (side s at f) ≡ evaluated f

side-Shows : (s : Option Set) (at : Time) (f : Option Finding) → Fresh f → Shows s at f
unfolding failing suppressed underlying
side-Shows s at none h = record { is_failing = refl; is_suppressed = refl; is_underlying = refl }
side-Shows s at (some f) h =
    let r = rewrite-Reads (verdict s at f) f h in
    record {
      is_failing = r.is_failing;
      is_suppressed = r.is_suppressed;
      is_underlying = r.is_underlying;
    }

-- For two findings that an evaluation yielded, with no suppression yet and either of them perhaps
-- absent, `classify` reports a category, after the set was applied to both, each at its own moment,
-- exactly if `Says` holds: the category is true of the results as evaluated and of the rules that were
-- live. A finding that is accepted now and was not then is newly suppressed whether or not it failed
-- before.
pub classify-side :
    (s : Option Set) (t u : Time) (o n : Option Finding) (cat : Category)
    → Fresh o
    → Fresh n
    → (classify (side s t o) (side s u n) ≡ some cat) ↔ Says s t u cat o n
unfolding classify
classify-side s t u o n cat p q =
    let x = side-Shows s t o p in
    let y = side-Shows s u n q in
    ground (
      arith,
      x.is_failing,
      x.is_suppressed,
      x.is_underlying,
      y.is_failing,
      y.is_suppressed,
      y.is_underlying,
      accepted_at-bad s t o,
      accepted_at-bad s u n,
      result_eq_iff (evaluated o) (evaluated n),
    )
