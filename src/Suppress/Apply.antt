-- ===== src/Suppress/Apply.antt =====
-- What `Apply` of internal/suppress/suppress.go does to the findings and how it reports the rules.
use mathlib.Core.Path.{ap₂}
use plumbline.Finding.{skipped, result_eq, Finding, Suppression}
use plumbline.Suppress.{
  Time, Rule, Set, Decision, keep, lapsed, accept, decide, rewrite, Marks, rewrite_all, file_rule,
  file_rules, apply_set, apply, Outcome, actionable, decide_rule, rule_or_zero,
}
use plumbline.Base.{
  Str, ◌≡◌, refl, sym, ap, ◌∙◌, ◌⊎◌, inl, inr, true, Option, none, some, List, [], ◌∷◌, map, arith,
}
use plumbline.Base.Maps.{Map, lookup}

-- The decision for one finding under a set that may be nil.
unfoldable pub verdict : Option Set → Time → Finding → Decision
verdict none at f = keep
verdict (some s) at f = decide s at f

rewrite_all-map :
    (s : Set) (at : Time) (fs : List Finding)
    → rewrite_all s at fs ≡ map (λ f. rewrite (decide s at f) f) fs
unfolding rewrite_all
rewrite_all-map s at [] = refl
rewrite_all-map s at (f ∷ fs) = ap (◌∷◌ (rewrite (decide s at f) f)) (rewrite_all-map s at fs)

file_rules-findings :
    (m : Marks) (rules : Map Rule) (fps : List Str) (out : Outcome)
    → (file_rules m rules fps out).findings ≡ out.findings
unfolding file_rules file_rule
file_rules-findings m rules [] out = refl
file_rules-findings m rules (fp ∷ fps) out =
    file_rules-findings m rules fps (file_rule m fp (rule_or_zero (lookup fp rules)) out)
    ∙ ground arith

decide-nil :
    (o : List Str) (at : Time) (f : Finding)
    → decide (record { by_fingerprint = []; order = o }) at f ≡ keep
unfolding decide decide_rule lookup
decide-nil o at f = ground arith

rewrite-nil :
    (o : List Str) (at : Time) (fs : List Finding)
    → map (λ f. rewrite (decide (record { by_fingerprint = []; order = o }) at f) f) fs ≡ fs
unfolding rewrite
rewrite-nil o at [] = refl
rewrite-nil o at (f ∷ fs) = rw (decide-nil o at f) (ap (◌∷◌ f) (rewrite-nil o at fs))

findings_of_apply :
    (m : Map Rule) (o : List Str) (fs : List Finding) (at : Time)
    → (apply (some (record { by_fingerprint = m; order = o })) fs at).findings
      ≡ map (λ f. rewrite (decide (record { by_fingerprint = m; order = o }) at f) f) fs
unfolding apply apply_set
findings_of_apply [] o fs at = sym (rewrite-nil o at fs)
findings_of_apply (r ∷ rs) o fs at =
    file_rules-findings _ (r ∷ rs) o _
    ∙ rewrite_all-map (record { by_fingerprint = r ∷ rs; order = o }) at fs

rewrite_none : (fs : List Finding) → fs ≡ map (λ f. rewrite keep f) fs
unfolding rewrite
rewrite_none [] = refl
rewrite_none (f ∷ fs) = ap (◌∷◌ f) (rewrite_none fs)

-- `Apply` keeps every finding in its place, drops none, and rewrites each by its own decision.
pub apply-findings :
    (s : Option Set) (fs : List Finding) (at : Time)
    → (apply s fs at).findings ≡ map (λ f. rewrite (verdict s at f) f) fs
unfolding apply verdict
apply-findings none fs at = rewrite_none fs
apply-findings (some s) fs at = findings_of_apply s.by_fingerprint s.order fs at

-- A second decision on a finding that was rewritten keeps it.
rewrite_idem :
    (s : Option Set) (at : Time) (f : Finding)
    → rewrite (verdict s at (rewrite (verdict s at f) f)) (rewrite (verdict s at f) f)
      ≡ rewrite (verdict s at f) f
unfolding rewrite verdict decide decide_rule result_eq
rewrite_idem none at f = refl
rewrite_idem (some s) at f = ground arith

map-map_fix :
    (g : Finding → Finding) (fs : List Finding)
    → ((f : Finding) → g (g f) ≡ g f)
    → map g (map g fs) ≡ map g fs
map-map_fix g [] h = refl
map-map_fix g (f ∷ fs) h = ap₂ ◌∷◌ (h f) (map-map_fix g fs h)

-- Applying a set again, at the same moment, changes no finding.
apply_idem :
    (s : Option Set) (fs : List Finding) (at : Time)
    → (apply s (apply s fs at).findings at).findings ≡ (apply s fs at).findings
apply_idem s fs at =
    apply-findings s (apply s fs at).findings at
    ∙ ap (map (λ f. rewrite (verdict s at f) f)) (apply-findings s fs at)
    ∙ map-map_fix (λ f. rewrite (verdict s at f) f) fs (rewrite_idem s at)
    ∙ sym (apply-findings s fs at)

-- What a suppression may touch: a FAIL or an UNKNOWN becomes SKIPPED and says what it was; every
-- other field, and every other finding, is as it was.
abbrev pub Suppresses : Finding → Finding → Type 0
Suppresses f g =
    (g ≡ f)
    ⊎ ((x : Suppression) × (g ≡ record f { result = skipped; suppression = some x })
        × (x.original_result ≡ f.result)
        × (actionable f ≡ true))

rewrite-Suppresses_by :
    (d : Decision) (f : Finding)
    → ((r : Rule) → d ≡ accept r → actionable f ≡ true)
    → Suppresses f (rewrite d f)
unfolding rewrite
rewrite-Suppresses_by keep f h = inl refl
rewrite-Suppresses_by (lapsed r) f h = inl refl
rewrite-Suppresses_by (accept r) f h = inr (_, refl, refl, h r refl)

pub verdict-accept :
    (s : Option Set) (at : Time) (f : Finding) (r : Rule)
    → verdict s at f ≡ accept r
    → actionable f ≡ true
unfolding verdict decide
verdict-accept none at f r h = absurd (ground arith)
verdict-accept (some s) at f r h = ground arith

-- The finding that stands in the place of `f` is `f`, or `f` suppressed.
rewrite-Suppresses :
    (s : Option Set) (at : Time) (f : Finding) → Suppresses f (rewrite (verdict s at f) f)
rewrite-Suppresses s at f = rewrite-Suppresses_by (verdict s at f) f (verdict-accept s at f)

abbrev pub AllSuppresses : List Finding → List Finding → Type 0
AllSuppresses [] [] = Unit
AllSuppresses (f ∷ fs) (g ∷ gs) = Suppresses f g × AllSuppresses fs gs
AllSuppresses _ _ = ⊥

map-AllSuppresses :
    (s : Option Set) (at : Time) (fs : List Finding)
    → AllSuppresses fs (map (λ f. rewrite (verdict s at f) f) fs)
map-AllSuppresses s at [] = tt
map-AllSuppresses s at (f ∷ fs) = (rewrite-Suppresses s at f, map-AllSuppresses s at fs)

-- `Apply` returns as many findings as it was given, in their order. Each is unchanged, or it was
-- a FAIL or an UNKNOWN, is now SKIPPED, records which it was, and is otherwise unchanged.
pub apply-AllSuppresses :
    (s : Option Set) (fs : List Finding) (at : Time) → AllSuppresses fs (apply s fs at).findings
apply-AllSuppresses s fs at = rw apply-findings (map-AllSuppresses s at fs)
