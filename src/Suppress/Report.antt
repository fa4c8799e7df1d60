-- ===== src/Suppress/Report.antt =====
-- How `Apply` of internal/suppress/suppress.go files the rules: applied, expired or unmatched.
use mathlib.Core.List.{append_assoc, append-nil}
use mathlib.Core.Path.{fun_ext, ap₂}
use plumbline.Finding.{Finding}
use plumbline.Suppress.{
  Time, Rule, Set, lapsed, accept, decide, mark, mark_all, Marks, file_rule, file_rules, apply_set,
  apply, Outcome, rule_or_zero, rewrite_all, untouched,
}
use plumbline.Suppress.Valid.{IsValid}
use plumbline.Base.{
  select, any, Str, str_eq, ◌≡◌, refl, sym, ap, ◌∙◌, Bool, true, false, not, ◌&&◌, ◌||◌, some, List,
  [], ◌∷◌, ◌++◌, map, arith,
}
use plumbline.Base.Maps.{Map, lookup, contains, keys}

-- The finding is suppressed by the rule of a fingerprint, or would be had the rule not lapsed.
abbrev pub accepted_by : Set → Time → Str → Finding → Bool
accepted_by s at fp f = elim (decide s at f) [ accept r ↦ str_eq r.fingerprint fp | _ ↦ false ]

abbrev pub lapsed_for : Set → Time → Str → Finding → Bool
lapsed_for s at fp f = elim (decide s at f) [ lapsed r ↦ str_eq r.fingerprint fp | _ ↦ false ]

-- The rules of some fingerprints.
abbrev pub rules_of : Set → List Str → List Rule
rules_of s = map (λ fp. rule_or_zero (lookup fp s.by_fingerprint))

mark_all-contains :
    (s : Set) (at : Time) (fs : List Finding) (m : Marks) (fp : Str)
    → (contains (mark_all s at fs m).applied fp
        ≡ (any (accepted_by s at fp) fs || contains m.applied fp))
      × (contains (mark_all s at fs m).expired fp
          ≡ (any (lapsed_for s at fp) fs || contains m.expired fp))
unfolding mark_all mark any contains
mark_all-contains s at [] m fp = (refl, refl)
mark_all-contains s at (f ∷ fs) m fp =
    ground (arith, mark_all-contains s at fs (mark (decide s at f) m) fp)

abbrev rule_at : Map Rule → Str → Rule
rule_at rules fp = rule_or_zero (lookup fp rules)

abbrev in_applied : Marks → Str → Bool
in_applied m = contains m.applied

abbrev in_expired : Marks → Str → Bool
in_expired m fp = not (contains m.applied fp) && contains m.expired fp

abbrev in_neither : Marks → Str → Bool
in_neither m fp = not (contains m.applied fp) && not (contains m.expired fp)

-- Each fingerprint is filed under the first heading that fits.
abbrev Filed : Marks → Map Rule → List Str → Outcome → Outcome → Type 0
Filed m rules fps out out' =
    (out'.applied ≡ out.applied ++ map (rule_at rules) (select (in_applied m) fps))
    × (out'.expired ≡ out.expired ++ map (rule_at rules) (select (in_expired m) fps))
    × (out'.unmatched ≡ out.unmatched ++ map (rule_at rules) (select (in_neither m) fps))

file_rules-Filed :
    (m : Marks) (rules : Map Rule) (fps : List Str) (out : Outcome)
    → Filed m rules fps out (file_rules m rules fps out)
unfolding file_rules file_rule select
file_rules-Filed m rules [] out =
    (sym (append-nil out.applied), sym (append-nil out.expired), sym (append-nil out.unmatched))
file_rules-Filed m rules (fp ∷ fps) out =
    let rest = λ (p : Str → Bool). map (rule_at rules) (select p fps) in
    let one = rule_at rules fp ∷ [] in
    ground (
      arith,
      file_rules-Filed m rules fps (file_rule m fp (rule_at rules fp) out),
      append_assoc out.applied one (rest (in_applied m)),
      append_assoc out.expired one (rest (in_expired m)),
      append_assoc out.unmatched one (rest (in_neither m)),
    )

select-ext :
    {A : Type 0} (p q : A → Bool) (l : List A) → ((a : A) → p a ≡ q a) → select p l ≡ select q l
select-ext p q l h = ap (λ (r : _ → Bool). select r l) (fun_ext h)

-- How the rules are reported, told from the findings: a rule is applied if it suppressed some
-- finding, else expired if it lapsed for one, else unmatched.
abbrev pub Reported : Set → List Finding → Time → Outcome → Type 0
Reported s fs at out =
    (out.applied ≡ rules_of s (select (λ fp. any (accepted_by s at fp) fs) s.order))
    × (out.expired
        ≡ rules_of s (
            select (λ fp. not (any (accepted_by s at fp) fs) && any (lapsed_for s at fp) fs)
              s.order))
    × (out.unmatched
        ≡ rules_of s (
            select (λ fp. not (any (accepted_by s at fp) fs) && not (any (lapsed_for s at fp) fs))
              s.order))

or_false : (b : Bool) → (b || false) ≡ b
or_false true = refl
or_false false = refl

abbrev no_marks : Marks
no_marks = record { applied = []; expired = [] }

marks-any :
    (s : Set) (fs : List Finding) (at : Time) (fp : Str)
    → (contains (mark_all s at fs no_marks).applied fp ≡ any (accepted_by s at fp) fs)
      × (contains (mark_all s at fs no_marks).expired fp ≡ any (lapsed_for s at fp) fs)
unfolding contains
marks-any s fs at fp =
    let (a, e) = mark_all-contains s at fs no_marks fp in (a ∙ or_false _, e ∙ or_false _)

apply_set-Reported :
    (s : Set) (fs : List Finding) (at : Time) → Reported s fs at (apply_set s fs at)
unfolding apply_set
apply_set-Reported s fs at =
    let m = mark_all s at fs no_marks in
    let (a, e, u) = file_rules-Filed m s.by_fingerprint s.order (untouched (rewrite_all s at fs)) in
    let marks = marks-any s fs at in
    (
      a ∙ ap (rules_of s) (select-ext _ _ s.order (λ fp. (marks fp).0)),
      e
          ∙ ap (rules_of s)
              (select-ext _ _ s.order (λ fp. ap₂ (λ x y. not x && y) (marks fp).0 (marks fp).1)),
      u
          ∙ ap (rules_of s) (
              select-ext _ _ s.order (λ fp. ap₂ (λ x y. not x && not y) (marks fp).0 (marks fp).1)),
    )

headings_of_apply :
    (m : Map Rule) (o : List Str) (fs : List Finding) (at : Time)
    → o ≡ keys m
    → Reported
        (record { by_fingerprint = m; order = o })
        fs
        at
        (apply (some (record { by_fingerprint = m; order = o })) fs at)
unfolding apply keys select
headings_of_apply [] o fs at h = rw h (refl, refl, refl)
headings_of_apply (r ∷ rs) o fs at h =
    apply_set-Reported (record { by_fingerprint = r ∷ rs; order = o }) fs at

-- Of a set that was parsed, `Apply` reports each rule under exactly one heading, in file order:
-- applied if the rule suppressed some finding, else expired if some finding would have been
-- suppressed had the rule not lapsed, else unmatched.
pub apply-Reported :
    (s : Set) (fs : List Finding) (at : Time) → IsValid s → Reported s fs at (apply (some s) fs at)
apply-Reported s fs at v = headings_of_apply s.by_fingerprint s.order fs at v.order_keys
