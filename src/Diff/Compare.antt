-- ===== src/Diff/Compare.antt =====
-- What `Compare` of internal/diff/diff.go reports of two lists of findings.
use plumbline.Finding.{Finding}
use plumbline.Diff.{
  pass_one, new_only, pass_two, drifted, Change, classify, add_change, append_found, index,
  sorted_keys, PassOne, join_step, join_all, only_new, group_by_check, Paired, pair_group, pair_all,
  unpaired, add_old, add_new, change_less, collect_changes, compare, change_check_id,
  change_subject, group_at,
}
use plumbline.Diff.Classify.{classify-none_iff}
use plumbline.Base.{
  select, Str, str_eq_iff, ◌≡◌, refl, ◌∙◌, inl, inr, true, false, Option, none, some, List, [], ◌∷◌,
  arith, Bool-cases, Option-cases, is_some, All, All-append_one,
}
use plumbline.Base.Maps.{Map, lookup, keys}
use plumbline.Base.Sorting.{
  sort_by, sort_by-All, sort_by-IsSorted, IsSorted, WeakOrder, sort_strings, str_ltb-asymm,
  str_ltb-not_trans,
}
use plumbline.Base.Text.{str_ltb-total}

-- Every change says what `classify` says of its two sides.
abbrev pub Classified : Change → Type 0
Classified c = classify c.old c.new ≡ some c.category

add_change-Classified :
    (o n : Option Finding) (cs : List Change)
    → All Classified cs
    → All Classified (add_change o n cs)
unfolding add_change
add_change-Classified o n cs h = elim (Option-cases (classify o n)) [
  | inl e ↦ rw (e, add_change) h
  | inr (cat, e) ↦ rw (e, add_change) (All-append_one Classified cs _ h e)
]

join_step-Classified :
    (old new : Map Finding) (fp : Str) (s : PassOne)
    → All Classified s.changes
    → All Classified (join_step old new fp s).changes
unfolding join_step
join_step-Classified old new fp s h = elim (Bool-cases (is_some (lookup fp new))) [
  | inl e ↦ rw (e, join_step) (add_change-Classified (lookup fp old) (lookup fp new) s.changes h)
  | inr e ↦ rw (e, join_step) h
]

join_all-Classified :
    (old new : Map Finding) (fps : List Str) (s : PassOne)
    → All Classified s.changes
    → All Classified (join_all old new fps s).changes
unfolding join_all
join_all-Classified old new [] s h = h
join_all-Classified old new (fp ∷ fps) s h =
    join_all-Classified old new fps (join_step old new fp s) (join_step-Classified old new fp s h)

pair_group-Classified :
    (id : Str) (os ns : List Finding) (p : Paired)
    → All Classified p.changes
    → All Classified (pair_group id os ns p).changes
unfolding pair_group
pair_group-Classified id [] ns p h = h
pair_group-Classified id (o ∷ []) [] p h = h
pair_group-Classified id (o ∷ []) (n ∷ []) p h = add_change-Classified (some o) (some n) p.changes h
pair_group-Classified id (o ∷ []) (n ∷ m ∷ ns) p h = h
pair_group-Classified id (o ∷ q ∷ os) ns p h = h

pair_all-Classified :
    (old new : Map (List Finding)) (ids : List Str) (p : Paired)
    → All Classified p.changes
    → All Classified (pair_all old new ids p).changes
unfolding pair_all
pair_all-Classified old new [] p h = h
pair_all-Classified old new (id ∷ ids) p h =
    pair_all-Classified old new ids _
      (pair_group-Classified id (group_at old id) (group_at new id) p h)

add_old-Classified :
    (fs : List Finding) (cs : List Change) → All Classified cs → All Classified (add_old fs cs)
unfolding add_old
add_old-Classified [] cs h = h
add_old-Classified (f ∷ fs) cs h =
    add_old-Classified fs _ (add_change-Classified (some f) none cs h)

add_new-Classified :
    (fs : List Finding) (cs : List Change) → All Classified cs → All Classified (add_new fs cs)
unfolding add_new
add_new-Classified [] cs h = h
add_new-Classified (f ∷ fs) cs h =
    add_new-Classified fs _ (add_change-Classified none (some f) cs h)

drifted-Classified :
    (old new : List Finding) (cs : List Change)
    → All Classified cs
    → All Classified (drifted old new cs)
unfolding drifted pass_two
drifted-Classified old new cs h =
    let p = pass_two old new cs in
    let ids = sort_strings (keys (group_by_check old)) in
    add_new-Classified (unpaired p new) (add_old (unpaired p old) p.changes) (
      add_old-Classified (unpaired p old) p.changes (
        pair_all-Classified (group_by_check old) (group_by_check new) ids
          (record { changes = cs; ids = [] }) h))

collect_changes-Classified : (old new : Map Finding) → All Classified (collect_changes old new)
unfolding collect_changes pass_one
collect_changes-Classified old new =
    drifted-Classified (pass_one old new).old_only (new_only old new) (pass_one old new).changes
      (join_all-Classified old new (sorted_keys old) (record { changes = []; old_only = [] }) tt)

-- Every change that `Compare` reports has the category that `classify` gives its two sides; so no
-- pair of sides is reported in which `classify` finds no change.
pub compare-Classified : (old next : List Finding) → All Classified (compare old next)
unfolding compare
compare-Classified old next =
    sort_by-All change_less Classified (collect_changes (index old) (index next))
      (collect_changes-Classified (index old) (index next))

change_less-asymm : (a b : Change) → change_less a b ≡ true → change_less b a ≡ false
unfolding change_less
change_less-asymm a b h = ground (
  arith,
  str_ltb-asymm (change_check_id a) (change_check_id b),
  str_ltb-asymm (change_subject a) (change_subject b),
  str_eq_iff (change_check_id a) (change_check_id b),
  str_eq_iff (change_check_id b) (change_check_id a),
)

change_less-not_trans :
    (a b c : Change) → change_less b a ≡ false → change_less c b ≡ false → change_less c a ≡ false
unfolding change_less
change_less-not_trans a b c h k = ground (
  arith,
  str_ltb-not_trans (change_check_id a) (change_check_id b) (change_check_id c),
  str_ltb-not_trans (change_subject a) (change_subject b) (change_subject c),
  str_ltb-total (change_check_id a) (change_check_id b),
  str_ltb-total (change_check_id b) (change_check_id c),
  str_ltb-asymm (change_check_id a) (change_check_id b),
  str_ltb-asymm (change_check_id b) (change_check_id c),
  str_ltb-asymm (change_check_id a) (change_check_id c),
  str_eq_iff (change_check_id c) (change_check_id a),
  str_eq_iff (change_check_id b) (change_check_id a),
  str_eq_iff (change_check_id c) (change_check_id b),
)

change_less-WeakOrder : WeakOrder change_less
change_less-WeakOrder = record { asymm = change_less-asymm; not_trans = change_less-not_trans }

-- The report is in order: by category in the order of `Categories`, then by check, then by subject.
pub compare-IsSorted : (old next : List Finding) → IsSorted change_less (compare old next)
unfolding compare
compare-IsSorted old next =
    sort_by-IsSorted change_less-WeakOrder (collect_changes (index old) (index next))

classify_self : (f : Option Finding) → classify f f ≡ none
classify_self f = (classify-none_iff f f).1 (refl, λ h. refl, λ h. h, λ h k. h)

-- Against itself a side joins every fingerprint to an equal one.
join_step_self : (m : Map Finding) (fp : Str) (s : PassOne) → join_step m m fp s ≡ s
unfolding join_step add_change append_found
join_step_self m fp s = ground (arith, classify_self (lookup fp m))

join_all_self : (m : Map Finding) (fps : List Str) (s : PassOne) → join_all m m fps s ≡ s
unfolding join_all
join_all_self m [] s = refl
join_all_self m (fp ∷ fps) s = join_all_self m fps (join_step m m fp s) ∙ join_step_self m fp s

only_new_self : (m : Map Finding) (fps : List Str) (fs : List Finding) → only_new m m fps fs ≡ fs
unfolding only_new append_found
only_new_self m [] fs = refl
only_new_self m (fp ∷ fps) fs = only_new_self m fps _ ∙ ground arith

drifted_nil : drifted [] [] [] ≡ []
unfolding drifted pass_two unpaired add_old add_new select group_by_check keys sort_by
drifted_nil = refl

collect_changes_self : (m : Map Finding) → collect_changes m m ≡ []
unfolding collect_changes
collect_changes_self m =
    let p : pass_one m m ≡ record { changes = []; old_only = [] } =
      unfold pass_one in join_all_self m (sorted_keys m) _ in
    let n : new_only m m ≡ [] = unfold new_only in only_new_self m (sorted_keys m) [] in
    rw (p, n) drifted_nil

-- Two identical evaluations show no change at all.
compare_self : (fs : List Finding) → compare fs fs ≡ []
unfolding compare sort_by
compare_self fs = rw (collect_changes_self (index fs))
