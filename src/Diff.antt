-- ===== src/Diff.antt =====
-- internal/diff/diff.go: what changed between two evaluations of a host. A `*finding.Finding` is an
-- `Option Finding`, with `none` for nil.
pub mod Classify
pub mod Compare
mod Tests
use plumbline.Finding.{Result, fail, unknown, unset, result_eq, Finding}
use plumbline.Base.{
  select, Str, str_eq, str_ltb, ℕ, Bool, true, false, not, ◌&&◌, ◌||◌, Option, none, some, List, [],
  ◌∷◌, ◌++◌, ltb, ◌==◌, if◌then◌else◌, is_some,
}
use plumbline.Base.Maps.{Map, lookup, insert, keys, contains}
use plumbline.Base.Sorting.{sort_by, sort_strings}

pub data Category : Type 0 where
  resolved new_failure newly_suppressed regressed verdict_changed : Category

Category-discrete : Discrete Category
Category-discrete = hlevel

pub record Change : Type 0 where
  pub category : Category
  pub old : Option Finding
  pub new : Option Finding

-- `*c.New` if it is there, else `*c.Old`; `none` where Go would dereference nil.
unfoldable change_finding : Option Finding → Option Finding → Option Finding
change_finding old (some n) = some n
change_finding old none = old

check_id_of : Option Finding → Str
check_id_of none = []
check_id_of (some f) = f.check_id

subject_of : Option Finding → Str
subject_of none = []
subject_of (some f) = f.subject

unfoldable pub change_check_id : Change → Str
unfolding check_id_of change_finding
change_check_id c = check_id_of (change_finding c.old c.new)

unfoldable pub change_subject : Change → Str
unfolding subject_of change_finding
change_subject c = subject_of (change_finding c.old c.new)

category_eq : Category → Category → Bool
category_eq resolved resolved = true
category_eq new_failure new_failure = true
category_eq newly_suppressed newly_suppressed = true
category_eq regressed regressed = true
category_eq verdict_changed verdict_changed = true
category_eq _ _ = false

-- `Result.Of`: the changes of one category, in order.
unfoldable changes_of : Category → List Change → List Change
unfolding category_eq select
changes_of cat = select (λ c. category_eq c.category cat)

-- The position of a category in `Categories`, the order of the report.
unfoldable rank : Category → ℕ
rank new_failure = 0
rank regressed = 1
rank verdict_changed = 2
rank newly_suppressed = 3
rank resolved = 4

unfoldable pub suppressed : Option Finding → Bool
suppressed none = false
suppressed (some f) = is_some f.suppression

-- The verdict that the check reached, seen through a suppression.
unfoldable pub underlying : Option Finding → Result
underlying none = unset
underlying (some f) = elim f.suppression [ none ↦ f.result | some s ↦ s.original_result ]

unfoldable pub failing : Option Finding → Bool
unfolding underlying result_eq
failing f = result_eq (underlying f) fail || result_eq (underlying f) unknown

unfoldable pub classify : Option Finding → Option Finding → Option Category
classify o n =
    if suppressed o && (not (suppressed n) && failing n)
    then some regressed
    else if not (suppressed o) && suppressed n
    then some newly_suppressed
    else if failing o && not (failing n)
    then some resolved
    else if not (failing o) && failing n
    then some new_failure
    else if failing o && (failing n && not (result_eq (underlying o) (underlying n)))
    then some verdict_changed
    else none

-- The closure `add` of `Compare`.
add_change : Option Finding → Option Finding → List Change → List Change
add_change o n changes = elim (classify o n) [
  | none ↦ changes
  | some cat ↦ changes ++ record { category = cat; old = o; new = n } ∷ []
]

index_onto : Map Finding → List Finding → Map Finding
index_onto m [] = m
index_onto m (f ∷ fs) = index_onto (insert f.fingerprint f m) fs

unfoldable pub index : List Finding → Map Finding
unfolding index_onto
index = index_onto []

unfoldable pub sorted_keys : Map Finding → List Str
unfolding keys sort_by
sorted_keys m = sort_strings (keys m)

-- A pointer that is appended to a slice; a missing key is unreachable for the keys of the map.
append_found : Option Finding → List Finding → List Finding
append_found none fs = fs
append_found (some f) fs = fs ++ f ∷ []

record PassOne : Type 0 where
  changes : List Change
  old_only : List Finding

-- The first loop of `Compare`.
join_step : Map Finding → Map Finding → Str → PassOne → PassOne
unfolding add_change append_found
join_step old new fp s =
    if is_some (lookup fp new)
    then record s { changes = add_change (lookup fp old) (lookup fp new) s.changes }
    else record s { old_only = append_found (lookup fp old) s.old_only }

join_all : Map Finding → Map Finding → List Str → PassOne → PassOne
unfolding join_step
join_all old new [] s = s
join_all old new (fp ∷ fps) s = join_all old new fps (join_step old new fp s)

-- The second loop of `Compare`.
only_new : Map Finding → Map Finding → List Str → List Finding → List Finding
unfolding append_found
only_new old new [] fs = fs
only_new old new (fp ∷ fps) fs =
    only_new old new fps (if is_some (lookup fp old) then fs else append_found (lookup fp new) fs)

-- `out[f.CheckID]`, the zero value of which is the empty slice.
group_at : Map (List Finding) → Str → List Finding
group_at m id = elim (lookup id m) [ none ↦ [] | some fs ↦ fs ]

group_onto : Map (List Finding) → List Finding → Map (List Finding)
unfolding group_at
group_onto m [] = m
group_onto m (f ∷ fs) = group_onto (insert f.check_id (group_at m f.check_id ++ f ∷ []) m) fs

unfoldable pub group_by_check : List Finding → Map (List Finding)
unfolding group_onto
group_by_check = group_onto []

record Paired : Type 0 where
  changes : List Change
  ids : List Str

-- One check of `pairBySingleton`: exactly one finding on each side.
pair_group : Str → List Finding → List Finding → Paired → Paired
unfolding add_change
pair_group id (o ∷ []) (n ∷ []) p = record {
  changes = add_change (some o) (some n) p.changes;
  ids = id ∷ p.ids;
}
pair_group id _ _ p = p

pair_all : Map (List Finding) → Map (List Finding) → List Str → Paired → Paired
unfolding pair_group group_at
pair_all old new [] p = p
pair_all old new (id ∷ ids) p =
    pair_all old new ids (pair_group id (group_at old id) (group_at new id) p)

-- The findings whose check was not paired.
unpaired : Paired → List Finding → List Finding
unpaired p = select (λ f. not (contains p.ids f.check_id))

add_old : List Finding → List Change → List Change
unfolding add_change
add_old [] cs = cs
add_old (f ∷ fs) cs = add_old fs (add_change (some f) none cs)

add_new : List Finding → List Change → List Change
unfolding add_change
add_new [] cs = cs
add_new (f ∷ fs) cs = add_new fs (add_change none (some f) cs)

-- The comparison of the final sort: by category, check and subject.
unfoldable pub change_less : Change → Change → Bool
unfolding rank change_check_id change_subject
change_less a b =
    if not (rank a.category == rank b.category)
    then ltb (rank a.category) (rank b.category)
    else if not (str_eq (change_check_id a) (change_check_id b))
    then str_ltb (change_check_id a) (change_check_id b)
    else str_ltb (change_subject a) (change_subject b)

-- Pass one: the fingerprints that are on both sides.
pass_one : Map Finding → Map Finding → PassOne
unfolding join_all
pass_one old new = join_all old new (sorted_keys old) (record { changes = []; old_only = [] })

new_only : Map Finding → Map Finding → List Finding
unfolding only_new
new_only old new = only_new old new (sorted_keys new) []

-- Pass two: `pairBySingleton` on what is on one side alone.
pass_two : List Finding → List Finding → List Change → Paired
unfolding pair_all
pass_two old new changes =
    pair_all (group_by_check old) (group_by_check new) (sort_strings (keys (group_by_check old)))
      (record { changes = changes; ids = [] })

-- The changes of what is on one side alone, behind those of pass one.
drifted : List Finding → List Finding → List Change → List Change
drifted old new changes =
    let p = pass_two old new changes in
    add_new (unpaired p new) (add_old (unpaired p old) p.changes)

-- The changes of two indexed sides before they are sorted.
collect_changes : Map Finding → Map Finding → List Change
collect_changes old new =
    drifted (pass_one old new).old_only (new_only old new) (pass_one old new).changes

pub compare : List Finding → List Finding → List Change
compare old next = sort_by change_less (collect_changes (index old) (index next))

-- `Empty`
unfoldable no_changes : List Change → Bool
no_changes [] = true
no_changes (c ∷ cs) = false
