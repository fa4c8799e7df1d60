-- ===== src/Diff/Tests.antt =====
-- Runs of internal/diff/diff.go.
use plumbline.Diff.{
  resolved, newly_suppressed, verdict_changed, classify, collect_changes, drifted, add_new,
  unpaired, new_only, pass_two, pass_one, add_old, suppressed, failing, underlying, index,
  sorted_keys, group_by_check, compare, change_less,
}
use plumbline.Diff.Classify.{Unmoved, Says, side, classify-none_iff, classify-side}
use plumbline.Diff.Compare.{Classified, compare-Classified}
use plumbline.Finding.{result_eq, fail, pass, unknown, high, critical, Finding}
use plumbline.Finding.Samples.{sample, accepted}
use plumbline.Suppress.{Rule, Set, decide, expires, accept, zero_time}
use plumbline.Suppress.Apply.{verdict}
use plumbline.Base.Maps.{lookup, keys, insert, contains}
use plumbline.Base.Sorting.{sort_by}
use plumbline.Base.{
  select, codes, str_eq, str_ltb, ◌≡◌, refl, ◌↔◌, none, some, List, [], ◌∷◌, map, All,
}

abbrev fixed : Finding
fixed = sample (codes "SSHD-0001") [] pass high

abbrev broken : Finding
broken = sample (codes "SSHD-0001") [] fail high

abbrev before : List Finding
before =
    broken
    ∷ sample (codes "SUID-0001") (codes "/usr/bin/a") unknown critical
    ∷ sample (codes "NET-0001") [] fail high
    ∷ []

-- One check is repaired, one names another subject, and one is accepted.
abbrev after : List Finding
after =
    fixed
    ∷ sample (codes "SUID-0001") (codes "/usr/bin/b") fail critical
    ∷ accepted (sample (codes "NET-0001") [] fail high)
    ∷ []

compare_categories :
    map (λ c. c.category) (compare before after)
    ≡ verdict_changed ∷ newly_suppressed ∷ resolved ∷ []
unfolding compare collect_changes drifted add_new unpaired new_only pass_two pass_one add_old index
    sorted_keys group_by_check lookup insert keys contains sort_by change_less classify suppressed
    failing underlying result_eq select str_eq str_ltb
compare_categories = refl

classify-none_iff_example :
    (classify (some broken) (some broken) ≡ none) ↔ Unmoved (some broken) (some broken)
classify-none_iff_example = classify-none_iff (some broken) (some broken)

abbrev rule : Rule
rule = record {
  fingerprint = broken.fingerprint;
  justification = codes "accepted";
  expires_at = [];
  check_id = [];
  subject = [];
  expires = zero_time;
}

abbrev risks : Set
risks = record { by_fingerprint = (broken.fingerprint, rule) ∷ []; order = broken.fingerprint ∷ [] }

-- A failure that was accepted, and has passed since: it is resolved.
classify-side_example :
    (classify (side (some risks) 100 (some broken)) (side (some risks) 200 (some fixed))
      ≡ some resolved)
    ↔ Says (some risks) 100 200 resolved (some broken) (some fixed)
classify-side_example =
    classify-side (some risks) 100 200 (some broken) (some fixed) resolved refl refl

verdict-broken : verdict (some risks) 100 broken ≡ accept rule
unfolding verdict decide result_eq lookup str_eq expires
verdict-broken = refl

compare-Classified_example : All Classified (compare before after)
compare-Classified_example = compare-Classified before after
