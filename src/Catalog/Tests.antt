-- ===== src/Catalog/Tests.antt =====
-- Runs of a catalog of one check.
use plumbline.Catalog.{
  Outcome, returned, Check, Catalog, built, new_catalog, validate, sort_order, build_all, call,
  gate_facts, gate_fact, fill_in, blank_finding, evaluate_one, evaluate, evaluate_with,
}
use plumbline.Catalog.Evaluate.{Usable, Identified, evaluate_one-Usable, evaluate_one-Identified}
use plumbline.Catalog.Build.{WellBuilt, in_order, new_catalog-WellBuilt, evaluate-order}
use plumbline.Base.Ascending.{Ascending}
use plumbline.Fact.{Set, err, ids, opaque}
use plumbline.Finding.{pass, unknown, high, no_reason}
use plumbline.Base.Maps.{lookup, insert, contains}
use plumbline.Base.Sorting.{sort_by}
use plumbline.Base.{
  codes, str_eq, str_ltb, ℕ, ◌≡◌, refl, ◌≢◌, true, none, some, [], ◌∷◌, map, arith, All,
}

abbrev passes : Outcome
passes = record {
  result = pass;
  unknown_reason = no_reason;
  subject = [];
  detail = codes "root may not log in";
  severity = high;
  evidence = [];
}

abbrev check : Check ℕ
check = record {
  id = codes "SSHD-0001";
  check_module = codes "SSHD";
  title = codes "root may not log in";
  description = [];
  base_severity = high;
  tags = [];
  requires = codes "sshd" ∷ [];
  eval = some (λ facts. returned passes);
  remediation = none;
  mappings = [];
  references = [];
  since_catalog = 1;
  deprecated = none;
}

abbrev facts : Set ℕ
facts = record {
  facts = (codes "sshd", record { id = codes "sshd"; version = 1; value = 0; opaque = none }) ∷ [];
  errors = [];
}

abbrev catalog : Catalog ℕ
catalog = record { checks = (codes "SSHD-0001", check) ∷ []; order = codes "SSHD-0001" ∷ [] }

built_catalog : new_catalog (check ∷ []) ≡ built catalog
unfolding new_catalog sort_order build_all validate lookup insert
built_catalog = refl

new_catalog-WellBuilt_example : WellBuilt catalog
new_catalog-WellBuilt_example = new_catalog-WellBuilt (check ∷ []) {c = catalog} built_catalog

-- Two checks, given in the wrong order.
abbrev other : Check ℕ
other = record check { id = codes "SSHD-0002" }

abbrev pair : Catalog ℕ
pair = record {
  checks = (codes "SSHD-0002", other) ∷ (codes "SSHD-0001", check) ∷ [];
  order = codes "SSHD-0001" ∷ codes "SSHD-0002" ∷ [];
}

built_pair : new_catalog (other ∷ check ∷ []) ≡ built pair
unfolding new_catalog sort_order build_all validate lookup insert str_eq str_ltb sort_by
built_pair = refl

evaluate-order_example :
    (evaluate pair facts ≡ map (λ ck. evaluate_one ck facts) (in_order (other ∷ check ∷ [])))
    × Ascending (λ ck. ck.id) (in_order (other ∷ check ∷ []))
    × ((evaluate_with pair facts true).1 ≡ evaluate pair facts)
evaluate-order_example = evaluate-order (other ∷ check ∷ []) {c = pair} facts built_pair

decided_pass : (evaluate_one check facts).result ≡ pass
unfolding evaluate_one gate_facts gate_fact call fill_in blank_finding err ids opaque lookup
    contains str_eq
decided_pass = refl

decided : (evaluate_one check facts).result ≢ unknown
decided h = ground (arith, decided_pass)

evaluate_one-Usable_example :
    All (Usable facts) check.requires
    × ((oc : Outcome) × (call check.eval facts ≡ returned oc)
        × (oc.result ≡ (evaluate_one check facts).result))
evaluate_one-Usable_example = evaluate_one-Usable check facts decided

evaluate_one-Identified_example : Identified check (evaluate_one check facts)
evaluate_one-Identified_example = evaluate_one-Identified check facts
