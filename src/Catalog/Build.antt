-- ===== src/Catalog/Build.antt =====
-- What `New` of internal/catalog/catalog.go builds, and the order in which it is evaluated.
use plumbline.Catalog.{
  Check, Catalog, Built, built, refused, validate, build_all, sort_order, new_catalog, evaluate_one,
  evaluate_order, evaluate_with, evaluate,
}
use plumbline.Catalog.Holds.{
  built-inj, add_check, build_all-Holds, evaluate_order-map, evaluate_order-told,
  evaluate_order-quiet,
}
use plumbline.Fact.{Set}
use mathlib.Core.Path.{subst}
use plumbline.Base.{
  Str, str_ltb, str_eq_iff, ◌≡◌, refl, sym, ap, ◌∙◌, inl, inr, true, false, none, some, List, [],
  ◌∷◌, map, arith, Bool-cases, Option-cases, is_some, All, All-append_one,
}
use plumbline.Base.Maps.{lookup, insert, contains, Distinct, lookup-insert, lookup-insert_self}
use plumbline.Base.Ascending.{Ascending, sort_by-Ascending}
use plumbline.Base.Sorting.{
  sort_by, sort_strings, sort_by-map, sort_by-All, sort_by-IsSorted, IsSorted, str_ltb-WeakOrder,
  All-imp,
}

module _ {V : Type 0} where
  -- Every check stands under its own ID and passes validation, and the order names checks alone.
  pub record Valid (c : Catalog V) : Type 0 where
    pub checks :
        (id : Str) (ck : Check V)
        → lookup id c.checks ≡ some ck
        → (validate ck ≡ none) × (ck.id ≡ id)
    pub order : All (λ id. is_some (lookup id c.checks) ≡ true) c.order

  add_check-Valid :
      (ck : Check V) (c : Catalog V) → validate ck ≡ none → Valid c → Valid (add_check ck c)
  unfolding add_check
  add_check-Valid ck c h v = record {
    checks = λ id d e.
        ground (arith, lookup-insert ck.id id ck c.checks, v.checks id d, str_eq_iff ck.id id);
    order =
        All-append_one (λ id. is_some (lookup id (insert ck.id ck c.checks)) ≡ true) c.order ck.id
          (All-imp (λ id. is_some (lookup id c.checks) ≡ true)
            (λ id. is_some (lookup id (insert ck.id ck c.checks)) ≡ true) c.order
            (λ id e. ground (arith, lookup-insert ck.id id ck c.checks)) v.order)
          (rw (lookup-insert_self ck.id ck c.checks) refl);
  }

  build_all-Valid :
      (cks : List (Check V)) (c : Catalog V) {d : Catalog V}
      → build_all cks c ≡ built d
      → Valid c
      → Valid d
  unfolding build_all add_check
  build_all-Valid [] c h v = subst Valid (built-inj h) v
  build_all-Valid (ck ∷ cks) c {d} h v = elim (Option-cases (validate ck)) [
    | inr (e, r) ↦ absurd (ground arith)
    | inl r ↦ elim (Bool-cases (is_some (lookup ck.id c.checks))) [
      | inl k ↦ absurd (ground arith)
      | inr k ↦
          build_all-Valid cks (add_check ck c) {d = d} (ground arith) (add_check-Valid ck c r v)
    ]
  ]

  -- What a catalog that `New` returned promises: its checks are valid and stand under their IDs, and
  -- its order is sorted.
  pub record WellBuilt (c : Catalog V) : Type 0 where
    pub valid : Valid c
    pub sorted : IsSorted str_ltb c.order

  sort_order-WellBuilt :
      (b : Built V) {c : Catalog V}
      → ((d : Catalog V) → b ≡ built d → Valid d)
      → sort_order b ≡ built c
      → WellBuilt c
  unfolding sort_order
  sort_order-WellBuilt (refused e) v h = absurd (ground arith)
  sort_order-WellBuilt (built d) v h = subst WellBuilt (built-inj h) (record {
    valid = record {
      checks = (v d refl).checks;
      order =
          sort_by-All str_ltb (λ id. is_some (lookup id d.checks) ≡ true) d.order (v d refl).order;
    };
    sorted = sort_by-IsSorted str_ltb-WeakOrder d.order;
  })

  -- A catalog that `New` returns holds only checks that pass validation, each under its own ID, and
  -- its order is sorted and names nothing else.
  pub new_catalog-WellBuilt :
      (cks : List (Check V)) {c : Catalog V} → new_catalog cks ≡ built c → WellBuilt c
  unfolding new_catalog lookup
  new_catalog-WellBuilt cks {c} h =
      sort_order-WellBuilt (build_all cks (record { checks = []; order = [] })) {c = c}
        (λ d e.
          build_all-Valid cks (record { checks = []; order = [] }) {d = d} e
            (record { checks = λ id ck k. absurd (ground arith); order = tt }))
        h

  -- The checks in the order of their IDs.
  unfoldable pub in_order : List (Check V) → List (Check V)
  in_order = sort_by (λ a b. str_ltb a.id b.id)

  sort_order-order :
      (b : Built V) {c : Catalog V}
      → sort_order b ≡ built c
      → (d : Catalog V) × (b ≡ built d) × (c.checks ≡ d.checks) × (c.order ≡ sort_strings d.order)
  unfolding sort_order
  sort_order-order (refused e) h = absurd (ground arith)
  sort_order-order (built d) h = (d, refl, ground arith, ground arith)

  -- A catalog that `New` returned yields the finding of every check that `New` was given, each once,
  -- in ascending order of their IDs, which are distinct, whatever the facts are. An observer is told
  -- of each finding in that order.
  pub evaluate-order :
      (cks : List (Check V)) {c : Catalog V} (facts : Set V)
      → new_catalog cks ≡ built c
      → (evaluate c facts ≡ map (λ ck. evaluate_one ck facts) (in_order cks))
        × Ascending (λ ck. ck.id) (in_order cks)
        × ((evaluate_with c facts true).1 ≡ evaluate c facts)
  unfolding evaluate evaluate_with new_catalog in_order lookup contains
  evaluate-order cks {c} facts h =
      let empty : Catalog V = record { checks = []; order = [] } in
      let (d, e, same, sorted) = sort_order-order (build_all cks empty) {c = c} h in
      let holds = build_all-Holds cks empty {d = d} e (λ id. refl) in
      let found =
        evaluate_order-map c facts false (in_order cks)
          (sort_by-All _ (λ ck. lookup ck.id c.checks ≡ some ck) cks (rw same holds.held)) in
      let ids =
        sorted ∙ ap sort_strings holds.listed ∙ sym (sort_by-map (λ ck. ck.id) str_ltb cks) in
      (
        ap (λ o. (evaluate_order c facts false o).0) ids ∙ found,
        sort_by-Ascending (λ ck. ck.id) cks (subst Distinct holds.listed (holds.distinct tt)),
        evaluate_order-told c facts c.order ∙ evaluate_order-quiet c facts c.order,
      )
