-- ===== src/Catalog/Holds.antt =====
-- What `New` of internal/catalog/catalog.go keeps of the checks that it is given, and the evaluation
-- of checks that a catalog holds.
use plumbline.Catalog.{
  Check, Catalog, built, validate, build_all, evaluate_one, check_or_zero, evaluate_order,
}
use plumbline.Fact.{Set}
use mathlib.Core.Path.{subst, ap₂}
use mathlib.Core.List.{append_assoc, append-nil}
use plumbline.Base.{
  Str, str_eq_iff, ◌≡◌, refl, sym, ap, ◌∙◌, inl, inr, Bool, true, false, some, List, [], ◌∷◌, ◌++◌,
  map, arith, Bool-cases, Option-cases, is_some, All,
}
use plumbline.Base.Maps.{
  lookup, insert, contains, Distinct, Distinct-append, contains-append, lookup-insert,
  lookup-insert_self,
}

pub built-inj : {V : Type 0} {c d : Catalog V} → built c ≡ built d → c ≡ d
built-inj h = ground arith

module _ {V : Type 0} where
  unfoldable pub add_check : Check V → Catalog V → Catalog V
  add_check ck c = record { checks = insert ck.id ck c.checks; order = c.order ++ ck.id ∷ [] }

  -- Checks that a catalog holds under their IDs are evaluated in the order in which they are listed.
  pub evaluate_order-map :
      (c : Catalog V) (facts : Set V) (observed : Bool) (cks : List (Check V))
      → All (λ ck. lookup ck.id c.checks ≡ some ck) cks
      → (evaluate_order c facts observed (map (λ ck. ck.id) cks)).0
        ≡ map (λ ck. evaluate_one ck facts) cks
  unfolding evaluate_order check_or_zero
  evaluate_order-map c facts observed [] h = refl
  evaluate_order-map c facts observed (ck ∷ cks) h =
      ap₂ (λ o fs. evaluate_one (check_or_zero o) facts ∷ fs) h.0
        (evaluate_order-map c facts observed cks h.1)

  pub evaluate_order-told :
      (c : Catalog V) (facts : Set V) (order : List Str)
      → (evaluate_order c facts true order).1 ≡ (evaluate_order c facts true order).0
  unfolding evaluate_order
  evaluate_order-told c facts [] = refl
  evaluate_order-told c facts (id ∷ rest) =
      ap (λ l. evaluate_one (check_or_zero (lookup id c.checks)) facts ∷ l)
        (evaluate_order-told c facts rest)

  -- An observer changes no finding.
  pub evaluate_order-quiet :
      (c : Catalog V) (facts : Set V) (order : List Str)
      → (evaluate_order c facts true order).0 ≡ (evaluate_order c facts false order).0
  unfolding evaluate_order
  evaluate_order-quiet c facts [] = refl
  evaluate_order-quiet c facts (id ∷ rest) =
      ap (λ l. evaluate_one (check_or_zero (lookup id c.checks)) facts ∷ l)
        (evaluate_order-quiet c facts rest)

  -- What `New` has built from a list of checks, behind the catalog it began with.
  pub record Holds (cks : List (Check V)) (c d : Catalog V) : Type 0 where
    pub listed : d.order ≡ c.order ++ map (λ ck. ck.id) cks
    pub held : All (λ ck. lookup ck.id d.checks ≡ some ck) cks
    pub kept :
        (id : Str) (ck : Check V) → lookup id c.checks ≡ some ck → lookup id d.checks ≡ some ck
    pub distinct : Distinct c.order → Distinct d.order

  pub build_all-Holds :
      (cks : List (Check V)) (c : Catalog V) {d : Catalog V}
      → build_all cks c ≡ built d
      → ((id : Str) → contains c.order id ≡ is_some (lookup id c.checks))
      → Holds cks c d
  unfolding build_all add_check
  build_all-Holds [] c h s = subst (Holds [] c) (built-inj h) (record {
    listed = sym (append-nil c.order);
    held = tt;
    kept = λ id ck e. e;
    distinct = λ k. k;
  })
  build_all-Holds (ck ∷ cks) c {d} h s = elim (Option-cases (validate ck)) [
    | inr (e, r) ↦ absurd (ground arith)
    | inl r ↦ elim (Bool-cases (is_some (lookup ck.id c.checks))) [
      | inl k ↦ absurd (ground arith)
      | inr k ↦
          let rest = build_all-Holds cks (add_check ck c) {d = d} (ground arith) (λ id.
            ground (
              arith,
              lookup-insert ck.id id ck c.checks,
              contains-append c.order ck.id id,
              s id,
            )) in
          record {
            listed =
                rest.listed ∙ append_assoc c.order (ck.id ∷ []) (map (λ (k : Check V). k.id) cks);
            held = (rest.kept ck.id ck (lookup-insert_self ck.id ck c.checks), rest.held);
            kept = λ id old e.
                rest.kept id old
                  (ground (arith, lookup-insert ck.id id ck c.checks, str_eq_iff ck.id id));
            distinct = λ u. rest.distinct (Distinct-append c.order ck.id u (s ck.id ∙ k));
          }
    ]
  ]
