-- ===== src/Collect/Registry/Order.antt =====
-- `Order` of internal/collect/collect.go: it ends, what it lists stands behind its dependencies, and it
-- lists everything if that is possible at all.
use plumbline.Base.Distinct.{
  contains-sort_strings, contains-select, select-Distinct, outside, outside-append, outside_nil,
}
use plumbline.Base.Sorting.{sort_strings, sort_by}
use plumbline.Base.Maps.{keys, contains, Distinct, contains-append}
use plumbline.Collect.Registry.{
  Registry, known, ids, known_deps, counts, count, Plan, take_ready, start, plan, planned, order,
}
use plumbline.Collect.Registry.Counting.{contains-ids, ids-Distinct, count-counts}
use plumbline.Collect.Registry.Rounds.{Respects, Inv, take_ready-Inv, out_after, id_fresh}
use plumbline.Base.{
  tally, Str, str_eq, str_eq_iff, str_eq_refl, ℕ, zero, suc, ◌≤◌, ◌≡◌, refl, sym, ap, ◌∙◌, ◌⊎◌, inl,
  inr, true, false, List, [], ◌∷◌, ◌++◌, arith, ◌==◌, Bool-cases, length, All,
}

contains-inside :
    (out l : List Str) (x : Str) → outside out l ≡ 0 → contains l x ≡ true → contains out x ≡ true
unfolding outside tally contains
contains-inside out [] x h k = absurd (ground arith)
contains-inside out (y ∷ ys) x h k =
    ground (arith, contains-inside out ys x, str_eq_iff y x, ap (contains out) {x = y} {y = x})

List-cases {ℓ} : {A : Type ℓ} (l : List A) → (l ≡ []) ⊎ ((x : A) × (xs : List A) × (l ≡ x ∷ xs))
List-cases [] = inl refl
List-cases (x ∷ xs) = inr (x, xs, refl)

module _ (r : Registry) (d : Distinct (keys r)) where
  -- Where every collector is in the plan, none is ready.
  none_ready : (p : Plan) → Inv r p → outside p.out (ids r) ≡ 0 → p.ready ≡ []
  unfolding contains
  none_ready p inv h = elim (List-cases p.ready) [
    | inl e ↦ e
    | inr (x, xs, e) ↦
        let m : contains p.ready x ≡ true =
          ground (arith, ap (λ l. contains l x) e, str_eq_refl x) in
        absurd (
          ground (
            arith,
            inv.fresh x m,
            inv.waiting x m,
            contains-ids r x,
            contains-inside p.out (ids r) x h,
          ))
  ]

  plan_ends :
      (fuel : ℕ) (p : Plan)
      → Inv r p
      → outside p.out (ids r) ≤ fuel
      → (q : Plan) × (plan (counts r).dependents fuel p ≡ planned q.out)
        × (sort_strings q.ready ≡ [])
        × Inv r q
  unfolding plan sort_by
  plan_ends zero p inv h =
      let e = none_ready p inv (omega arith) in (p, rw (e, plan) refl, ap sort_strings e, inv)
  plan_ends (suc fuel) p inv h = elim (List-cases (sort_strings p.ready)) [
    | inl e ↦ (p, rw (e, plan) refl, e, inv)
    | inr (id, rest, e) ↦
        let less =
          outside-append p.out id (ids r) (ids-Distinct r d) (id_fresh r d p inv id rest e).1 in
        let known_id = contains-ids r id ∙ (id_fresh r d p inv id rest e).0 in
        let same = ap (λ o. outside o (ids r)) (out_after r d p inv id rest e) in
        let (q, ends, empty, kept) =
          plan_ends fuel (take_ready (counts r).dependents id rest p)
            (take_ready-Inv r d p inv id rest e) (ground (arith, less, known_id, same, h)) in
        (q, rw (e, plan) ends, empty, kept)
  ]

  start-Inv : Inv r (start r)
  unfolding start contains
  start-Inv = record {
    counted = λ x k. count-counts r x d k ∙ sym (outside_nil (known_deps r x));
    queued = λ x k. ground (
      arith,
      contains-select (λ id. count (counts r).indegree id == 0) (ids r) x,
      contains-ids r x,
    );
    waiting = λ x h. ground (
      arith,
      contains-select (λ id. count (counts r).indegree id == 0) (ids r) x,
      contains-ids r x,
    );
    done = λ x h. absurd (ground arith);
    fresh = λ x h. refl;
    distinct_ready =
        select-Distinct (λ id. count (counts r).indegree id == 0) (ids r) (ids-Distinct r d);
    distinct_out = tt;
    respects = tt;
  }

outside_none :
    (out before l : List Str)
    → ((x : Str) → contains before x ≡ true → contains out x ≡ true)
    → All (λ x. contains before x ≡ true) l
    → outside out l ≡ 0
unfolding outside tally
outside_none out before [] b h = refl
outside_none out before (x ∷ xs) b h = ground (arith, b x h.0, outside_none out before xs b h.1)

-- A plan in which nothing is ready holds what stands in any list that respects the dependencies.
covered :
    (r : Registry) (q : Plan)
    → Inv r q
    → ((x : Str) → contains q.ready x ≡ false)
    → (before l : List Str) → ((x : Str) → contains l x ≡ true → known r x ≡ true)
    → Respects r before l
    → ((x : Str) → contains before x ≡ true → contains q.out x ≡ true)
    → (x : Str) → contains l x ≡ true
    → contains q.out x ≡ true
unfolding contains
covered r q inv none_left before [] k h b x m = absurd (ground arith)
covered r q inv none_left before (y ∷ ys) k h b x m =
    let ky = k y (ground (arith, str_eq_refl y)) in
    let yes_y : contains q.out y ≡ true = ground (
      arith,
      inv.queued y ky,
      inv.counted y ky,
      outside_none q.out before (known_deps r y) b h.0,
      none_left y,
    ) in
    let b' : (z : Str) → contains (before ++ y ∷ []) z ≡ true → contains q.out z ≡ true = λ z n.
      ground (
        arith,
        contains-append before y z,
        b z,
        str_eq_iff y z,
        yes_y,
        ap (contains q.out) {x = y} {y = z},
      ) in
    elim (Bool-cases (str_eq y x)) [
      | inl e ↦ ground (arith, yes_y, ap (contains q.out) ((str_eq_iff y x).0 e))
      | inr e ↦
          covered r q inv none_left (before ++ y ∷ []) ys (λ z n. k z (ground arith)) h.1 b' x
            (ground arith)
    ]

-- A list of collectors that is an order of the registry: no collector twice, none that is not
-- registered, and each after the registered ones that it depends on.
pub record IsOrder (r : Registry) (out : List Str) : Type 0 where
  pub distinct : Distinct out
  pub registered : (x : Str) → contains out x ≡ true → known r x ≡ true
  pub respects : Respects r [] out

-- For every registry with each ID once, also one with a cycle, the loop ends within one round for each
-- collector: what it returns is in order, and holds every collector that any order of the registry holds.
pub order-IsOrder :
    (r : Registry)
    → Distinct (keys r)
    → (out : List Str) × (order r ≡ planned out)
      × IsOrder r out
      × ((l : List Str) → IsOrder r l → (x : Str) → contains l x ≡ true → contains out x ≡ true)
unfolding order contains
order-IsOrder r d =
    let (q, ends, empty, inv) =
      plan_ends r d (length (ids r)) (start r) (start-Inv r d)
        (ground (arith, outside_nil (ids r))) in
    let none_left : (x : Str) → contains q.ready x ≡ false =
      λ x. sym (contains-sort_strings q.ready x) ∙ ap (λ l. contains l x) empty in
    (
      q.out,
      ends,
      record { distinct = inv.distinct_out; registered = inv.done; respects = inv.respects },
      λ l h. covered r q inv none_left [] l h.registered h.respects (λ x m. absurd (ground arith)),
    )
