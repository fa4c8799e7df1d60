-- ===== src/Collect/Registry/Rounds.antt =====
-- What the main loop of `Order` of internal/collect/collect.go maintains.
use plumbline.Base.Distinct.{
  contains-sort_strings, sort_strings-Distinct, contains-select, select-Distinct, outside,
  outside-append,
}
use plumbline.Base.Sorting.{sort_strings}
use plumbline.Base.Maps.{keys, contains, Distinct, contains-append, Distinct-append}
use plumbline.Collect.Registry.{
  Registry, known, ids, known_deps, counts, count, listed, Plan, take_ready,
}
use plumbline.Collect.Registry.Counting.{
  listed-counts, contains-ids, ids-Distinct, known_deps-Distinct,
}
use plumbline.Collect.Registry.Releasing.{
  out-release_all, count-release_all, ready-release_all, release_all-Distinct,
}
use mathlib.Core.List.{append_assoc, append-nil}
use mathlib.Core.Path.{subst}
use plumbline.Base.{
  tally, Str, str_eq, str_eq_iff, str_eq_refl, ◌+◌, ◌-◌, ◌≡◌, sym, ap, ◌∙◌, true, false, ◌&&◌, ◌||◌,
  List, [], ◌∷◌, ◌++◌, arith, ◌==◌, if◌then◌else◌, All,
}

-- Each collector stands after the registered collectors that it depends on; `before` has run already.
abbrev pub Respects : Registry → List Str → List Str → Type 0
Respects r before [] = Unit
Respects r before (x ∷ xs) =
    All (λ d. contains before d ≡ true) (known_deps r x) × Respects r (before ++ x ∷ []) xs

pub Respects-append :
    (r : Registry) (before l : List Str) (x : Str)
    → Respects r before l
    → All (λ d. contains (before ++ l) d ≡ true) (known_deps r x)
    → Respects r before (l ++ x ∷ [])
Respects-append r before [] x h k =
    (subst (λ m. All (λ d. contains m d ≡ true) (known_deps r x)) (append-nil before) k, tt)
Respects-append r before (y ∷ ys) x h k = (
  h.0,
  Respects-append r (before ++ y ∷ []) ys x h.1 (
      subst (λ m. All (λ d. contains m d ≡ true) (known_deps r x))
        (sym (append_assoc before (y ∷ []) ys)) k),
)

-- Nothing is outside, so everything is inside.
pub inside : (out l : List Str) → outside out l ≡ 0 → All (λ d. contains out d ≡ true) l
unfolding outside tally contains
inside out [] h = tt
inside out (x ∷ xs) h = (ground arith, inside out xs (ground arith))

module _ (r : Registry) where
  pub record Inv (p : Plan) : Type 0 where
    pub counted : (x : Str) → known r x ≡ true → count p.indegree x ≡ outside p.out (known_deps r x)
    pub queued :
        (x : Str)
        → known r x ≡ true
        → (contains p.ready x || contains p.out x) ≡ (count p.indegree x == 0)
    pub waiting : (x : Str) → contains p.ready x ≡ true → known r x ≡ true
    pub done : (x : Str) → contains p.out x ≡ true → known r x ≡ true
    pub fresh : (x : Str) → contains p.ready x ≡ true → contains p.out x ≡ false
    pub distinct_ready : Distinct p.ready
    pub distinct_out : Distinct p.out
    pub respects : Respects r [] p.out

  -- The dependents of a collector, sorted.
  abbrev next_of : Str → List Str
  next_of id = sort_strings (listed (counts r).dependents id)

  contains-next_of :
      (id x : Str) → contains (next_of id) x ≡ (known r x && contains (known_deps r x) id)
  unfolding contains
  contains-next_of id x =
      contains-sort_strings (listed (counts r).dependents id) x
      ∙ ap (λ l. contains l x) (listed-counts r id)
      ∙ contains-select (λ y. contains (known_deps r y) id) (ids r) x
      ∙ ap (λ b. b && contains (known_deps r x) id) (contains-ids r x)

  next_of-Distinct : (id : Str) → Distinct (keys r) → Distinct (next_of id)
  next_of-Distinct id d = sort_strings-Distinct (listed (counts r).dependents id) (
      rw (listed-counts r id)
        (select-Distinct (λ y. contains (known_deps r y) id) (ids r) (ids-Distinct r d)))

  module _ (d : Distinct (keys r)) (p : Plan) (inv : Inv p) (id : Str) (rest : List Str)
      (taken : sort_strings p.ready ≡ id ∷ rest) where
    abbrev after : Plan
    after = record p { ready = rest; out = p.out ++ id ∷ [] }

    was_ready : (x : Str) → contains p.ready x ≡ (if str_eq id x then true else contains rest x)
    unfolding contains
    was_ready x = sym (contains-sort_strings p.ready x) ∙ ap (λ l. contains l x) taken

    head-Distinct : (contains rest id ≡ false) × Distinct rest
    head-Distinct = subst Distinct taken (sort_strings-Distinct p.ready inv.distinct_ready)

    pub id_fresh : (known r id ≡ true) × (contains p.out id ≡ false) × (count p.indegree id ≡ 0)
    id_fresh =
        let q : contains p.ready id ≡ true = ground (arith, was_ready id, str_eq_refl id) in
        let k = inv.waiting id q in (k, inv.fresh id q, ground (arith, inv.queued id k))

    count_after :
        (x : Str)
        → count (take_ready (counts r).dependents id rest p).indegree x ≡ (
            if known r x && contains (known_deps r x) id
            then count p.indegree x - 1
            else count p.indegree x)
    unfolding take_ready
    count_after x = ground (
      arith,
      count-release_all (next_of id) after x (next_of-Distinct id d),
      contains-next_of id x,
    )

    ready_after :
        (x : Str)
        → contains (take_ready (counts r).dependents id rest p).ready x ≡ (
            contains rest x
            || (known r x && contains (known_deps r x) id && count p.indegree x == 1))
    unfolding take_ready
    ready_after x = ground (
      arith,
      ready-release_all (next_of id) after x (next_of-Distinct id d),
      contains-next_of id x,
    )

    pub out_after : (take_ready (counts r).dependents id rest p).out ≡ p.out ++ id ∷ []
    unfolding take_ready
    out_after = out-release_all (next_of id) after

    in_out_after :
        (x : Str)
        → contains (take_ready (counts r).dependents id rest p).out x
          ≡ (if str_eq id x then true else contains p.out x)
    in_out_after x = ap (λ l. contains l x) out_after ∙ contains-append p.out id x

    -- The facts about one collector that the parts of the invariant follow from.
    outside_after :
        (x : Str)
        → outside p.out (known_deps r x)
          ≡ outside (take_ready (counts r).dependents id rest p).out (known_deps r x)
            + (if contains (known_deps r x) id then 1 else 0)
    outside_after x =
        rw out_after (outside-append p.out id (known_deps r x) (known_deps-Distinct r x) id_fresh.1)

    -- A count that has reached 0 is not counted down again.
    same_id : (x : Str) → str_eq id x ≡ true → (count p.indegree x ≡ 0) × (contains rest x ≡ false)
    same_id x e =
        let q = (str_eq_iff id x).0 e in
        (
          subst (λ y. count p.indegree y ≡ 0) q id_fresh.2,
          subst (λ y. contains rest y ≡ false) q head-Distinct.0,
        )

    ready_after-Distinct : Distinct (take_ready (counts r).dependents id rest p).ready
    unfolding take_ready
    ready_after-Distinct =
        release_all-Distinct (next_of id) after (next_of-Distinct id d) head-Distinct.1
          (λ x m e. ground (arith, contains-next_of id x, was_ready x, inv.queued x))

    pub take_ready-Inv : Inv (take_ready (counts r).dependents id rest p)
    take_ready-Inv = record {
      counted = λ x k. ground (arith, count_after x, outside_after x, inv.counted x k);
      queued = λ x k. ground (
        arith,
        count_after x,
        ready_after x,
        in_out_after x,
        was_ready x,
        outside_after x,
        inv.counted x k,
        inv.queued x k,
        same_id x,
      );
      waiting = λ x h. ground (arith, ready_after x, was_ready x, inv.waiting x);
      done = λ x h. ground (
        arith,
        in_out_after x,
        inv.done x,
        str_eq_iff id x,
        id_fresh.0,
        ap (known r) {x = id} {y = x},
      );
      fresh = λ x h. ground (
        arith,
        ready_after x,
        in_out_after x,
        was_ready x,
        inv.fresh x,
        inv.queued x,
        inv.counted x,
        outside_after x,
        same_id x,
      );
      distinct_ready = ready_after-Distinct;
      distinct_out = rw out_after (Distinct-append p.out id inv.distinct_out id_fresh.1);
      respects = rw out_after (
          Respects-append r [] p.out id inv.respects (
            inside p.out (known_deps r id)
              (ground (arith, id_fresh.2, inv.counted id id_fresh.0))));
    }
