-- ===== src/Collect/Registry/Cycle/Laws.antt =====
-- `findCycle` of internal/collect/collect.go ends; where it reports nothing there is an order, and what it
-- reports is a cycle.
use plumbline.Base.Distinct.{contains-select}
use plumbline.Base.Maps.{lookup, contains, contains-append}
use plumbline.Collect.Registry.{Registry, known, ids, dedupe, deps, known_deps}
use plumbline.Collect.Registry.Counting.{contains-ids}
use plumbline.Collect.Registry.Order.{IsOrder}
use plumbline.Collect.Registry.Cycle.{
  unvisited, on_path, closed, Walk, mark_of, Search, cyclic, clear, too_deep, enter, leave,
  visit_deps, visit, visit_all, find_cycle,
}
use mathlib.Core.Path.{subst}
use plumbline.Collect.Registry.Cycle.Marks.{unvisited_in, unvisited_in-visited, unvisited_in-start}
use plumbline.Collect.Registry.Cycle.Paths.{Leads, Leads-append, IsCycle}
use plumbline.Collect.Registry.Cycle.States.{
  State, Good, Good-and_then, Good-trans, Grown-refl, Visits, AllSettled, Mark-cases,
}
use plumbline.Collect.Registry.Cycle.Dependencies.{AllSettled-cons, visit_deps-Good}
use plumbline.Collect.Registry.Cycle.Closing.{enter-State, leave-Grown}
use plumbline.Base.{
  Str, str_eq_refl, ℕ, zero, suc, ◌≤◌, ◌≡◌, refl, sym, ap, ◌∙◌, inl, inr, true, List, [], ◌∷◌, ◌++◌,
  arith, length,
}

start_walk : Walk
start_walk = record { marks = []; path = [] }

module _ (r : Registry) where
  known_dep :
      (id d : Str)
      → contains (dedupe (deps r id)) d ≡ true
      → known r d ≡ true
      → contains (known_deps r id) d ≡ true
  unfolding known_deps
  known_dep id d m k = ground (arith, contains-select (known r) (dedupe (deps r id)) d)

  enter-Leads :
      (id : Str) (w : Walk) (d : Str)
      → contains (dedupe (deps r id)) d ≡ true
      → known r d ≡ true
      → Leads r (enter id w).path d
  unfolding enter
  enter-Leads id w d m k = Leads-append r w.path id d (known_dep id d m k)

  enter-fewer :
      (id : Str) (w : Walk) (n : ℕ)
      → known r id ≡ true
      → mark_of w.marks id ≡ unvisited
      → unvisited_in w.marks (ids r) ≤ suc n
      → unvisited_in (enter id w).marks (ids r) ≤ n
  unfolding enter
  enter-fewer id w n k m u = omega (
    arith,
    u,
    unvisited_in-visited id on_path w.marks (ids r) (λ e. ground arith) m (contains-ids r id ∙ k),
  )

  visit-Good : (fuel : ℕ) → Visits r fuel (visit r fuel)
  unfolding visit contains
  visit-Good zero id w settled s k m l u = absurd (
      omega (
        arith,
        u,
        unvisited_in-visited id closed w.marks (ids r) (λ e. ground arith) m
            (contains-ids r id ∙ k),
      ))
  visit-Good (suc fuel) id w settled s k m l u =
      let names = dedupe (deps r id) in
      Good-and_then r (enter id w) w settled (AllSettled r names) (λ more. contains more id ≡ true)
        (λ v. clear (leave id v)) (visit_deps r (visit r fuel) names (enter id w))
        (visit_deps-Good r fuel (visit r fuel) (visit-Good fuel) names (enter id w) settled
          (enter-State r id w settled s m l) (enter-fewer id w fuel k m u) (enter-Leads id w))
        (λ v more g a. (
          more ++ id ∷ [],
          leave-Grown r id w settled s k m v more g a,
          ground (arith, contains-append more id id, str_eq_refl id),
        ))

  visit_all-Good :
      (fuel : ℕ) (l : List Str) (w : Walk) (settled : List Str)
      → State r w settled
      → w.path ≡ []
      → unvisited_in w.marks (ids r) ≤ fuel
      → ((x : Str) → contains l x ≡ true → known r x ≡ true)
      → Good r w settled (AllSettled r l) (visit_all r fuel l w)
  unfolding visit_all contains
  visit_all-Good fuel [] w settled s p u h =
      (settled, Grown-refl r w settled s, λ d m k. absurd (ground arith))
  visit_all-Good fuel (d ∷ ds) w settled s p u h =
      let kd = h d (ground (arith, str_eq_refl d)) in
      let h' : (x : Str) → contains ds x ≡ true → known r x ≡ true = λ x m. h x (ground arith) in
      elim (Mark-cases (mark_of w.marks d)) [
        | inl m ↦
            rw (m, visit_all)
              (Good-and_then r w w settled (λ more. contains more d ≡ true) (AllSettled r (d ∷ ds))
                (visit_all r fuel ds) (visit r fuel d w)
                (visit-Good fuel d w settled s kd m (subst (λ q. Leads r q d) (sym p) tt) u)
                (λ w' more g c.
                  Good-trans r w settled w' more (AllSettled r ds) (AllSettled r (d ∷ ds))
                    (visit_all r fuel ds w') g
                    (visit_all-Good fuel ds w' more g.state (g.same_path ∙ p)
                      (omega (arith, g.fewer, u)) h')
                    (λ most keeps. AllSettled-cons r d ds most (λ k. keeps d c))))
        | inr (inl m) ↦ absurd (ground (arith, s.on d m, ap (λ q. contains q d) p))
        | inr (inr m) ↦
            rw (m, visit_all)
              (Good-trans r w settled w settled (AllSettled r ds) (AllSettled r (d ∷ ds))
                (visit_all r fuel ds w) (Grown-refl r w settled s)
                (visit_all-Good fuel ds w settled s p u h')
                (λ most keeps. AllSettled-cons r d ds most (λ k. keeps d ((s.closed_iff d).1 m))))
      ]

  start-State : State r start_walk []
  unfolding start_walk mark_of lookup contains
  start-State = record {
    closed_iff = λ x. ground arith;
    order = record { distinct = tt; registered = λ x m. absurd (ground arith); respects = tt };
    chain = tt;
    on = λ x h. absurd (ground arith);
  }

-- What the search for a cycle comes to: a path that is one, or nothing, and then there is an order of all
-- collectors. The fuel is never used up.
abbrev pub Verdict : Registry → Search → Type 0
Verdict r (cyclic c) = IsCycle r c
Verdict r (clear w) =
    (l : List Str) × IsOrder r l × ((x : Str) → known r x ≡ true → contains l x ≡ true)
Verdict r too_deep = ⊥

Good-Verdict :
    (r : Registry) (w : Walk) (settled : List Str) (o : Search)
    → Good r w settled (AllSettled r (ids r)) o
    → Verdict r o
Good-Verdict r w settled (cyclic c) g = g
Good-Verdict r w settled (clear v) g = (g.0, g.1.state.order, λ x k. g.2 x (contains-ids r x ∙ k) k)
Good-Verdict r w settled too_deep g = g

-- `findCycle` ends for every registry. A path that it reports starts and ends with one collector and
-- goes from each to one that it depends on; where it reports none there is an order of all collectors.
pub find_cycle-Verdict : (r : Registry) → Verdict r (find_cycle r)
unfolding find_cycle start_walk
find_cycle-Verdict r = Good-Verdict r start_walk [] (find_cycle r) (
    visit_all-Good r (length (ids r)) (ids r) start_walk [] (start-State r) refl
      (unvisited_in-start (ids r)) (λ x m. sym (contains-ids r x) ∙ m))
