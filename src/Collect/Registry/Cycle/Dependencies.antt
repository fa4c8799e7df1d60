-- ===== src/Collect/Registry/Cycle/Dependencies.antt =====
-- The loop of `visit` in `findCycle` of internal/collect/collect.go over the dependencies of a collector.
use plumbline.Base.Maps.{contains}
use plumbline.Collect.Registry.{Registry, known, ids}
use plumbline.Collect.Registry.Cycle.{Walk, mark_of, Search, visit_deps}
use mathlib.Core.Path.{subst}
use plumbline.Collect.Registry.Cycle.Marks.{unvisited_in}
use plumbline.Collect.Registry.Cycle.Paths.{Leads, from_first-IsCycle}
use plumbline.Collect.Registry.Cycle.States.{
  State, Good, Good-and_then, Good-trans, Grown-refl, Visits, AllSettled, Mark-cases,
}
use plumbline.Base.{
  Str, str_eq, str_eq_iff, str_eq_refl, ℕ, ◌≤◌, ◌≡◌, sym, ap, inl, inr, true, List, [], ◌∷◌, arith,
  Bool-cases,
}

module _ (r : Registry) where
  pub AllSettled-cons :
      (d : Str) (ds more : List Str)
      → (known r d ≡ true → contains more d ≡ true)
      → AllSettled r ds more
      → AllSettled r (d ∷ ds) more
  unfolding contains
  AllSettled-cons d ds more h k x m e = elim (Bool-cases (str_eq d x)) [
    | inl q ↦
        let same = (str_eq_iff d x).0 q in
        ground (arith, h, ap (known r) same, ap (contains more) same)
    | inr q ↦ k x (ground arith) e
  ]

  pub visit_deps-Good :
      (n : ℕ) (go : Str → Walk → Search)
      → Visits r n go
      → (ds : List Str) (w : Walk) (settled : List Str) → State r w settled
      → unvisited_in w.marks (ids r) ≤ n
      → ((d : Str) → contains ds d ≡ true → known r d ≡ true → Leads r w.path d)
      → Good r w settled (AllSettled r ds) (visit_deps r go ds w)
  unfolding visit_deps contains
  visit_deps-Good n go v [] w settled s u h =
      (settled, Grown-refl r w settled s, λ d m k. absurd (ground arith))
  visit_deps-Good n go v (d ∷ ds) w settled s u h =
      let self : contains (d ∷ ds) d ≡ true = ground (arith, str_eq_refl d) in
      let h' : (x : Str) → contains ds x ≡ true → known r x ≡ true → Leads r w.path x =
        λ x m k. h x (ground arith) k in
      let skip = λ (f : known r d ≡ true → contains settled d ≡ true).
        Good-trans r w settled w settled (AllSettled r ds) (AllSettled r (d ∷ ds))
          (visit_deps r go ds w) (Grown-refl r w settled s)
          (visit_deps-Good n go v ds w settled s u h')
          (λ most keeps. AllSettled-cons d ds most (λ k. keeps d (f k))) in
      elim (Bool-cases (known r d)) [
        | inr e ↦ rw (e, visit_deps) (skip (λ k. absurd (ground arith)))
        | inl e ↦ elim (Mark-cases (mark_of w.marks d)) [
          | inl m ↦
              rw (e, m, visit_deps)
                (Good-and_then r w w settled (λ more. contains more d ≡ true)
                  (AllSettled r (d ∷ ds)) (visit_deps r go ds) (go d w)
                  (v d w settled s e m (h d self e) u)
                  (λ w' more g c.
                    Good-trans r w settled w' more (AllSettled r ds) (AllSettled r (d ∷ ds))
                      (visit_deps r go ds w') g
                      (visit_deps-Good n go v ds w' more g.state (omega (arith, g.fewer, u))
                        (λ x m' k. subst (λ p. Leads r p x) (sym g.same_path) (h' x m' k)))
                      (λ most keeps. AllSettled-cons d ds most (λ k. keeps d c))))
          | inr (inl m) ↦
              rw (e, m, visit_deps) (from_first-IsCycle r d w.path (s.on d m) s.chain (h d self e))
          | inr (inr m) ↦ rw (e, m, visit_deps) (skip (λ k. (s.closed_iff d).1 m))
        ]
      ]
