-- ===== src/Collect/Registry/Cycle/States.antt =====
-- What holds of the variables of `findCycle` of internal/collect/collect.go during the search.
use plumbline.Base.Maps.{contains}
use plumbline.Collect.Registry.{Registry, known, ids}
use plumbline.Collect.Registry.Order.{IsOrder}
use plumbline.Collect.Registry.Cycle.{
  Mark, unvisited, on_path, closed, Walk, mark_of, Search, cyclic, clear, too_deep, and_then,
}
use plumbline.Collect.Registry.Cycle.Marks.{unvisited_in}
use plumbline.Collect.Registry.Cycle.Paths.{Chain, Leads, IsCycle}
use plumbline.Base.{Str, ℕ, ◌≤◌, ◌≡◌, refl, ◌∙◌, ◌↔◌, ◌⊎◌, inl, inr, true, List, arith}

pub Mark-cases : (m : Mark) → (m ≡ unvisited) ⊎ ((m ≡ on_path) ⊎ (m ≡ closed))
Mark-cases unvisited = inl refl
Mark-cases on_path = inr (inl refl)
Mark-cases closed = inr (inr refl)

module _ (r : Registry) where
  -- `settled` lists the collectors that are closed, in the order in which they were closed.
  pub record State (w : Walk) (settled : List Str) : Type 0 where
    pub closed_iff : (x : Str) → (contains settled x ≡ true) ↔ (mark_of w.marks x ≡ closed)
    pub order : IsOrder r settled
    pub chain : Chain r w.path
    pub on : (x : Str) → mark_of w.marks x ≡ on_path → contains w.path x ≡ true

  -- What a part of the search that reports no cycle leaves behind.
  pub record Grown (w : Walk) (settled : List Str) (v : Walk) (more : List Str) : Type 0 where
    pub state : State v more
    pub same_path : v.path ≡ w.path
    pub keeps : (x : Str) → contains settled x ≡ true → contains more x ≡ true
    pub still : (x : Str) → mark_of w.marks x ≡ on_path → mark_of v.marks x ≡ on_path
    pub fewer : unvisited_in v.marks (ids r) ≤ unvisited_in w.marks (ids r)

  -- What a part of the search must come to; `Done` says what is settled behind it.
  abbrev pub Good : Walk → List Str → (List Str → Type 0) → Search → Type 0
  Good w settled Done (cyclic c) = IsCycle r c
  Good w settled Done (clear v) = (more : List Str) × Grown w settled v more × Done more
  Good w settled Done too_deep = ⊥

  pub Good-and_then :
      (w u : Walk) (settled : List Str) (P Q : List Str → Type 0) (f : Walk → Search) (o : Search)
      → Good w settled P o
      → ((v : Walk) (more : List Str) → Grown w settled v more → P more → Good u settled Q (f v))
      → Good u settled Q (and_then f o)
  unfolding and_then
  Good-and_then w u settled P Q f (cyclic c) g k = g
  Good-and_then w u settled P Q f (clear v) g k = k v g.0 g.1 g.2
  Good-and_then w u settled P Q f too_deep g k = absurd g

  Grown-trans :
      (w : Walk) (settled : List Str) (v : Walk) (more : List Str) (u : Walk) (most : List Str)
      → Grown w settled v more
      → Grown v more u most
      → Grown w settled u most
  Grown-trans w settled v more u most g h = record {
    state = h.state;
    same_path = h.same_path ∙ g.same_path;
    keeps = λ x k. h.keeps x (g.keeps x k);
    still = λ x k. h.still x (g.still x k);
    fewer = omega (arith, g.fewer, h.fewer);
  }

  pub Good-trans :
      (w : Walk) (settled : List Str) (v : Walk) (more : List Str) (P Q : List Str → Type 0)
      (o : Search)
      → Grown w settled v more
      → Good v more P o
      → ((most : List Str)
          → ((x : Str) → contains more x ≡ true → contains most x ≡ true)
          → P most
          → Q most)
      → Good w settled Q o
  Good-trans w settled v more P Q (cyclic c) g h k = h
  Good-trans w settled v more P Q (clear u) g h k =
      (h.0, Grown-trans w settled v more u h.0 g h.1, k h.0 h.1.keeps h.2)
  Good-trans w settled v more P Q too_deep g h k = h

  pub Grown-refl : (w : Walk) (settled : List Str) → State w settled → Grown w settled w settled
  Grown-refl w settled s = record {
    state = s;
    same_path = refl;
    keeps = λ x k. k;
    still = λ x k. k;
    fewer = omega arith;
  }

  -- What `visit` must come to where at most so many collectors have not been visited.
  abbrev pub Visits : ℕ → (Str → Walk → Search) → Type 0
  Visits n go =
      (id : Str) (w : Walk) (settled : List Str)
      → State w settled
      → known r id ≡ true
      → mark_of w.marks id ≡ unvisited
      → Leads r w.path id
      → unvisited_in w.marks (ids r) ≤ n
      → Good w settled (λ more. contains more id ≡ true) (go id w)

  -- All registered ones of a list are settled.
  abbrev pub AllSettled : List Str → List Str → Type 0
  AllSettled ds more = (d : Str) → contains ds d ≡ true → known r d ≡ true → contains more d ≡ true
