-- ===== src/Collect/Registry/Cycle/Closing.antt =====
-- A collector is entered and, with all its dependencies settled, closed: `visit` in `findCycle` of
-- internal/collect/collect.go.
use plumbline.Base.Distinct.{contains-select}
use plumbline.Base.Maps.{contains, contains-append, Distinct-append}
use plumbline.Collect.Registry.{Registry, known, ids, dedupe, deps, known_deps}
use plumbline.Collect.Registry.Rounds.{Respects-append}
use plumbline.Collect.Registry.Cycle.{
  unvisited, on_path, closed, Walk, mark_of, enter, drop_end, leave,
}
use plumbline.Collect.Registry.Cycle.Marks.{mark_of-insert, unvisited_in, unvisited_in-insert}
use plumbline.Collect.Registry.Cycle.Paths.{Leads, Chain-append, drop_end-append}
use plumbline.Collect.Registry.Cycle.States.{State, Grown, AllSettled}
use plumbline.Base.{
  select, Str, str_eq, str_eq_iff, str_eq_refl, ◌≤◌, ◌≡◌, ap, ◌∙◌, inl, inr, true, false, List, [],
  ◌∷◌, ◌++◌, arith, if◌then◌else◌, Bool-cases, All,
}

module _ (r : Registry) where
  pub enter-State :
      (id : Str) (w : Walk) (settled : List Str)
      → State r w settled
      → mark_of w.marks id ≡ unvisited
      → Leads r w.path id
      → State r (enter id w) settled
  unfolding enter
  enter-State id w settled s m l = record {
    closed_iff = λ x. ground (
      arith,
      s.closed_iff x,
      mark_of-insert id x on_path w.marks,
      str_eq_iff id x,
      ap (mark_of w.marks) {x = id} {y = x},
    );
    order = s.order;
    chain = Chain-append r w.path id s.chain l;
    on = λ x h.
        ground (arith, s.on x, mark_of-insert id x on_path w.marks, contains-append w.path id x);
  }

  -- What a list holds, all of it.
  All_of : (P : Str → Type 0) (l : List Str) → ((x : Str) → contains l x ≡ true → P x) → All P l
  unfolding contains
  All_of P [] h = tt
  All_of P (x ∷ xs) h =
      (h x (ground (arith, str_eq_refl x)), All_of P xs (λ y m. h y (ground arith)))

  known_deps-settled :
      (id : Str) (more : List Str)
      → AllSettled r (dedupe (deps r id)) more
      → All (λ d. contains more d ≡ true) (known_deps r id)
  unfolding known_deps
  known_deps-settled id more h =
      All_of (λ d. contains more d ≡ true) (select (known r) (dedupe (deps r id)))
        (λ x m. ground (arith, h x, contains-select (known r) (dedupe (deps r id)) x))

  module _ (id : Str) (w : Walk) (settled : List Str) (s : State r w settled)
      (k : known r id ≡ true) (m : mark_of w.marks id ≡ unvisited) (v : Walk) (more : List Str)
      (g : Grown r (enter id w) settled v more) (a : AllSettled r (dedupe (deps r id)) more) where
    entered : mark_of v.marks id ≡ on_path
    unfolding enter
    entered = g.still id (ground (arith, mark_of-insert id id on_path w.marks, str_eq_refl id))

    id_open : contains more id ≡ false
    id_open = elim (Bool-cases (contains more id)) [
      | inl e ↦ absurd (ground (arith, g.state.closed_iff id, entered))
      | inr e ↦ e
    ]

    path_back : (leave id v).path ≡ w.path
    unfolding leave enter
    path_back = ap drop_end g.same_path ∙ drop_end-append w.path id

    mark_left :
        (x : Str)
        → mark_of (leave id v).marks x ≡ (if str_eq id x then closed else mark_of v.marks x)
    unfolding leave
    mark_left x = mark_of-insert id x closed v.marks

    mark_entered :
        (x : Str)
        → mark_of (enter id w).marks x ≡ (if str_eq id x then on_path else mark_of w.marks x)
    unfolding enter
    mark_entered x = mark_of-insert id x on_path w.marks

    still_on :
        (x : Str)
        → mark_of w.marks x ≡ on_path
        → (str_eq id x ≡ false) × (mark_of v.marks x ≡ on_path)
    still_on x h = elim (Bool-cases (str_eq id x)) [
      | inl e ↦ absurd (ground (arith, h, m, ap (mark_of w.marks) ((str_eq_iff id x).0 e)))
      | inr e ↦ (e, g.still x (ground (arith, mark_entered x)))
    ]

    in_entered :
        (x : Str) → contains (enter id w).path x ≡ (if str_eq id x then true else contains w.path x)
    unfolding enter
    in_entered x = contains-append w.path id x

    fewer_left : unvisited_in (leave id v).marks (ids r) ≤ unvisited_in w.marks (ids r)
    unfolding leave enter
    fewer_left = omega (
      arith,
      unvisited_in-insert id closed v.marks (ids r) (λ e. ground arith),
      g.fewer,
      unvisited_in-insert id on_path w.marks (ids r) (λ e. ground arith),
    )

    leave-State : State r (leave id v) (more ++ id ∷ [])
    leave-State = record {
      closed_iff =
          λ x. ground (arith, g.state.closed_iff x, mark_left x, contains-append more id x);
      order = record {
        distinct = Distinct-append more id g.state.order.distinct id_open;
        registered = λ x h. ground (
          arith,
          g.state.order.registered x,
          contains-append more id x,
          k,
          ap (known r) {x = id} {y = x},
          str_eq_iff id x,
        );
        respects =
            Respects-append r [] more id g.state.order.respects (known_deps-settled id more a);
      };
      chain = rw path_back s.chain;
      on = λ x h. ground (
        arith,
        mark_left x,
        g.state.on x,
        ap (λ p. contains p x) g.same_path,
        ap (λ p. contains p x) path_back,
        in_entered x,
      );
    }

    pub leave-Grown : Grown r w settled (leave id v) (more ++ id ∷ [])
    leave-Grown = record {
      state = leave-State;
      same_path = path_back;
      keeps = λ x h. ground (arith, g.keeps x h, contains-append more id x);
      still = λ x h. ground (arith, still_on x h, mark_left x);
      fewer = fewer_left;
    }
