-- ===== src/Unit/Assemble/Laws.antt =====
-- What `Assemble` of internal/collect/unit/unit.go promises of a unit.
use plumbline.Unit.{is_present, unit_file, drop_in, Fragment, Request, SystemdUnit}
use plumbline.Unit.Parse.Laws.{Wanted, parse-Wanted}
use plumbline.Unit.Read.{read_fragment}
use plumbline.Unit.Assemble.{
  find_unit, Candidate, apply_winner, apply_winners, apply_drop_ins, base_unit, collect_layers,
  candidate_less, load_unit, absent_unit, assemble,
}
use plumbline.Host.{System}
use plumbline.Base.Sorting.{sort_by}
use plumbline.Base.{
  Str, ◌≡◌, refl, ◌∙◌, inl, inr, false, List, [], ◌∷◌, arith, Bool-cases, Option-cases, if_holds,
  All, All-append,
}

apply_winner-Wanted :
    (s : System) (req : Request) (w : Candidate) (u : SystemdUnit)
    → All (Wanted req) u.directives
    → All (Wanted req) (apply_winner s req w u).directives
unfolding apply_winner
apply_winner-Wanted s req w u h =
    elim (Bool-cases (is_present (read_fragment s w.path drop_in).0.state)) [
      | inl e ↦
          rw (e, apply_winner)
            (All-append (Wanted req) u.directives _ h (parse-Wanted _ w.path req))
      | inr e ↦ rw (e, apply_winner) h
    ]

apply_winners-Wanted :
    (s : System) (req : Request) (ws : List Candidate) (u : SystemdUnit)
    → All (Wanted req) u.directives
    → All (Wanted req) (apply_winners s req ws u).directives
unfolding apply_winners
apply_winners-Wanted s req [] u h = h
apply_winners-Wanted s req (w ∷ ws) u h =
    apply_winners-Wanted s req ws (apply_winner s req w u) (apply_winner-Wanted s req w u h)

apply_drop_ins-Wanted :
    (s : System) (req : Request) (u : SystemdUnit)
    → All (Wanted req) u.directives
    → All (Wanted req) (apply_drop_ins s req u).directives
unfolding apply_drop_ins
apply_drop_ins-Wanted s req u h =
    let l = collect_layers s req.name u.fragments in
    apply_winners-Wanted s req (sort_by candidate_less l.winners)
      (record u { fragments = l.fragments }) h

base_unit-Wanted :
    (req : Request) (refused : List Fragment) (path : Str) (r : Fragment × Str)
    → All (Wanted req) (base_unit req refused path r).directives
unfolding base_unit
base_unit-Wanted req refused path (f, bytes) = elim (Bool-cases (is_present f.state)) [
  | inl e ↦ rw (e, base_unit) (parse-Wanted bytes path req)
  | inr e ↦ rw (e, base_unit) tt
]

load_unit-Wanted :
    (s : System) (req : Request) (refused : List Fragment) (path : Str)
    → All (Wanted req) (load_unit s req refused path).directives
unfolding load_unit
load_unit-Wanted s req refused path =
    let u = base_unit req refused path (read_fragment s path unit_file) in
    let h = base_unit-Wanted req refused path (read_fragment s path unit_file) in
    if_holds (λ v. All (Wanted req) v.directives) (is_present u.state) {u = apply_drop_ins s req u}
      {v = u} (apply_drop_ins-Wanted s req u h) h

-- An assembled unit holds no directive that was not asked for, whatever the unit file and the drop-ins
-- contain: their other settings, secrets among them, are not kept.
pub assemble-Wanted : (s : System) (req : Request) → All (Wanted req) (assemble s req).directives
unfolding assemble absent_unit
assemble-Wanted s req = elim (Option-cases (find_unit s req.name).path) [
  | inl e ↦ rw (e, assemble) tt
  | inr (path, e) ↦ rw (e, assemble) (load_unit-Wanted s req (find_unit s req.name).refused path)
]

apply_winners-state :
    (s : System) (req : Request) (ws : List Candidate) (u : SystemdUnit)
    → (apply_winners s req ws u).state ≡ u.state
unfolding apply_winners apply_winner
apply_winners-state s req [] u = refl
apply_winners-state s req (w ∷ ws) u =
    apply_winners-state s req ws (apply_winner s req w u) ∙ ground arith

apply_drop_ins-state :
    (s : System) (req : Request) (u : SystemdUnit) → (apply_drop_ins s req u).state ≡ u.state
unfolding apply_drop_ins
apply_drop_ins-state s req u =
    let l = collect_layers s req.name u.fragments in
    apply_winners-state s req (sort_by candidate_less l.winners)
      (record u { fragments = l.fragments })

load_unit-state :
    (s : System) (req : Request) (refused : List Fragment) (path : Str)
    → is_present (load_unit s req refused path).state ≡ false
    → (load_unit s req refused path).directives ≡ []
unfolding load_unit base_unit
load_unit-state s req refused path h = ground (
  arith,
  apply_drop_ins-state s req (base_unit req refused path (read_fragment s path unit_file)),
)

-- A unit that may not be judged, because it is absent, masked or could not be read, has no directives.
pub assemble-is_present :
    (s : System) (req : Request)
    → is_present (assemble s req).state ≡ false
    → (assemble s req).directives ≡ []
unfolding assemble absent_unit
assemble-is_present s req h = elim (Option-cases (find_unit s req.name).path) [
  | inl e ↦ rw (e, assemble) refl
  | inr (path, e) ↦
      rw (e, assemble) (load_unit-state s req (find_unit s req.name).refused path (ground arith))
]
