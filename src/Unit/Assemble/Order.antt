-- ===== src/Unit/Assemble/Order.antt =====
-- The order in which `applyDropIns` of internal/collect/unit/unit.go applies drop-ins.
use plumbline.Unit.{Request, Fragment, SystemdUnit, Directive, is_present, unit_file, drop_in}
use plumbline.Unit.Assemble.{
  Candidate, Layers, apply_winner, base_unit, roots, apply_winners, apply_drop_ins, collect_layers,
  candidate_less, load_unit, assemble, find_unit,
}
use plumbline.Unit.Assemble.Shadow.{first_named, listing, Holds}
use plumbline.Unit.Assemble.Layered.{collect_layers-Winning}
use plumbline.Unit.Parse.{parse}
use plumbline.Unit.Read.{read_fragment}
use plumbline.Host.{System, FileInfo}
use plumbline.Go.Path.{base}
use plumbline.Base.Maps.{contains, contains-keys}
use plumbline.Base.Sorting.{sort_by, sort_by-All, any-sort_by, All-imp}
use mathlib.Core.List.{append_assoc, append-nil}
use plumbline.Base.Ascending.{Ascending, sort_by-Ascending}
use plumbline.Base.{
  any, Str, str_eq, ◌≡◌, refl, sym, ap, ◌∙◌, true, some, List, [], ◌∷◌, ◌++◌, map, arith,
  if◌then◌else◌, is_some, All,
}

-- What one drop-in contributes, if it could be read.
unfoldable pub contribution : System → Request → Candidate → List Directive
contribution s req w =
    if is_present (read_fragment s w.path drop_in).0.state
    then parse (read_fragment s w.path drop_in).1 w.path req
    else []

unfoldable pub contributions : System → Request → List Candidate → List Directive
unfolding contribution
contributions s req [] = []
contributions s req (w ∷ ws) = contribution s req w ++ contributions s req ws

apply_winner-contribution :
    (s : System) (req : Request) (w : Candidate) (u : SystemdUnit)
    → (apply_winner s req w u).directives ≡ u.directives ++ contribution s req w
unfolding apply_winner contribution
apply_winner-contribution s req w u = ground (arith, append-nil u.directives)

apply_winners-contributions :
    (s : System) (req : Request) (ws : List Candidate) (u : SystemdUnit)
    → (apply_winners s req ws u).directives ≡ u.directives ++ contributions s req ws
unfolding apply_winners contributions
apply_winners-contributions s req [] u = sym (append-nil u.directives)
apply_winners-contributions s req (w ∷ ws) u =
    apply_winners-contributions s req ws (apply_winner s req w u)
    ∙ ap (λ ds. ds ++ contributions s req ws) (apply_winner-contribution s req w u)
    ∙ append_assoc u.directives (contribution s req w) (contributions s req ws)

-- The drop-ins that apply to a unit, in the order of their names.
drop_ins : System → Request → List Fragment → List Candidate
drop_ins s req fs = sort_by candidate_less (collect_layers s req.name fs).winners

-- `es` are the entries of the drop-in directories of a unit, in the order of precedence. The candidates
-- `ws` are in the order in which they apply: the names of their files rise, so that no two are the
-- same. Each is the first drop-in of its name among the entries, and every name of a drop-in is there.
pub record InOrder (es : List FileInfo) (ws : List Candidate) : Type 0 where
  pub ascending : Ascending (λ w. base w.path) ws
  pub first : All (λ w. first_named (base w.path) es ≡ some w.path) ws
  pub every :
      (b : Str) → is_some (first_named b es) ≡ true → any (λ w. str_eq (base w.path) b) ws ≡ true

Ascending-base :
    (l : Layers) (ws : List Candidate)
    → All (Holds l) ws
    → Ascending (λ w. w.name) ws
    → Ascending (λ w. base w.path) ws
Ascending-base l [] d h = tt
Ascending-base l (w ∷ ws) d h = (
  All-imp_both ws (λ v p e. ground (arith, p.named, d.0.named)) d.1 h.0,
  Ascending-base l ws d.1 h.1,
)
  where
    All-imp_both :
        {A : Type 0} {P Q R : A → Type 0} (l : List A)
        → ((a : A) → P a → Q a → R a)
        → All P l
        → All Q l
        → All R l
    All-imp_both [] f h k = tt
    All-imp_both (a ∷ l) f h k = (f a h.0 k.0, All-imp_both l f h.1 k.1)

-- A name that a candidate bears is that of its file.
any-named :
    (l : Layers) (b : Str) (ws : List Candidate)
    → All (Holds l) ws
    → any (λ w. str_eq (base w.path) b) ws ≡ contains (map (λ w. w.name) ws) b
unfolding any contains
any-named l b [] h = refl
any-named l b (w ∷ ws) h = ground (arith, h.0.named, any-named l b ws h.1)

drop_ins-InOrder :
    (s : System) (req : Request) (fs : List Fragment)
    → InOrder (listing s req.name [] roots) (drop_ins s req fs)
unfolding drop_ins candidate_less
drop_ins-InOrder s req fs =
    let es = listing s req.name [] roots in
    let l = collect_layers s req.name fs in
    let h = collect_layers-Winning s req.name fs in
    let all = sort_by-All candidate_less (Holds l) l.winners h.holders in
    record {
      ascending =
          Ascending-base l (sort_by candidate_less l.winners) all
            (sort_by-Ascending (λ w. w.name) l.winners h.distinct);
      first =
          All-imp (Holds l) (λ w. first_named (base w.path) es ≡ some w.path)
            (sort_by candidate_less l.winners)
            (λ w k. ap (λ b. first_named b es) (sym k.named) ∙ sym (h.first w.name) ∙ k.won) all;
      every = λ b e.
          any-sort_by candidate_less (λ w. str_eq (base w.path) b) l.winners
          ∙ any-named l b l.winners h.holders
          ∙ ap (λ ks. contains ks b) (sym h.entries)
          ∙ contains-keys b l.seen_name
          ∙ ap is_some (h.first b)
          ∙ e;
    }

load_unit-contributions :
    (s : System) (req : Request) (refused : List Fragment) (path : Str)
    → is_present (load_unit s req refused path).state ≡ true
    → (load_unit s req refused path).directives
      ≡ parse (read_fragment s path unit_file).1 path req
        ++ contributions s req (drop_ins s req (refused ++ (read_fragment s path unit_file).0 ∷ []))
unfolding load_unit base_unit apply_drop_ins drop_ins
load_unit-contributions s req refused path h =
    let u = base_unit req refused path (read_fragment s path unit_file) in
    ground (
      arith,
      apply_winners-contributions s req (drop_ins s req u.fragments)
          (record u { fragments = (collect_layers s req.name u.fragments).fragments }),
    )

-- A unit that may be judged has the directives of its own file, followed by those of the drop-ins that
-- could be read, in strictly ascending order of their file names. Of the `.conf` files of one name in
-- the drop-in directories that can be listed, each directory being read once, it is the first in the
-- order of precedence, and no name is passed over.
pub assemble-Ascending :
    (s : System) (req : Request) (path : Str)
    → (find_unit s req.name).path ≡ some path
    → is_present (assemble s req).state ≡ true
    → (ws : List Candidate) × InOrder (listing s req.name [] roots) ws
      × ((assemble s req).directives
          ≡ parse (read_fragment s path unit_file).1 path req ++ contributions s req ws)
unfolding assemble
assemble-Ascending s req path e h =
    let refused = (find_unit s req.name).refused in
    let fs = refused ++ (read_fragment s path unit_file).0 ∷ [] in
    (
      drop_ins s req fs,
      drop_ins-InOrder s req fs,
      rw (e, assemble) (load_unit-contributions s req refused path (ground arith)),
    )
