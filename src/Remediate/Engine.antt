-- ===== src/Remediate/Engine.antt =====
-- `Generate`, the registry of fixes and `helpersFor` of internal/remediate/engine.go. The fixes of a build are a
-- map that the functions take, and so are the texts of its shell helpers.
pub mod Laws
pub mod Calls
pub mod Helpers
use plumbline.Finding.{Finding, Result, fail}
use plumbline.Base.Text.{has_prefix}
use plumbline.Base.Maps.{Map, lookup, insert}
use plumbline.Base.Sorting.{sort_by}
use plumbline.Base.{
  any, Str, codes, is_empty, str_eq, str_ltb, ℕ, zero, suc, Bool, true, false, not, ◌&&◌, ◌||◌,
  Option, none, some, List, [], ◌∷◌, ◌++◌, if◌then◌else◌, is_some, length,
}

abbrev pub default_drop_in : Str
default_drop_in = codes "/etc/sysctl.d/99-plumbline-hardening.conf"

abbrev pub default_unit_dir : Str
default_unit_dir = codes "/etc/systemd/system"

pub record Options : Type 0 where
  pub drop_in : Str
  pub unit_dir : Str

pub record Action : Type 0 where
  pub check_id : Str
  pub title : Str
  pub notes : List Str
  pub commands : List Str
  pub sysctl_pairs : Map Str

-- `Fix`
pub record Fix : Type 0 where
  pub check_id : Str
  pub build : Finding → Options → Option Action

-- `register`: no result is the panic.
unfoldable pub register : Fix → Map Fix → Option (Map Fix)
register f registry =
    if is_some (lookup f.check_id registry) then none else some (insert f.check_id f registry)

unfoldable pub fixable : Map Fix → Str → Bool
fixable registry check_id = is_some (lookup check_id registry)

pub record Plan : Type 0 where
  pub actions : List Action
  pub unit_dir : Str
  pub unfixable : List Finding
  pub drop_in : Str

-- `Pairs`: a later action overwrites an earlier one.
put_pairs : Map Str → Map Str → Map Str
put_pairs [] out = out
put_pairs ((k, v) ∷ rest) out = put_pairs rest (insert k v out)

pairs_from : List Action → Map Str → Map Str
unfolding put_pairs
pairs_from [] out = out
pairs_from (a ∷ rest) out = pairs_from rest (put_pairs a.sysctl_pairs out)

unfoldable pub pairs : Plan → Map Str
unfolding pairs_from
pairs p = pairs_from p.actions []

is_fail : Result → Bool
is_fail fail = true
is_fail _ = false

-- The filter of `Generate`.
unfoldable pub eligible : Finding → Bool
unfolding is_fail
eligible f = is_fail f.result && not (is_some f.suppression)

add_unfixable : Finding → Plan → Plan
add_unfixable f p = record p { unfixable = p.unfixable ++ f ∷ [] }

add_action : Action → Plan → Plan
add_action a p = record p { actions = p.actions ++ a ∷ [] }

-- The action for a finding, if a fix is registered and does not decline.
pub build_action : Map Fix → Options → Finding → Option Action
build_action registry opts f = elim (lookup f.check_id registry) [
  | none ↦ none
  | some fix ↦ fix.build f opts
]

-- One round of the loop.
plan_finding : Map Fix → Options → Finding → Plan → Plan
unfolding add_unfixable add_action
plan_finding registry opts f p =
    if not (eligible f) then p else elim (build_action registry opts f) [
      | none ↦ add_unfixable f p
      | some action ↦ add_action action p
    ]

plan_findings : Map Fix → Options → List Finding → Plan → Plan
plan_findings registry opts [] p = p
plan_findings registry opts (f ∷ fs) p =
    plan_findings registry opts fs (plan_finding registry opts f p)

action_less : Action → Action → Bool
action_less a b = str_ltb a.check_id b.check_id

finding_less : Finding → Finding → Bool
finding_less a b = str_ltb a.check_id b.check_id

or_default : Str → Str → Str
or_default text default = if is_empty text then default else text

-- `Generate`. `sort.Slice` does not say in which order it leaves two entries of one check; here it is the
-- order of the findings.
unfoldable pub generate : Map Fix → List Finding → Options → Plan
unfolding plan_findings plan_finding eligible build_action action_less finding_less or_default
generate registry findings opts =
    let p = plan_findings registry opts findings (record {
      actions = [];
      unit_dir = or_default opts.unit_dir default_unit_dir;
      unfixable = [];
      drop_in = or_default opts.drop_in default_drop_in;
    }) in
    record p {
      actions = sort_by action_less p.actions;
      unfixable = sort_by finding_less p.unfixable;
    }

-- One shell function that a script may need, and the call that says so.
pub record Helper : Type 0 where
  pub call : Str
  pub body : Str

-- `strings.Contains`
unfoldable pub occurs : Str → Str → Bool
unfolding has_prefix
occurs [] part = has_prefix [] part
occurs (c ∷ cs) part = has_prefix (c ∷ cs) part || occurs cs part

-- The variables of `helpersFor`.
pub record Scan : Type 0 where
  pub want : List Str
  pub text : Str
  pub changed : Bool

-- `want[call]`
pub want_of : List Str → Str → Bool
want_of want call = any (λ k. str_eq k call) want

-- One helper in the inner loop.
scan_helper : Helper → Scan → Scan
scan_helper h s =
    if want_of s.want h.call || not (occurs s.text h.call)
    then s
    else record { want = h.call ∷ s.want; text = s.text ++ h.body; changed = true }

scan_helpers : List Helper → Scan → Scan
scan_helpers [] s = s
scan_helpers (h ∷ hs) s = scan_helpers hs (scan_helper h s)

pub data Wanted : Type 0 where
  wanted : List Str → Wanted
  out_of_fuel : Wanted

-- The outer loop, as long as something changed.
scan_all : List Helper → ℕ → Scan → Wanted
scan_all helpers zero s = out_of_fuel
scan_all helpers (suc fuel) s =
    let s' = scan_helpers helpers (record s { changed = false }) in
    elim s'.changed [ true ↦ scan_all helpers fuel s' | false ↦ wanted s'.want ]

pub bodies : List Helper → List Str → List Str
unfolding want_of
bodies [] want = []
bodies (h ∷ hs) want =
    let rest = bodies hs want in if want_of want h.call then h.body ∷ rest else rest

-- `helpersFor`; no result is an outer loop that has not ended after one round more than there are helpers.
unfoldable pub helpers_for : List Helper → Str → Option (List Str)
unfolding scan_all scan_helpers scan_helper bodies want_of
helpers_for helpers body =
    elim (scan_all helpers (suc (length helpers))
      (record { want = []; text = body; changed = false })) [
        | wanted want ↦ some (bodies helpers want)
        | out_of_fuel ↦ none
      ]
