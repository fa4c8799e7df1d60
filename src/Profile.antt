-- ===== src/Profile.antt =====
-- internal/profile/profile.go and `applyProfile` of internal/cli/profile.go: a declared baseline.
-- `path.Match` is a parameter: it answers whether a text matches, or that the pattern is malformed.
-- The JSON decoder is one too. A profile that may be nil is an `Option`.
pub mod Scope
mod Tests
use plumbline.Finding.{
  skipped, Severity, critical, high, medium, low, info, severity_name, no_reason, Finding,
}
use plumbline.Go.Space.{trim_space}
use plumbline.Base.{
  tally, any, Str, codes, str_eq, ℕ, Bool, false, not, ◌||◌, Option, none, some, List, [], ◌∷◌,
  ◌++◌, map, ◌==◌, if◌then◌else◌, is_some, length,
}
use plumbline.Base.Maps.{Map, lookup}

abbrev pub schema : Str
schema = codes "profile/v1"

abbrev default_id : Str
default_id = codes "default"

pub record Profile : Type 0 where
  pub schema : Str
  pub id : Str
  pub title : Str
  pub description : Str
  pub included : List Str
  pub excluded : List Str
  pub severity_overrides : Map Severity
  pub builtin : Bool

-- `path.Match(pattern, name)`, with `none` for `ErrBadPattern`.
abbrev pub PathMatch : Type 0
PathMatch = Str → Str → Option Bool

-- `err == nil && ok`
abbrev matched : Option Bool → Bool
matched none = false
matched (some ok) = ok

-- `Builtin` of a profile that may be nil.
unfoldable is_builtin : Option Profile → Bool
is_builtin none = false
is_builtin (some p) = p.builtin

-- `Name`
unfoldable name : Option Profile → Str
name none = default_id
name (some p) = p.id

-- `SeverityFor`
unfoldable pub severity_for : Profile → Str → Option Severity
unfolding lookup
severity_for p check_id = lookup check_id p.severity_overrides

module _ (path_match : PathMatch) where
  unfoldable pub match_any : List Str → Str → Bool
  unfolding any
  match_any patterns check_id = any (λ pattern. matched (path_match pattern check_id)) patterns

  -- `Excluded` is applied after `Included` and wins.
  unfoldable pub includes : Profile → Str → Bool
  unfolding match_any
  includes p check_id =
      if not (match_any p.included check_id) then false else not (match_any p.excluded check_id)

  -- `Count` of the check IDs that a profile, which may be nil, includes.
  unfoldable count : Option Profile → List Str → ℕ
  unfolding tally includes
  count none check_ids = length check_ids
  count (some p) check_ids = tally (includes p) check_ids

  -- What `Parse` refuses.
  pub data ParseError : Type 0 where
    invalid_json : ParseError
    wrong_schema : Str → ParseError
    no_id : ParseError
    no_title : Str → ParseError
    no_checks : Str → ParseError
    bad_pattern : Str → Str → ParseError
    bad_severity : Str → Str → Severity → ParseError
    override_pattern : Str → Str → ParseError

  valid_severity : Severity → Bool
  unfolding severity_name str_eq
  valid_severity s =
      any (str_eq (severity_name s))
        (map severity_name (critical ∷ high ∷ medium ∷ low ∷ info ∷ []))

  is_blank : Str → Bool
  unfolding trim_space
  is_blank s = length (trim_space s) == 0

  -- `strings.ContainsAny(id, "*?[")`
  has_wildcard : Str → Bool
  has_wildcard = any (λ c. c == b'*' || (c == b'?' || c == b'['))

  -- The first pattern that `path.Match` refuses.
  first_bad : List Str → Option Str
  first_bad [] = none
  first_bad (p ∷ ps) = if is_some (path_match p (codes "X-0000")) then first_bad ps else some p

  -- The loop over the overrides, in the order of the map.
  check_overrides : Str → Map Severity → Option ParseError
  unfolding valid_severity has_wildcard
  check_overrides id [] = none
  check_overrides id ((check, sev) ∷ rest) =
      if not (valid_severity sev)
      then some (bad_severity id check sev)
      else if has_wildcard check
      then some (override_pattern id check)
      else check_overrides id rest

  -- What `Parse` finds wrong with a decoded profile.
  profile_error : Profile → Option ParseError
  unfolding is_blank first_bad check_overrides
  profile_error p =
      if not (str_eq p.schema schema)
      then some (wrong_schema p.schema)
      else if is_blank p.id
      then some no_id
      else if is_blank p.title
      then some (no_title p.id)
      else if length p.included == 0
      then some (no_checks p.id)
      else elim (first_bad (p.included ++ p.excluded)) [
        | some pattern ↦ some (bad_pattern p.id pattern)
        | none ↦ check_overrides p.id p.severity_overrides
      ]

  pub data Parsed : Type 0 where
    ok : Profile → Parsed
    err : ParseError → Parsed

  -- `Parse`; `decode` is the JSON decoder with `DisallowUnknownFields`.
  unfoldable pub parse : (Str → Option Profile) → Str → Parsed
  unfolding profile_error
  parse decode bytes = elim (decode bytes) [
    | none ↦ err invalid_json
    | some p ↦ elim (profile_error p) [ some e ↦ err e | none ↦ ok p ]
  ]

  module _ (quote : Str → Str) where
    -- The detail of a finding that is out of scope; `quote` is the verb `%q`.
    pub out_of_scope_detail : Profile → Str
    out_of_scope_detail p =
        codes "Not in profile "
        ++ (quote p.id
            ++ (codes " ("
                ++ (p.title
                    ++ codes
                        "). The check was not evaluated, and it is outside the posture denominator rather than counted against this host.")))

    pub override : Option Severity → Finding → Finding
    override none f = f
    override (some sev) f = record f { severity = sev }

    -- One round of the loop of `applyProfile`.
    unfoldable pub scope_finding : Profile → Finding → Finding
    unfolding override
    scope_finding p f =
        if not (includes p f.check_id)
        then record f {
          result = skipped;
          skipped_by = p.id;
          detail = out_of_scope_detail p;
          evidence = [];
          remediation = none;
          unknown_reason = no_reason;
        }
        else override (severity_for p f.check_id) f

    -- `applyProfile`; no profile is the whole catalog.
    unfoldable pub apply_profile : Option Profile → List Finding → List Finding
    unfolding scope_finding
    apply_profile none fs = fs
    apply_profile (some p) fs = map (scope_finding p) fs
