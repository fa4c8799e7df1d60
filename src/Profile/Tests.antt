-- ===== src/Profile/Tests.antt =====
-- Runs of a profile that includes the checks of one module, and a matcher that knows literal patterns
-- and prefixes before a star.
use plumbline.Finding.{pass, fail, skipped, unknown, high, critical, info, Finding}
use plumbline.Finding.Samples.{sample}
use plumbline.Go.Float.Milli.{milli}
use plumbline.Score.{compute}
use plumbline.Profile.{
  Profile, PathMatch, schema, includes, match_any, severity_for, override, scope_finding,
  apply_profile,
}
use plumbline.Profile.Scope.{apply_profile-score}
use plumbline.Base.{
  select, any, Str, codes, str_eq, ◌≡◌, refl, true, false, some, List, [], ◌∷◌, ◌++◌, map, ◌==◌,
  if◌then◌else◌,
}

path_match : PathMatch
path_match [] [] = some true
path_match [] (c ∷ cs) = some false
path_match (p ∷ ps) [] = some (p == b'*')
path_match (p ∷ ps) (c ∷ cs) =
    let rest = path_match ps cs in
    if p == b'*' then some true else if p == c then rest else some false

abbrev quote : Str → Str
quote s = 34 ∷ (s ++ 34 ∷ [])

abbrev server : Profile
server = record {
  schema = schema;
  id = codes "server";
  title = codes "Server";
  description = [];
  included = codes "SSHD-*" ∷ [];
  excluded = [];
  severity_overrides = (codes "SSHD-0001", info) ∷ [];
  builtin = true;
}

abbrev findings : List Finding
findings =
    sample (codes "SSHD-0001") [] pass critical
    ∷ sample (codes "NET-0001") [] fail high
    ∷ sample (codes "SSHD-0002") [] unknown high
    ∷ []

scoped_results :
    map (λ f. f.result) (apply_profile path_match quote (some server) findings)
    ≡ pass ∷ skipped ∷ unknown ∷ []
unfolding apply_profile scope_finding includes match_any path_match any severity_for override str_eq
scoped_results = refl

apply_profile-score_example :
    let scoped = compute milli (apply_profile path_match quote (some server) findings) 34 in
    let alone =
      compute milli
        (apply_profile path_match quote
          (some server)
          (select (λ f. includes path_match server f.check_id) findings))
        34 in
    (scoped.posture ≡ alone.posture) × (scoped.coverage ≡ alone.coverage)
apply_profile-score_example = apply_profile-score path_match quote milli server findings 34 refl
