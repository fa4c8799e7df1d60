-- ===== src/Suppress/Tests.antt =====
-- Runs of internal/suppress/suppress.go, on a file of two rules.
use plumbline.Finding.{Result, result_eq, fail, pass, unknown, high, critical, Finding}
use plumbline.Finding.Samples.{sample}
use plumbline.Finding.Fingerprint.{fingerprint_pattern}
use plumbline.Base.Maps.{lookup, insert, contains}
use plumbline.Base.Text.{to_lower}
use plumbline.Go.Space.{trim_space}
use plumbline.Suppress.{
  Time, Rule, File, Set, ok, parse, apply, decide, rewrite, expires, schema, zero_time,
}
use plumbline.Suppress.Valid.{IsValid, AllRulesOf, parse-IsValid}
use plumbline.Suppress.Apply.{AllSuppresses, apply-AllSuppresses}
use plumbline.Suppress.Report.{Reported, apply-Reported}
use plumbline.Base.{Str, codes, str_eq, ◌≡◌, refl, Option, some, List, [], ◌∷◌, map}

abbrev live_print : Str
live_print = codes "00112233445566778899aabbccddeeff"

abbrev stale_print : Str
stale_print = codes "ffeeddccbbaa99887766554433221100"

abbrev rule : Str → Str → Time → Rule
rule fingerprint expires_at expires = record {
  fingerprint = fingerprint;
  justification = codes "accepted";
  expires_at = expires_at;
  check_id = [];
  subject = [];
  expires = expires;
}

-- The file spells one fingerprint in upper case, between spaces.
abbrev file : File
file = record {
  schema = schema;
  rules =
      rule (codes " 00112233445566778899AABBCCDDEEFF ") [] zero_time
      ∷ rule stale_print (codes "2020-01-01T00:00:00Z") zero_time
      ∷ [];
}

abbrev decode : Str → Option File
decode bytes = some file

abbrev parse_time : Str → Option Time
parse_time text = some 50

abbrev risks : Set
risks = record {
  by_fingerprint =
      (live_print, rule live_print [] zero_time)
      ∷ (stale_print, rule stale_print (codes "2020-01-01T00:00:00Z") 50)
      ∷ [];
  order = live_print ∷ stale_print ∷ [];
}

parse-risks : parse parse_time decode [] ≡ ok risks
unfolding parse str_eq fingerprint_pattern to_lower trim_space lookup insert
parse-risks = refl

parse-IsValid_example :
    IsValid risks
    × ((f : File) × (decode [] ≡ some f) × AllRulesOf parse_time f.rules risks.by_fingerprint)
parse-IsValid_example = parse-IsValid parse_time decode [] {s = risks} parse-risks

abbrev findings : List Finding
findings =
    record (sample (codes "SSHD-0001") [] fail high) { fingerprint = live_print }
    ∷ record (sample (codes "SSHD-0002") [] unknown critical) { fingerprint = stale_print }
    ∷ record (sample (codes "SSHD-0003") [] pass high) { fingerprint = live_print }
    ∷ []

-- The failure is accepted; the rule of the second finding has lapsed, and a PASS is never touched.
apply_results :
    map (λ f. f.result) (apply (some risks) findings 100).findings
    ≡ Result.skipped ∷ unknown ∷ pass ∷ []
unfolding apply contains decide result_eq lookup str_eq rewrite expires trim_space
apply_results = refl

apply-AllSuppresses_example : AllSuppresses findings (apply (some risks) findings 100).findings
apply-AllSuppresses_example = apply-AllSuppresses (some risks) findings 100

apply-Reported_example : Reported risks findings 100 (apply (some risks) findings 100)
apply-Reported_example =
    apply-Reported risks findings 100 (parse-IsValid parse_time decode [] {s = risks} parse-risks).0
