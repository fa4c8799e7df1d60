-- ===== src/Suppress.antt =====
-- internal/suppress/suppress.go: accepted risks. A parsed file is a set of rules by fingerprint;
-- `apply` rewrites the failing findings that a live rule accepts.
--
-- The JSON decoder and `time.Parse` are parameters. An instant is the number of nanoseconds since
-- 31 December of the year -1, which is before every RFC 3339 timestamp.
pub mod Valid
pub mod Apply
pub mod Report
mod Tests
use plumbline.Finding.{fail, unknown, skipped, result_eq, Finding}
use plumbline.Finding.Fingerprint.{fingerprint, fingerprint_pattern}
use plumbline.Go.Space.{trim_space}
use plumbline.Base.{
  Str, codes, is_empty, str_eq, ℕ, ◌+◌, ◌*◌, Bool, true, false, not, ◌&&◌, ◌||◌, Option, none, some,
  List, [], ◌∷◌, ◌++◌, ltb, ◌==◌, if◌then◌else◌, is_some, length,
}
use plumbline.Base.Text.{to_lower}
use plumbline.Base.Maps.{Map, lookup, insert, contains}

abbrev pub Time : Type 0
Time = ℕ

-- `time.Time{}`, the first instant of the year 1.
abbrev pub zero_time : Time
zero_time = 367 * 86400 * 1000000000

abbrev pub schema : Str
schema = codes "suppressions/v1"

pub record Rule : Type 0 where
  pub fingerprint : Str
  pub justification : Str
  pub expires_at : Str
  pub check_id : Str
  pub subject : Str
  pub expires : Time

pub record File : Type 0 where
  pub schema : Str
  pub rules : List Rule

-- The parsed expiry, if the rule has one: the zero time is none.
unfoldable pub expires : Rule → Option Time
expires r = if r.expires == zero_time then none else some r.expires

pub record Set : Type 0 where
  pub by_fingerprint : Map Rule
  pub order : List Str

-- `Len` of a set that may be nil.
unfoldable set_length : Option Set → ℕ
set_length none = 0
set_length (some s) = length s.order

-- What the parser refuses, with the index of the rule.
pub data ParseError : Type 0 where
  invalid_json : ParseError
  wrong_schema : Str → ParseError
  malformed_fingerprint : ℕ → Str → ParseError
  blank_justification : ℕ → Str → ParseError
  bad_expiry : ℕ → Str → Str → ParseError
  label_mismatch : ℕ → Str → Str → Str → ParseError
  duplicate : ℕ → Str → ParseError

pub data Parsed {ℓ} (A : Type ℓ) : Type ℓ where
  ok : A → Parsed A
  err : ParseError → Parsed A

infixl 5 ◌>>=◌ ◌>>◌
abbrev pub ◌>>=◌ {ℓ κ} : {A : Type ℓ} {B : Type κ} → Parsed A → (A → Parsed B) → Parsed B
ok a >>= f = f a
err e >>= f = err e

abbrev pub ◌>>◌ {ℓ} : {B : Type ℓ} → Parsed (Unit {0}) → Parsed B → Parsed B
m >> k = m >>= λ _. k

-- `if !b { return nil, e }`
abbrev require : Bool → ParseError → Parsed (Unit {0})
require true e = ok tt
require false e = err e

-- The label is empty, or it has the fingerprint that it stands beside.
label_agrees : Rule → Bool
label_agrees r =
    (is_empty r.check_id && is_empty r.subject)
    || str_eq (fingerprint r.check_id r.subject) r.fingerprint

pub normalise : Rule → Rule
normalise r = record r { fingerprint = to_lower (trim_space r.fingerprint) }

module _ (parse_time : Str → Option Time) where
  -- `if r.ExpiresAt != "" { ... }`; a decoded rule has the zero time, which no JSON key can set.
  parse_expiry : ℕ → Rule → Parsed Rule
  parse_expiry i r = if is_empty r.expires_at then ok r else elim (parse_time r.expires_at) [
    | none ↦ err (bad_expiry i r.fingerprint r.expires_at)
    | some t ↦ ok (record r { expires = t })
  ]

  -- One round of the loop of `Parse`.
  parse_rule : ℕ → Rule → Set → Parsed Set
  parse_rule i raw s = do
    let r = normalise raw
    require (fingerprint_pattern r.fingerprint) (malformed_fingerprint i r.fingerprint)
    require (not (is_empty (trim_space r.justification))) (blank_justification i r.fingerprint)
    r' ← parse_expiry i r
    require (label_agrees r') (label_mismatch i r'.check_id r'.subject r'.fingerprint)
    require (not (is_some (lookup r'.fingerprint s.by_fingerprint))) (duplicate i r'.fingerprint)
    ok (record {
      by_fingerprint = insert r'.fingerprint r' s.by_fingerprint;
      order = s.order ++ r'.fingerprint ∷ [];
    })

  parse_rules : ℕ → List Rule → Set → Parsed Set
  parse_rules i [] s = ok s
  parse_rules i (r ∷ rs) s = do s' ← parse_rule i r s; parse_rules (i + 1) rs s'

  parse_file : Option File → Parsed Set
  parse_file none = err invalid_json
  parse_file (some f) = do
    require (str_eq f.schema schema) (wrong_schema f.schema)
    parse_rules 0 f.rules (record { by_fingerprint = []; order = [] })

  -- `decode` is the JSON decoder with `DisallowUnknownFields`.
  unfoldable pub parse : (Str → Option File) → Str → Parsed Set
  unfolding parse_file parse_rules parse_rule parse_expiry label_agrees normalise
  parse decode bytes = parse_file (decode bytes)

-- What the loop of `Apply` does with one finding.
pub data Decision : Type 0 where
  keep : Decision
  lapsed : Rule → Decision
  accept : Rule → Decision

abbrev pub actionable : Finding → Bool
actionable f = result_eq f.result fail || result_eq f.result unknown

-- `has && !at.Before(exp)`
abbrev has_lapsed : Time → Option Time → Bool
has_lapsed at none = false
has_lapsed at (some exp) = not (ltb at exp)

decide_rule : Time → Option Rule → Decision
decide_rule at none = keep
decide_rule at (some r) = if has_lapsed at (expires r) then lapsed r else accept r

unfoldable pub decide : Set → Time → Finding → Decision
unfolding decide_rule
decide s at f =
    if actionable f then decide_rule at (lookup f.fingerprint s.by_fingerprint) else keep

unfoldable pub rewrite : Decision → Finding → Finding
rewrite keep f = f
rewrite (lapsed r) f = f
rewrite (accept r) f = record f {
  result = skipped;
  suppression = some (record {
    justification = trim_space r.justification;
    expires_at = r.expires_at;
    original_result = f.result;
  });
}

-- `applied[rule.Fingerprint] = true` and `expired[rule.Fingerprint] = true`.
pub record Marks : Type 0 where
  pub applied : List Str
  pub expired : List Str

mark : Decision → Marks → Marks
mark keep m = m
mark (lapsed r) m = record m { expired = r.fingerprint ∷ m.expired }
mark (accept r) m = record m { applied = r.fingerprint ∷ m.applied }

pub record Outcome : Type 0 where
  pub findings : List Finding
  pub applied : List Rule
  pub expired : List Rule
  pub unmatched : List Rule

-- The first loop of `Apply`, over the findings.
mark_all : Set → Time → List Finding → Marks → Marks
unfolding mark
mark_all s at [] m = m
mark_all s at (f ∷ fs) m = mark_all s at fs (mark (decide s at f) m)

rewrite_all : Set → Time → List Finding → List Finding
rewrite_all s at [] = []
rewrite_all s at (f ∷ fs) = rewrite (decide s at f) f ∷ rewrite_all s at fs

-- The rule that the second loop of `Apply` reads for a fingerprint: Go's zero value if it is absent.
abbrev zero_rule : Rule
zero_rule = record {
  fingerprint = [];
  justification = [];
  expires_at = [];
  check_id = [];
  subject = [];
  expires = zero_time;
}

abbrev pub rule_or_zero : Option Rule → Rule
rule_or_zero none = zero_rule
rule_or_zero (some r) = r

-- One round of the second loop: the switch that files a rule.
file_rule : Marks → Str → Rule → Outcome → Outcome
file_rule m fp r out =
    if contains m.applied fp
    then record out { applied = out.applied ++ r ∷ [] }
    else if contains m.expired fp
    then record out { expired = out.expired ++ r ∷ [] }
    else record out { unmatched = out.unmatched ++ r ∷ [] }

file_rules : Marks → Map Rule → List Str → Outcome → Outcome
unfolding file_rule
file_rules m rules [] out = out
file_rules m rules (fp ∷ fps) out =
    file_rules m rules fps (file_rule m fp (rule_or_zero (lookup fp rules)) out)

apply_set : Set → List Finding → Time → Outcome
unfolding mark_all rewrite_all file_rules
apply_set s fs at =
    file_rules (mark_all s at fs (record { applied = []; expired = [] })) s.by_fingerprint s.order
      (record { findings = rewrite_all s at fs; applied = []; expired = []; unmatched = [] })

abbrev pub untouched : List Finding → Outcome
untouched fs = record { findings = fs; applied = []; expired = []; unmatched = [] }

-- `Apply` of a set that may be nil; one with no rule changes nothing.
unfoldable pub apply : Option Set → List Finding → Time → Outcome
unfolding apply_set
apply none fs at = untouched fs
apply (some s) fs at = elim s.by_fingerprint [ [] ↦ untouched fs | r ∷ rs ↦ apply_set s fs at ]

-- `Suppressed`
unfoldable suppressed_count : Outcome → ℕ
suppressed_count out = length out.applied
