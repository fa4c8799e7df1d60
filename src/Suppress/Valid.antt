-- ===== src/Suppress/Valid.antt =====
-- The suppression file that `Parse` of internal/suppress/suppress.go reads.
use mathlib.Core.List.{append-nil, append_assoc}
use mathlib.Core.Path.{subst}
use plumbline.Finding.Fingerprint.{fingerprint, fingerprint_pattern}
use plumbline.Go.Space.{trim_space}
use plumbline.Base.Text.{to_lower}
use plumbline.Suppress.{
  Time, Rule, File, Set, Parsed, ok, err, ParseError, normalise, label_agrees, parse_expiry,
  parse_rule, parse_rules, parse_file, parse,
}
use plumbline.Base.{
  Str, is_empty, str_eq_iff, ℕ, ◌+◌, ◌≡◌, refl, sym, ap, ◌∙◌, ◌⊎◌, inl, inr, true, false, ◌&&◌,
  Option, none, some, List, [], ◌∷◌, ◌++◌, arith, Bool-cases, Option-cases, All, All-append_one,
}
use plumbline.Base.Maps.{
  Map, insert_fresh, keys-append, Distinct-append, lookup, keys, Distinct, contains-keys,
}

-- A rule that stands under a key of the set.
pub record IsValidRule (key : Str) (r : Rule) : Type 0 where
  pub same_key : r.fingerprint ≡ key
  pub well_formed : fingerprint_pattern key ≡ true
  pub justified : is_empty (trim_space r.justification) ≡ false

abbrev ValidEntry : Str × Rule → Type 0
ValidEntry (k, r) = IsValidRule k r

pub record IsValid (s : Set) : Type 0 where
  pub order_keys : s.order ≡ keys s.by_fingerprint
  pub distinct : Distinct (keys s.by_fingerprint)
  pub rules : All ValidEntry s.by_fingerprint

Parsed-cases {ℓ} :
    {A : Type ℓ} (m : Parsed A) → ((a : A) × (m ≡ ok a)) ⊎ ((e : ParseError) × (m ≡ err e))
Parsed-cases (ok a) = inl (a, refl)
Parsed-cases (err e) = inr (e, refl)

module _ (parse_time : Str → Option Time) where
  -- The expiry of a rule: what `time.Parse` reads, or, where the file gives none, what there was.
  abbrev Expires : Rule → Rule → Type 0
  Expires raw r =
      (is_empty raw.expires_at ≡ true → r.expires ≡ raw.expires)
      × (is_empty raw.expires_at ≡ false → parse_time raw.expires_at ≡ some r.expires)

  -- A rule of the set is one of the file under its trimmed, lower-case fingerprint: only the
  -- fingerprint and the expiry may differ, and a label is of that fingerprint.
  pub record IsRuleOf (raw : Rule) (entry : Str × Rule) : Type 0 where
    pub key : entry.0 ≡ to_lower (trim_space raw.fingerprint)
    pub content : entry.1 ≡ record raw { fingerprint = entry.0; expires = entry.1.expires }
    pub expiry : Expires raw entry.1
    pub labelled :
        is_empty raw.check_id && is_empty raw.subject ≡ false
        → fingerprint raw.check_id raw.subject ≡ entry.0

  -- One entry for each rule of the file, in the order of the file.
  abbrev pub AllRulesOf : List Rule → Map Rule → Type 0
  AllRulesOf [] [] = Unit
  AllRulesOf (raw ∷ raws) (e ∷ es) = IsRuleOf raw e × AllRulesOf raws es
  AllRulesOf _ _ = ⊥

  parse_expiry-Expires :
      (i : ℕ) (r : Rule) {r' : Rule}
      → parse_expiry parse_time i r ≡ ok r'
      → (r' ≡ record r { expires = r'.expires }) × Expires r r'
  unfolding parse_expiry
  parse_expiry-Expires i r {r'} h = elim (Bool-cases (is_empty r.expires_at)) [
    | inl b ↦
        let e : r ≡ r' = ground arith in
        (ground arith, (λ k. ground arith, λ k. absurd (ground arith)))
    | inr b ↦ elim (Option-cases (parse_time r.expires_at)) [
      | inl n ↦ absurd (ground arith)
      | inr (at, n) ↦ (ground arith, (λ k. absurd (ground arith), λ k. ground arith))
    ]
  ]

  -- A rule that is parsed is appended to the set, under its normalised fingerprint.
  record Appended (raw : Rule) (s s' : Set) : Type 0 where
    rule : Rule
    valid : IsValidRule (normalise raw).fingerprint rule
    same : IsRuleOf raw ((normalise raw).fingerprint, rule)
    fresh : lookup (normalise raw).fingerprint s.by_fingerprint ≡ none
    stored : s'.by_fingerprint ≡ s.by_fingerprint ++ ((normalise raw).fingerprint, rule) ∷ []
    listed : s'.order ≡ s.order ++ (normalise raw).fingerprint ∷ []

  parse_rule-Appended :
      (i : ℕ) (raw : Rule) (s : Set) {s' : Set}
      → parse_rule parse_time i raw s ≡ ok s'
      → Appended raw s s'
  unfolding parse_rule normalise label_agrees
  parse_rule-Appended i raw s h = elim (Parsed-cases (parse_expiry parse_time i (normalise raw))) [
    | inr (x, e) ↦ absurd (ground arith)
    | inl (r, e) ↦
        let (content, expiry) = parse_expiry-Expires i (normalise raw) e in
        let k = (normalise raw).fingerprint in
        record {
          rule = r;
          valid = record {
            same_key = ap (λ (x : Rule). x.fingerprint) content;
            well_formed = ground arith;
            justified = ground arith;
          };
          same = record {
            key = refl;
            content = content;
            expiry = expiry;
            labelled =
                λ l. ground (arith, str_eq_iff (fingerprint r.check_id r.subject) r.fingerprint);
          };
          fresh = ground arith;
          stored = ground (arith, insert_fresh k r s.by_fingerprint);
          listed = ground arith;
        }
  ]

  -- The set that a parse has built up to now, from the rules already read.
  step-IsValid : (raw : Rule) (s s' : Set) → Appended raw s s' → IsValid s → IsValid s'
  step-IsValid raw s s' a v =
      let k = (normalise raw).fingerprint in
      let entries = ap keys a.stored ∙ keys-append s.by_fingerprint k a.rule in
      record {
        order_keys = a.listed ∙ ap (λ ks. ks ++ k ∷ []) v.order_keys ∙ sym entries;
        distinct = rw entries (
            Distinct-append (keys s.by_fingerprint) k v.distinct
              (ground (arith, contains-keys k s.by_fingerprint, a.fresh)));
        rules =
            rw a.stored (All-append_one ValidEntry s.by_fingerprint (k, a.rule) v.rules a.valid);
      }

  -- The rules of the file, in order, behind those that were there.
  record Parses (raws : List Rule) (s s' : Set) : Type 0 where
    entries : Map Rule
    stored : s'.by_fingerprint ≡ s.by_fingerprint ++ entries
    rules : AllRulesOf raws entries
    valid : IsValid s → IsValid s'

  parse_rules-Parses :
      (raws : List Rule) (i : ℕ) (s : Set) {s' : Set}
      → parse_rules parse_time i raws s ≡ ok s'
      → Parses raws s s'
  unfolding parse_rules
  parse_rules-Parses [] i s {s'} h =
      let same : s ≡ s' = cc in
      record {
        entries = [];
        stored = ap (λ (t : Set). t.by_fingerprint) (sym same) ∙ sym (append-nil s.by_fingerprint);
        rules = tt;
        valid = λ v. subst IsValid same v;
      }
  parse_rules-Parses (raw ∷ raws) i s h = elim (Parsed-cases (parse_rule parse_time i raw s)) [
    | inr (x, e) ↦ absurd (ground arith)
    | inl (t, e) ↦
        let a = parse_rule-Appended i raw s e in
        let rest = parse_rules-Parses raws (i + 1) t (ground arith) in
        let entry : Str × Rule = ((normalise raw).fingerprint, a.rule) in
        record {
          entries = entry ∷ rest.entries;
          stored =
              rest.stored
              ∙ ap (λ m. m ++ rest.entries) a.stored
              ∙ append_assoc s.by_fingerprint (entry ∷ []) rest.entries;
          rules = (a.same, rest.rules);
          valid = λ v. rest.valid (step-IsValid raw s t a v);
        }
  ]

  nil-IsValid : IsValid (record { by_fingerprint = []; order = [] })
  unfolding keys
  nil-IsValid = record { order_keys = refl; distinct = tt; rules = tt }

  parse_file-Parses :
      (f : File) {s : Set}
      → parse_file parse_time (some f) ≡ ok s
      → Parses f.rules (record { by_fingerprint = []; order = [] }) s
  unfolding parse_file
  parse_file-Parses f h =
      parse_rules-Parses f.rules 0 (record { by_fingerprint = []; order = [] }) (ground arith)

  -- A file that parses, which is one that decodes, is a set of exactly its rules in its order: no rule
  -- is dropped or moved, and none is changed but for its fingerprint, which is trimmed and in lower
  -- case, and its expiry, which is parsed. The set lists each fingerprint once, each rule is under its
  -- own well-formed fingerprint, has a justification that is not blank, and is not mislabelled.
  pub parse-IsValid :
      (decode : Str → Option File) (bytes : Str) {s : Set}
      → parse parse_time decode bytes ≡ ok s
      → IsValid s × ((f : File) × (decode bytes ≡ some f) × AllRulesOf f.rules s.by_fingerprint)
  unfolding parse parse_file
  parse-IsValid decode bytes h = elim (Option-cases (decode bytes)) [
    | inl e ↦ absurd (ground arith)
    | inr (f, e) ↦
        let p = parse_file-Parses f (ground arith) in
        (p.valid nil-IsValid, (f, e, subst (AllRulesOf f.rules) (sym p.stored) p.rules))
  ]
