-- ===== src/Remediate/Sysctl/Lines.antt =====
-- What `Merge` of internal/remediate/sysctl.go does to the lines that set a key.
use plumbline.Base.Maps.{Map, contains, Distinct}
use plumbline.Remediate.Sysctl.{key_of, setting, set_key, value_of, set_keys}
use plumbline.Remediate.Sysctl.Keys.{IsKey, key_of-setting}
use plumbline.Base.{
  select, Str, str_eq, str_eq_iff, str_eq_refl, ◌≡◌, refl, ap, ◌∙◌, inl, inr, Bool, true, false,
  List, [], ◌∷◌, arith, Bool-cases, All,
}

-- The lines that set a key.
pub setters : Str → List Str → List Str
setters key = select (λ l. str_eq (key_of l) key)

set_key-more :
    (key value : Str) (lines : List Str) → setters key (set_key key value true lines) ≡ []
unfolding set_key setters select
set_key-more key value [] = refl
set_key-more key value (l ∷ ls) = elim (Bool-cases (str_eq (key_of l) key)) [
  | inl e ↦ rw (e, set_key) (set_key-more key value ls)
  | inr e ↦ ground (arith, e, set_key-more key value ls)
]

-- Afterwards one line sets the key, to the value.
setters-set_key :
    (key value : Str) (lines : List Str)
    → IsKey key
    → setters key (set_key key value false lines) ≡ setting key value ∷ []
unfolding set_key setters select
setters-set_key key value [] h = ground (
  arith,
  key_of-setting key value h,
  str_eq_refl key,
  ap (λ k. str_eq k key) (key_of-setting key value h),
)
setters-set_key key value (l ∷ ls) h = elim (Bool-cases (str_eq (key_of l) key)) [
  | inl e ↦ ground (
    arith,
    e,
    set_key-more key value ls,
    str_eq_refl key,
    ap (λ k. str_eq k key) (key_of-setting key value h),
  )
  | inr e ↦ ground (arith, e, setters-set_key key value ls h)
]

-- The lines that set another key are not touched.
setters-other :
    (key other value : Str) (written : Bool) (lines : List Str)
    → IsKey other
    → str_eq other key ≡ false
    → setters key (set_key other value written lines) ≡ setters key lines
unfolding set_key setters select
setters-other key other value true [] h n = refl
setters-other key other value false [] h n =
    ground (arith, n, ap (λ k. str_eq k key) (key_of-setting other value h))
setters-other key other value true (l ∷ ls) h n = elim (Bool-cases (str_eq (key_of l) other)) [
  | inl e ↦ ground (
    arith,
    e,
    setters-other key other value true ls h n,
    ap (λ k. str_eq k key) ((str_eq_iff (key_of l) other).0 e),
    n,
  )
  | inr e ↦ ground (arith, e, setters-other key other value true ls h n)
]
setters-other key other value false (l ∷ ls) h n = elim (Bool-cases (str_eq (key_of l) other)) [
  | inl e ↦ ground (
    arith,
    e,
    setters-other key other value true ls h n,
    ap (λ k. str_eq k key) ((str_eq_iff (key_of l) other).0 e),
    n,
    ap (λ k. str_eq k key) (key_of-setting other value h),
  )
  | inr e ↦ ground (arith, e, setters-other key other value false ls h n)
]

set_key_none :
    (key value : Str) (lines : List Str)
    → setters key lines ≡ []
    → set_key key value true lines ≡ lines
unfolding set_key setters select
set_key_none key value [] e = refl
set_key_none key value (l ∷ ls) e = elim (Bool-cases (str_eq (key_of l) key)) [
  | inl q ↦ absurd (ground (arith, q))
  | inr q ↦ ground (arith, q, set_key_none key value ls)
]

-- Where one line sets the key to the value, nothing changes.
set_key-settled :
    (key value : Str) (lines : List Str)
    → IsKey key
    → setters key lines ≡ setting key value ∷ []
    → set_key key value false lines ≡ lines
unfolding set_key setters select
set_key-settled key value [] h e = absurd (ground arith)
set_key-settled key value (l ∷ ls) h e = elim (Bool-cases (str_eq (key_of l) key)) [
  | inl q ↦ ground (arith, q, set_key_none key value ls)
  | inr q ↦ ground (arith, q, set_key-settled key value ls h)
]

-- Each of the keys is set by one line, to its value.
abbrev pub Settled : Map Str → List Str → List Str → Type 0
Settled pairs lines = All (λ key. setters key lines ≡ setting key (value_of pairs key) ∷ [])

pub setters-set_keys :
    (pairs : Map Str) (key : Str) (ks lines : List Str)
    → All IsKey ks
    → contains ks key ≡ false
    → setters key (set_keys pairs ks lines) ≡ setters key lines
unfolding set_keys contains
setters-set_keys pairs key [] lines h n = refl
setters-set_keys pairs key (k ∷ ks) lines h n =
    setters-set_keys pairs key ks (set_key k (value_of pairs k) false lines) h.1 (ground arith)
    ∙ setters-other key k (value_of pairs k) false lines h.0 (ground arith)

pub set_keys-Settled :
    (pairs : Map Str) (ks lines : List Str)
    → All IsKey ks
    → Distinct ks
    → Settled pairs (set_keys pairs ks lines) ks
unfolding set_keys
set_keys-Settled pairs [] lines h d = tt
set_keys-Settled pairs (k ∷ ks) lines h d =
    let first = set_key k (value_of pairs k) false lines in
    (
      setters-set_keys pairs k ks first h.1 d.0 ∙ setters-set_key k (value_of pairs k) lines h.0,
      set_keys-Settled pairs ks first h.1 d.1,
    )

pub set_keys_same :
    (pairs : Map Str) (ks lines : List Str)
    → All IsKey ks
    → Settled pairs lines ks
    → set_keys pairs ks lines ≡ lines
unfolding set_keys
set_keys_same pairs [] lines h s = refl
set_keys_same pairs (k ∷ ks) lines h s =
    ap (set_keys pairs ks) (set_key-settled k (value_of pairs k) lines h.0 s.0)
    ∙ set_keys_same pairs ks lines h.1 s.1
