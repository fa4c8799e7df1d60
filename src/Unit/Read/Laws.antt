-- ===== src/Unit/Read/Laws.antt =====
-- What a fragment that `readFragment` of internal/collect/unit/unit.go calls present was read from.
use plumbline.Unit.{is_present, Fragment, FragmentKind, blank_fragment}
use plumbline.Unit.Read.{
  max_read, max_link_hops, state_for, resolve_link, not_text, Followed, stopped, reached, refused,
  follow_link, too_long, irregular, follow, read_target, read_followed, read_fragment,
}
use plumbline.Host.{Answer-cases, HostError, answer, FileInfo, ReadResult, System}
use mathlib.Core.Path.{subst}
use plumbline.Base.{
  Str, codes, str_eq, ℕ, zero, suc, ◌≤◌, ◌≡◌, refl, inl, inr, true, false, none, arith,
  if◌then◌else◌, Bool-cases,
}

-- A path leads to another over so many links, the last of which is no link and a regular file; none of
-- them leads to /dev/null.
pub data Leads (s : System) : ℕ → Str → Str → Type 0 where
  arrived :
      {p : Str} (fi : FileInfo)
      → s.stat p ≡ answer fi
      → fi.is_symlink ≡ false
      → fi.is_regular ≡ true
      → Leads s 0 p p
  link :
      {n : ℕ} {p t : Str} (fi : FileInfo) (dest : Str)
      → s.stat p ≡ answer fi
      → fi.is_symlink ≡ true
      → s.read_link p ≡ answer dest
      → str_eq (resolve_link p dest) (codes "/dev/null") ≡ false
      → Leads s n (resolve_link p dest) t
      → Leads s (suc n) p t

reached_inj : {t t' : Str} {f f' : Fragment} → reached t f ≡ reached t' f' → t ≡ t'
reached_inj h = ground arith

settle : FileInfo → Str → Fragment → Followed
settle fi p f = if fi.is_regular then reached p f else stopped (irregular f)

settle-Leads :
    (s : System) (p : Str) (fi : FileInfo) (f g : Fragment) (t : Str)
    → s.stat p ≡ answer fi
    → fi.is_symlink ≡ false
    → settle fi p f ≡ reached t g
    → Leads s 0 p t
unfolding settle
settle-Leads s p fi f g t x l h = elim (Bool-cases fi.is_regular) [
  | inl r ↦ subst (Leads s 0 p) (reached_inj {f = f} {f' = g} (ground arith)) (arrived fi x l r)
  | inr r ↦ absurd (ground arith)
]

follow-Leads :
    (s : System) (hops : ℕ) (p : Str) (f : Fragment) {t : Str} {g : Fragment}
    → follow s hops p f ≡ reached t g
    → (n : ℕ) × (n ≤ hops) × Leads s n p t
unfolding follow settle
follow-Leads s zero p f {t} {g} h = elim (Answer-cases (s.stat p)) [
  | inr (e, x) ↦ absurd (ground arith)
  | inl (fi, x) ↦ elim (Bool-cases fi.is_symlink) [
    | inr l ↦ (0, omega arith, settle-Leads s p fi f g t x l (ground arith))
    | inl l ↦ absurd (ground arith)
  ]
]
follow-Leads s (suc k) p f {t} {g} h = elim (Answer-cases (s.stat p)) [
  | inr (e, x) ↦ absurd (ground arith)
  | inl (fi, x) ↦ elim (Bool-cases fi.is_symlink) [
    | inr l ↦ (0, omega arith, settle-Leads s p fi f g t x l (ground arith))
    | inl l ↦ elim (Answer-cases (s.read_link p)) [
      | inr (e, y) ↦ absurd (ground arith)
      | inl (dest, y) ↦ elim (Bool-cases (str_eq (resolve_link p dest) (codes "/dev/null"))) [
        | inl m ↦ absurd (ground arith)
        | inr m ↦
            let next : follow s k (resolve_link p dest)
                  (record f { resolved = resolve_link p dest })
                ≡ reached t g =
              ground arith in
            let (n, le, path) =
              follow-Leads s k (resolve_link p dest) (record f { resolved = resolve_link p dest })
                {t = t} {g = g} next in
            (suc n, omega arith, link fi dest x l y m path)
      ]
    ]
  ]
]

state_for-is_present : (e : HostError) → is_present (state_for e) ≡ false
unfolding state_for is_present
state_for-is_present e = ground arith

follow-stopped :
    (s : System) (hops : ℕ) (p : Str) (f : Fragment) {g : Fragment}
    → follow s hops p f ≡ stopped g
    → is_present g.state ≡ false
unfolding follow refused follow_link too_long irregular is_present
follow-stopped s zero p f h = elim (Answer-cases (s.stat p)) [
  | inr (e, x) ↦ ground (arith, state_for-is_present e)
  | inl (fi, x) ↦ ground arith
]
follow-stopped s (suc k) p f {g} h = elim (Answer-cases (s.stat p)) [
  | inr (e, x) ↦ ground (arith, state_for-is_present e)
  | inl (fi, x) ↦ elim (Bool-cases fi.is_symlink) [
    | inr l ↦ ground arith
    | inl l ↦ elim (Answer-cases (s.read_link p)) [
      | inr (e, y) ↦ ground (arith, state_for-is_present e)
      | inl (dest, y) ↦ elim (Bool-cases (str_eq (resolve_link p dest) (codes "/dev/null"))) [
        | inl m ↦ ground arith
        | inr m ↦
            let target = resolve_link p dest in
            let next : follow s k target (record f { resolved = target }) ≡ stopped g =
              ground arith in
            follow-stopped s k target (record f { resolved = target }) {g = g} next
      ]
    ]
  ]
]

-- A fragment that is present was read whole, from a regular file that its path leads to.
pub record ReadWhole (s : System) (p : Str) (bytes : Str) : Type 0 where
  pub links : ℕ
  pub target : Str
  pub few : links ≤ max_link_hops
  pub path : Leads s links p target
  pub result : ReadResult
  pub read : s.read_opaque target max_read ≡ answer result
  pub whole : result.truncated ≡ false
  pub text : not_text result.bytes ≡ none
  pub same : bytes ≡ result.bytes

read_target-present :
    (s : System) (t : Str) (g : Fragment)
    → is_present (read_target s t g).0.state ≡ true
    → (res : ReadResult) × (s.read_opaque t max_read ≡ answer res)
      × (res.truncated ≡ false)
      × (not_text res.bytes ≡ none)
      × ((read_target s t g).1 ≡ res.bytes)
unfolding read_target refused is_present
read_target-present s t g h = elim (Answer-cases (s.read_opaque t max_read)) [
  | inr (e, x) ↦ absurd (ground (arith, state_for-is_present e))
  | inl (res, x) ↦ (res, x, ground arith, ground arith, ground arith)
]

read_followed-ReadWhole :
    (s : System) (p : Str) (f : Fragment) (w : Followed)
    → follow s max_link_hops p f ≡ w
    → is_present (read_followed s w).0.state ≡ true
    → ReadWhole s p (read_followed s w).1
unfolding read_followed
read_followed-ReadWhole s p f (stopped g) e h =
    absurd (ground (arith, follow-stopped s max_link_hops p f {g = g} e))
read_followed-ReadWhole s p f (reached t g) e h =
    let (n, le, path) = follow-Leads s max_link_hops p f {t = t} {g = g} e in
    let (res, read, whole, text, same) = read_target-present s t g h in
    record {
      links = n;
      target = t;
      few = le;
      path = path;
      result = res;
      read = read;
      whole = whole;
      text = text;
      same = same;
    }

-- A fragment that `readFragment` calls present was read whole, below the cap and without a NUL byte,
-- from a regular file; the path leads there over at most four links, none of them to /dev/null.
pub read_fragment-ReadWhole :
    (s : System) (p : Str) (kind : FragmentKind)
    → is_present (read_fragment s p kind).0.state ≡ true
    → ReadWhole s p (read_fragment s p kind).1
unfolding read_fragment
read_fragment-ReadWhole s p kind h =
    read_followed-ReadWhole s p (blank_fragment p kind)
      (follow s max_link_hops p (blank_fragment p kind)) refl h
