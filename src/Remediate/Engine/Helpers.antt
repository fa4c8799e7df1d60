-- ===== src/Remediate/Engine/Helpers.antt =====
-- `helpersFor` of internal/remediate/engine.go: a script defines every helper that it calls.
use mathlib.Core.List.{Memᴰ}
use mathlib.Core.Path.{subst}
use plumbline.Remediate.Engine.{
  Helper, occurs, want_of, Scan, scan_helper, scan_helpers, wanted, scan_all, helpers_for, bodies,
}
use plumbline.Remediate.Engine.Calls.{occurs_left, occurs_right, Unique, All-Memᴰ, Unique-cases}
use plumbline.Base.{
  tally, any, Str, str_eq_iff, ℕ, zero, suc, ◌+◌, ◌≤◌, ◌<◌, ◌≡◌, refl, sym, ap, ◌∙◌, inl, inr, Bool,
  true, false, not, ◌||◌, some, List, [], ◌∷◌, ◌++◌, arith, if◌then◌else◌, Bool-cases, if_holds,
  length, All,
}

module _ (helpers : List Helper) (u : Unique helpers) where
  -- The text that is searched holds all that the helpers hold that were taken.
  abbrev Covers : Scan → Type 0
  Covers s =
      (h : Helper) (part : Str)
      → Memᴰ h helpers
      → want_of s.want h.call ≡ true
      → occurs h.body part ≡ true
      → occurs s.text part ≡ true

  scan_helper-Covers :
      (h : Helper) (s : Scan) → Memᴰ h helpers → Covers s → Covers (scan_helper h s)
  unfolding scan_helper want_of any
  scan_helper-Covers h s m c =
      elim (Bool-cases (want_of s.want h.call || not (occurs s.text h.call))) [
        | inl e ↦ rw (e, scan_helper) c
        | inr e ↦
            rw (e, scan_helper)
              (λ g part n w o. elim (Unique-cases helpers g h u n m) [
                | inl q ↦
                    occurs_right s.text h.body part (subst (λ y. occurs y.body part ≡ true) q o)
                | inr q ↦ occurs_left s.text h.body part (
                    c g part n
                      (ground (arith, q, str_eq_iff g.call h.call, str_eq_iff h.call g.call)) o)
              ])
      ]

  scan_helpers-Covers :
      (hs : List Helper) (s : Scan)
      → ((h : Helper) → Memᴰ h hs → Memᴰ h helpers)
      → Covers s
      → Covers (scan_helpers hs s)
  unfolding scan_helpers
  scan_helpers-Covers [] s sub c = c
  scan_helpers-Covers (h ∷ hs) s sub c =
      scan_helpers-Covers hs (scan_helper h s) (λ g m. sub g (Memᴰ.tail m))
        (scan_helper-Covers h s (sub h (Memᴰ.head refl)) c)

-- A helper that is called is wanted.
abbrev Taken : Scan → Helper → Type 0
Taken s h = (want_of s.want h.call || not (occurs s.text h.call)) ≡ true

changed-scan_helpers :
    (hs : List Helper) (s : Scan) → s.changed ≡ true → (scan_helpers hs s).changed ≡ true
unfolding scan_helpers scan_helper
changed-scan_helpers [] s e = e
changed-scan_helpers (h ∷ hs) s e = changed-scan_helpers hs (scan_helper h s) (
    if_holds (λ (t : Scan). t.changed ≡ true) (want_of s.want h.call || not (occurs s.text h.call))
      e refl)

-- A round without a change found nothing to take.
quiet_round :
    (hs : List Helper) (s : Scan)
    → (scan_helpers hs s).changed ≡ false
    → (scan_helpers hs s ≡ s) × All (Taken s) hs
unfolding scan_helpers scan_helper
quiet_round [] s e = (refl, tt)
quiet_round (h ∷ hs) s e = elim (Bool-cases (want_of s.want h.call || not (occurs s.text h.call))) [
  | inl q ↦
      let same : scan_helper h s ≡ s = rw (q, scan_helper) refl in
      let (r, a) = quiet_round hs s (subst (λ t. (scan_helpers hs t).changed ≡ false) same e) in
      (ap (scan_helpers hs) same ∙ r, (q, a))
  | inr q ↦
      absurd
        (ground (arith, e, changed-scan_helpers hs (scan_helper h s) (rw (q, scan_helper) refl)))
]

-- How many helpers are not wanted.
unwanted : List Helper → Scan → ℕ
unwanted hs s = tally (λ h. not (want_of s.want h.call)) hs

unwanted-length : (hs : List Helper) (s : Scan) → unwanted hs s ≤ length hs
unfolding unwanted tally
unwanted-length [] s = omega arith
unwanted-length (h ∷ hs) s = ground (arith, unwanted-length hs s)

unwanted_le :
    (hs : List Helper) (s : Scan) (call text : Str) (b : Bool)
    → unwanted hs (record { want = call ∷ s.want; text = text; changed = b }) ≤ unwanted hs s
unfolding unwanted tally want_of any
unwanted_le [] s call text b = omega arith
unwanted_le (g ∷ hs) s call text b = ground (arith, unwanted_le hs s call text b)

unwanted_lt :
    (hs : List Helper) (h : Helper) (s : Scan) (text : Str) (b : Bool)
    → Memᴰ h hs
    → want_of s.want h.call ≡ false
    → unwanted hs (record { want = h.call ∷ s.want; text = text; changed = b }) < unwanted hs s
unfolding unwanted tally want_of any
unwanted_lt [] h s text b m w = elim m [ ]
unwanted_lt (g ∷ hs) h s text b (Memᴰ.head e) w =
    let same = ap (λ y. y.call) e in
    ground (
      arith,
      same,
      w,
      ap (want_of s.want) same,
      (str_eq_iff h.call g.call).1 same,
      unwanted_le hs s h.call text b,
    )
unwanted_lt (g ∷ hs) h s text b (Memᴰ.tail m) w = ground (arith, unwanted_lt hs h s text b m w)

module _ (helpers : List Helper) where
  abbrev left : Scan → ℕ
  left = unwanted helpers

  left-scan_helper :
      (h : Helper) (s : Scan)
      → Memᴰ h helpers
      → left (scan_helper h s)
          + (if want_of s.want h.call || not (occurs s.text h.call) then 0 else 1)
        ≤ left s
  unfolding scan_helper
  left-scan_helper h s m = elim (Bool-cases (want_of s.want h.call || not (occurs s.text h.call))) [
    | inl e ↦ rw (e, scan_helper) (omega arith)
    | inr e ↦
        rw (e, scan_helper)
          (omega (arith, unwanted_lt helpers h s (s.text ++ h.body) true m (ground arith)))
  ]

  left-scan_helpers :
      (hs : List Helper) (s : Scan)
      → ((h : Helper) → Memᴰ h hs → Memᴰ h helpers)
      → (left (scan_helpers hs s) ≤ left s)
        × (s.changed ≡ false
            → (scan_helpers hs s).changed ≡ true
            → left (scan_helpers hs s) < left s)
  unfolding scan_helpers scan_helper
  left-scan_helpers [] s sub = (omega arith, λ e f. absurd (ground arith))
  left-scan_helpers (h ∷ hs) s sub =
      let (le, lt) = left-scan_helpers hs (scan_helper h s) (λ g m. sub g (Memᴰ.tail m)) in
      let one = left-scan_helper h s (sub h (Memᴰ.head refl)) in
      elim (Bool-cases (want_of s.want h.call || not (occurs s.text h.call))) [
        | inl q ↦
            let same : scan_helper h s ≡ s = rw (q, scan_helper) refl in
            (omega (arith, le, one), λ e f. ground (arith, lt, one, e, f, ap (λ t. t.changed) same))
        | inr q ↦ (omega (arith, le, one), λ e f. ground (arith, le, one, q))
      ]

  -- What a script that defines the wanted helpers has: each helper that is called in the body, or in a
  -- helper that is wanted, is wanted.
  pub record Closed (body : Str) (want : List Str) : Type 0 where
    pub from_body :
        (h : Helper) → Memᴰ h helpers → occurs body h.call ≡ true → want_of want h.call ≡ true
    pub from_helper :
        (g h : Helper)
        → Memᴰ g helpers
        → Memᴰ h helpers
        → want_of want g.call ≡ true
        → occurs g.body h.call ≡ true
        → want_of want h.call ≡ true

  text-scan_helpers :
      (hs : List Helper) (s : Scan) (part : Str)
      → occurs s.text part ≡ true
      → occurs (scan_helpers hs s).text part ≡ true
  unfolding scan_helpers scan_helper
  text-scan_helpers [] s part o = o
  text-scan_helpers (h ∷ hs) s part o = text-scan_helpers hs (scan_helper h s) part (
      if_holds (λ (r : Scan). occurs r.text part ≡ true)
        (want_of s.want h.call || not (occurs s.text h.call)) o (occurs_left s.text h.body part o))

  Closed-round :
      (u : Unique helpers) (body : Str) (s : Scan)
      → Covers helpers u s
      → ((part : Str) → occurs body part ≡ true → occurs s.text part ≡ true)
      → All (Taken s) helpers
      → Closed body s.want
  Closed-round u body s c b a = record {
    from_body = λ h m o. ground (arith, All-Memᴰ (Taken s) helpers h m a, b h.call o);
    from_helper = λ g h m n w o. ground (arith, All-Memᴰ (Taken s) helpers h n a, c g h.call m w o);
  }

  scan_all_ends :
      (u : Unique helpers) (body : Str) (fuel : ℕ) (s : Scan)
      → left s < fuel
      → Covers helpers u s
      → ((part : Str) → occurs body part ≡ true → occurs s.text part ≡ true)
      → (want : List Str) × (scan_all helpers fuel s ≡ wanted want) × Closed body want
  unfolding scan_all unwanted scan_helpers
  scan_all_ends u body zero s l c b = absurd (omega arith)
  scan_all_ends u body (suc fuel) s l c b =
      let s0 : Scan = record s { changed = false } in
      let s' = scan_helpers helpers s0 in
      elim (Bool-cases s'.changed) [
        | inl e ↦
            let less = (left-scan_helpers helpers s0 (λ h m. m)).1 refl e in
            let (want, ends, closed) =
              scan_all_ends u body fuel s' (omega (arith, l, less))
                (scan_helpers-Covers helpers u helpers s0 (λ h m. m) c)
                (λ part o. text-scan_helpers helpers s0 part (b part o)) in
            (want, rw (e, scan_all) ends, closed)
        | inr e ↦
            let (same, a) = quiet_round helpers s0 e in
            (
              s'.want,
              rw (e, scan_all) refl,
              subst (λ (r : Scan). Closed body r.want) (sym same) (Closed-round u body s0 c b a),
            )
      ]

-- Where no two helpers have one call, the search for the helpers of a script ends within one round more than
-- there are helpers. The script then defines those that are wanted, in their order, and every helper that the
-- body or a helper that is wanted calls is one of them.
pub helpers_for-Closed :
    (helpers : List Helper) (body : Str)
    → Unique helpers
    → (want : List Str) × (helpers_for helpers body ≡ some (bodies helpers want))
      × Closed helpers body want
unfolding helpers_for want_of any
helpers_for-Closed helpers body u =
    let s : Scan = record { want = []; text = body; changed = false } in
    let (want, ends, closed) =
      scan_all_ends helpers u body (suc (length helpers)) s
        (omega (arith, unwanted-length helpers s)) (λ h part m w o. absurd (ground arith))
        (λ part o. o) in
    (want, rw (ends, helpers_for) refl, closed)
