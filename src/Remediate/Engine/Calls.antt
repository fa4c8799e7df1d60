-- ===== src/Remediate/Engine/Calls.antt =====
-- Where one text occurs in another, and helpers with different calls, for `helpersFor` of
-- internal/remediate/engine.go.
use mathlib.Core.List.{Memᴰ}
use mathlib.Core.Path.{subst}
use plumbline.Base.Text.{has_prefix}
use plumbline.Remediate.Engine.{Helper, occurs}
use plumbline.Base.{
  Str, str_eq, str_eq_iff, ◌≡◌, refl, sym, ◌∙◌, ◌⊎◌, inl, inr, true, false, List, [], ◌∷◌, ◌++◌,
  arith, All,
}

has_prefix-append : (s t part : Str) → has_prefix s part ≡ true → has_prefix (s ++ t) part ≡ true
unfolding has_prefix
has_prefix-append s t [] h = refl
has_prefix-append [] t (p ∷ ps) h = absurd (ground arith)
has_prefix-append (c ∷ cs) t (p ∷ ps) h = ground (arith, has_prefix-append cs t ps)

occurs_nil : (s : Str) → occurs s [] ≡ true
unfolding occurs has_prefix
occurs_nil [] = refl
occurs_nil (c ∷ cs) = refl

-- What occurs in a text occurs in a longer one.
pub occurs_left : (s t part : Str) → occurs s part ≡ true → occurs (s ++ t) part ≡ true
unfolding occurs has_prefix
occurs_left [] t [] h = occurs_nil t
occurs_left [] t (p ∷ ps) h = absurd (ground arith)
occurs_left (c ∷ cs) t part h =
    ground (arith, occurs_left cs t part, has_prefix-append (c ∷ cs) t part)

pub occurs_right : (s t part : Str) → occurs t part ≡ true → occurs (s ++ t) part ≡ true
unfolding occurs
occurs_right [] t part h = h
occurs_right (c ∷ cs) t part h = ground (arith, occurs_right cs t part h)

-- No two helpers have one call.
abbrev pub Unique : List Helper → Type 0
Unique [] = Unit
Unique (h ∷ hs) = All (λ g. str_eq g.call h.call ≡ false) hs × Unique hs

pub All-Memᴰ {κ} :
    (P : Helper → Type κ) (hs : List Helper) (h : Helper) → Memᴰ h hs → All P hs → P h
All-Memᴰ P [] h m a = elim m [ ]
All-Memᴰ P (x ∷ xs) h (Memᴰ.head e) a = subst P (sym e) a.0
All-Memᴰ P (x ∷ xs) h (Memᴰ.tail m) a = All-Memᴰ P xs h m a.1

pub Unique-cases :
    (hs : List Helper) (g h : Helper)
    → Unique hs
    → Memᴰ g hs
    → Memᴰ h hs
    → (g ≡ h) ⊎ (str_eq g.call h.call ≡ false)
Unique-cases [] g h u m n = elim m [ ]
Unique-cases (x ∷ xs) g h u (Memᴰ.head e) (Memᴰ.head f) = inl (e ∙ sym f)
Unique-cases (x ∷ xs) g h u (Memᴰ.tail m) (Memᴰ.head f) =
    inr (subst (λ y. str_eq g.call y.call ≡ false) (sym f) (All-Memᴰ _ xs g m u.0))
Unique-cases (x ∷ xs) g h u (Memᴰ.head e) (Memᴰ.tail m) = inr (
    subst (λ y. str_eq y.call h.call ≡ false) (sym e)
      (ground (
        arith,
        All-Memᴰ (λ y. str_eq y.call x.call ≡ false) xs h m u.0,
        str_eq_iff x.call h.call,
        str_eq_iff h.call x.call,
      )))
Unique-cases (x ∷ xs) g h u (Memᴰ.tail m) (Memᴰ.tail n) = Unique-cases xs g h u.1 m n
