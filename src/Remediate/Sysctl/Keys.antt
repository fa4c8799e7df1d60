-- ===== src/Remediate/Sysctl/Keys.antt =====
-- The keys of the settings of internal/remediate/sysctl.go, and how a line that is written is read back.
use plumbline.Go.Strings.{trim_left, trim_right, cut}
use plumbline.Base.Text.{has_prefix}
use plumbline.Remediate.Sysctl.{is_blank, drop_dash, key_of, setting}
use plumbline.Base.{
  Str, ℕ, ◌≡◌, refl, Bool, true, not, ◌&&◌, ◌||◌, some, [], ◌∷◌, ◌++◌, arith, ◌==◌, All,
}

-- A byte that a key may have.
unfoldable pub key_byte : ℕ → Bool
key_byte c = not (c == b' ' || c == b'\t') && (not (c == b'=') && not (c == b'\n'))

-- A byte that may begin one.
unfoldable pub first_byte : ℕ → Bool
unfolding key_byte
first_byte c = key_byte c && (not (c == b'-') && (not (c == b'#') && not (c == b';')))

-- A name of a setting: no blank, `=` or line end in it, and no mark of a comment in front.
abbrev pub IsKey : Str → Type 0
IsKey [] = ⊥
IsKey (c ∷ cs) = (first_byte c ≡ true) × All (λ b. key_byte b ≡ true) cs

cut-key :
    (k r : Str)
    → All (λ b. key_byte b ≡ true) k
    → cut b'=' (k ++ (b' ' ∷ b'=' ∷ r)) ≡ some (k ++ b' ' ∷ [], r)
unfolding cut key_byte
cut-key [] r h = refl
cut-key (c ∷ cs) r h = ground (arith, cut-key cs r h.1, h.0)

trim_right-key :
    (k : Str) → All (λ b. key_byte b ≡ true) k → trim_right is_blank (k ++ b' ' ∷ []) ≡ k
unfolding trim_right key_byte
trim_right-key [] h = refl
trim_right-key (c ∷ cs) h = rw (trim_right-key cs h.1) (ground (arith, h.0))

-- The line that is written for a key is read back under it.
pub key_of-setting : (key value : Str) → IsKey key → key_of (setting key value) ≡ key
unfolding key_of trim_left drop_dash first_byte key_byte has_prefix
key_of-setting [] value h = absurd h
key_of-setting (c ∷ cs) value h = ground (
  arith,
  cut-key (c ∷ cs) (b' ' ∷ value) (ground (arith, h.0), h.1),
  trim_right-key (c ∷ cs) (ground (arith, h.0), h.1),
  h.0,
)
