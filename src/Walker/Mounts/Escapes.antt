-- ===== src/Walker/Mounts/Escapes.antt =====
-- `unescapeMountField` of internal/collect/walker/mounts.go against what the kernel does to the fields
-- of mountinfo(5).
use plumbline.Base.{
  any, Str, ℕ, ◌+◌, ◌/◌, ◌%◌, ◌<◌, ◌≡◌, refl, sym, ap, ◌∙◌, ◌≢◌, inl, inr, Bool, true, false, some,
  [], ◌∷◌, arith, ◌==◌, if◌then◌else◌, Bool-cases, All,
}
use plumbline.Walker.Mounts.{
  parse_octal, octal_digit, escape_at, unescape_from, unescape_mount_field,
}

-- The kernel writes a byte as a backslash and three octal digits; `special` says which bytes.
abbrev pub escape_field : (ℕ → Bool) → Str → Str
escape_field special [] = []
escape_field special (c ∷ cs) =
    let rest = escape_field special cs in
    if special c
    then b'\\' ∷ (b'0' + c / 64) ∷ (b'0' + c / 8 % 8) ∷ (b'0' + c % 8) ∷ rest
    else c ∷ rest

parse_octal-digits :
    (c : ℕ) → c < 256 → parse_octal (b'0' + c / 64) (b'0' + c / 8 % 8) (b'0' + c % 8) ≡ some c
unfolding parse_octal octal_digit
parse_octal-digits c h = ground arith

-- Without a backslash there is nothing to undo.
unescape_plain : (s : Str) → any (λ c. c == b'\\') s ≡ false → unescape_from 0 s ≡ s
unfolding unescape_from any
unescape_plain [] h = refl
unescape_plain (c ∷ cs) h = ground (arith, unescape_plain cs)

unescape_octal :
    (c : ℕ) (rest : Str)
    → c < 256
    → unescape_from 0 (b'\\' ∷ (b'0' + c / 64) ∷ (b'0' + c / 8 % 8) ∷ (b'0' + c % 8) ∷ rest)
      ≡ c ∷ unescape_from 0 rest
unfolding unescape_from escape_at
unescape_octal c rest h = ground (arith, parse_octal-digits c h)

unescape_byte :
    (c : ℕ) (rest : Str) → c ≢ b'\\' → unescape_from 0 (c ∷ rest) ≡ c ∷ unescape_from 0 rest
unfolding unescape_from
unescape_byte c rest h = ground arith

module _ (special : ℕ → Bool) (backslash : special b'\\' ≡ true) where
  unescape_from-escape_field :
      (s : Str) → All (λ c. c < 256) s → unescape_from 0 (escape_field special s) ≡ s
  unfolding unescape_from
  unescape_from-escape_field [] h = refl
  unescape_from-escape_field (c ∷ cs) h = elim (Bool-cases (special c)) [
    | inl e ↦ rw e (
        unescape_octal c (escape_field special cs) h.0
        ∙ ap (◌∷◌ c) (unescape_from-escape_field cs h.1))
    | inr e ↦ rw e (
        unescape_byte c (escape_field special cs) (λ k. ground (arith, backslash, e, ap special k))
        ∙ ap (◌∷◌ c) (unescape_from-escape_field cs h.1))
  ]

  -- Whatever set of bytes the kernel escapes, if the backslash is among them: the field is read as
  -- the mount point that the kernel wrote.
  pub unescape_mount_field-escape_field :
      (s : Str) → All (λ c. c < 256) s → unescape_mount_field (escape_field special s) ≡ s
  unfolding unescape_mount_field
  unescape_mount_field-escape_field s h =
      elim (Bool-cases (any (λ c. c == b'\\') (escape_field special s))) [
        | inl e ↦ rw e (unescape_from-escape_field s h)
        | inr e ↦
            rw e (sym (unescape_plain (escape_field special s) e) ∙ unescape_from-escape_field s h)
      ]
