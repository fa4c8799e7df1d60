-- ===== src/Sanitize/Laws.antt =====
-- The output of `clean` of internal/sanitize/sanitize.go: its length and its bytes.
use plumbline.Go.Hex.{hex_digit}
use plumbline.Go.Utf8.Laws.{NonAscii, decode_rune-cases}
use plumbline.Go.Utf8.{decode_rune, rune_error}
use plumbline.Sanitize.{truncation_marker, escape_byte, piece_of, clean_loop, clean}
use plumbline.Base.{
  Str, ℕ, zero, suc, ◌+◌, ◌-◌, ◌/◌, ◌%◌, ◌≤◌, ◌≡◌, refl, ◌⊎◌, inl, inr, Bool, true, false, not,
  ◌&&◌, ◌||◌, [], ◌∷◌, ◌++◌, arith, ltb, leb, ◌==◌, Bool-cases, length, take, length-append, All,
  All-append,
}

marker_room : (n max : ℕ) → n ≤ max → n + 15 ≤ max + 15
marker_room n max h = omega arith

ltb-false : (a b : ℕ) → ltb a b ≡ false → b ≤ a
ltb-false a b h = ground arith

clean_loop-length :
    (max skip : ℕ) (out s : Str) → length out ≤ max → length (clean_loop max skip out s) ≤ max + 15
unfolding clean_loop
clean_loop-length max skip out [] h = omega arith
clean_loop-length max (suc k) out (c ∷ cs) h = clean_loop-length max k out cs h
clean_loop-length max zero out (c ∷ cs) h =
    let piece = piece_of c (c ∷ cs) (decode_rune (c ∷ cs)) in
    elim (Bool-cases (ltb max (length out + length piece))) [
      | inl e ↦ rw e (rw (length-append out truncation_marker) (marker_room (length out) max h))
      | inr e ↦ rw e (
          clean_loop-length max ((decode_rune (c ∷ cs)).1 - 1) (out ++ piece) cs
            (rw (length-append out piece) (ltb-false max (length out + length piece) e)))
    ]

-- The output of `clean` is at most 15 bytes, the length of the marker, longer than the limit.
clean-length : (s : Str) (max : ℕ) → length (clean s max) ≤ max + 15
unfolding clean
clean-length s max = clean_loop-length max 0 [] s (omega arith)

-- A byte that a terminal does not act on: a tab, or neither a C0 control nor DEL.
abbrev pub is_safe : ℕ → Bool
is_safe b = b == 9 || (leb 32 b && not (b == 127))

abbrev pub Safe : Str → Type 0
Safe = All (λ b. is_safe b ≡ true)

abbrev pub Bytes : Str → Type 0
Bytes = All (λ b. ltb b 256 ≡ true)

hex_digit-Safe : (n : ℕ) → ltb n 16 ≡ true → is_safe (hex_digit n) ≡ true
unfolding hex_digit
hex_digit-Safe n h = ground arith

escape_byte-Safe : (c : ℕ) → ltb c 256 ≡ true → Safe (escape_byte c)
unfolding escape_byte
escape_byte-Safe c h = (
  refl,
  (refl, (hex_digit-Safe (c / 16) (ground arith), (hex_digit-Safe (c % 16) (ground arith), tt))),
)

NonAscii-Safe : (s : Str) → NonAscii s → Safe s
NonAscii-Safe [] h = tt
NonAscii-Safe (b ∷ s) h = (ground arith, NonAscii-Safe s h.1)

piece_of-Safe :
    (c : ℕ) (s : Str) (d : ℕ × ℕ)
    → ltb c 256 ≡ true
    → (d ≡ (c, 1)) ⊎ (d ≡ (rune_error, 1)) ⊎ NonAscii (take d.1 (c ∷ s))
    → Safe (piece_of c (c ∷ s) d)
unfolding piece_of
piece_of-Safe c s (r, size) h k =
    ground (arith, escape_byte-Safe c h, escape_byte-Safe r, NonAscii-Safe (take size (c ∷ s)))

marker-Safe : Safe truncation_marker
marker-Safe = ground arith

clean_loop-Safe :
    (max skip : ℕ) (out s : Str) → Bytes s → Safe out → Safe (clean_loop max skip out s)
unfolding clean_loop
clean_loop-Safe max skip out [] b h = h
clean_loop-Safe max (suc k) out (c ∷ cs) b h = clean_loop-Safe max k out cs b.1 h
clean_loop-Safe max zero out (c ∷ cs) b h =
    let d = decode_rune (c ∷ cs) in
    let safe =
      All-append (λ x. is_safe x ≡ true) out (piece_of c (c ∷ cs) d) h
        (piece_of-Safe c cs d b.0 (decode_rune-cases c cs)) in
    elim (Bool-cases (ltb max (length out + length (piece_of c (c ∷ cs) d)))) [
      | inl e ↦ rw e (All-append (λ x. is_safe x ≡ true) out truncation_marker h marker-Safe)
      | inr e ↦ rw e (clean_loop-Safe max (d.1 - 1) (out ++ piece_of c (c ∷ cs) d) cs b.1 safe)
    ]

-- The output of `clean` on a string of bytes has no C0 control but the tab, and no DEL; in
-- particular no ESC.
pub clean-Safe : (s : Str) (max : ℕ) → Bytes s → Safe (clean s max)
unfolding clean
clean-Safe s max b = clean_loop-Safe max 0 [] s b tt
