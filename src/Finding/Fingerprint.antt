-- ===== src/Finding/Fingerprint.antt =====
-- internal/finding/finding.go: `Fingerprint`, and the form that internal/suppress asks of one.
use plumbline.Go.Hex.{encode, hex_digit, length-encode}
use plumbline.Go.Sha256.{sum256, sum256-length, sum256-IsByte, IsByte}
use plumbline.Go.Space.{trim_space}
use plumbline.Base.{
  Str, ℕ, zero, suc, ◌/◌, ◌%◌, ◌≤◌, ◌<◌, ◌≡◌, refl, Bool, true, ◌&&◌, ◌||◌, List, [], ◌∷◌, ◌++◌,
  arith, leb, ◌==◌, length, take, All,
}

-- The first sixteen bytes of the digest of the check ID, a zero byte and the trimmed subject.
unfoldable pub fingerprint : Str → Str → Str
fingerprint check_id subject = encode (take 16 (sum256 (check_id ++ (0 ∷ trim_space subject))))

is_hex : ℕ → Bool
is_hex c = (leb b'0' c && leb c b'9') || (leb b'a' c && leb c b'f')

all_hex : Str → Bool
unfolding is_hex
all_hex [] = true
all_hex (c ∷ cs) = is_hex c && all_hex cs

-- The regular expression `^[0-9a-f]{32}$` of internal/suppress/suppress.go.
unfoldable pub fingerprint_pattern : Str → Bool
unfolding all_hex
fingerprint_pattern s = (length s == 32) && all_hex s

hex_digit-is_hex : (n : ℕ) → n < 16 → is_hex (hex_digit n) ≡ true
unfolding is_hex hex_digit
hex_digit-is_hex n h = ground arith

all_hex-encode : (s : Str) → All IsByte s → all_hex (encode s) ≡ true
unfolding all_hex encode
all_hex-encode [] h = refl
all_hex-encode (c ∷ cs) h =
    rw (hex_digit-is_hex (c / 16) (omega arith), hex_digit-is_hex (c % 16) (omega arith))
      (all_hex-encode cs h.1)

All-take {ℓ κ} : {A : Type ℓ} (P : A → Type κ) (n : ℕ) (l : List A) → All P l → All P (take n l)
All-take P zero l h = tt
All-take P (suc n) [] h = tt
All-take P (suc n) (x ∷ xs) h = (h.0, All-take P n xs h.1)

length-take : {A : Type 0} (n : ℕ) (l : List A) → n ≤ length l → length (take n l) ≡ n
length-take zero l h = refl
length-take (suc n) [] h = absurd (omega arith)
length-take (suc n) (x ∷ xs) h = omega (arith, length-take n xs)

fingerprint_pattern-encode :
    (d : Str) → length d ≡ 32 → All IsByte d → fingerprint_pattern (encode (take 16 d)) ≡ true
unfolding fingerprint_pattern
fingerprint_pattern-encode d n h = ground (
  arith,
  length-encode (take 16 d),
  length-take 16 d,
  all_hex-encode (take 16 d) (All-take _ 16 d h),
)

-- Every fingerprint that the program computes has the form which the parser of suppression files
-- demands: thirty-two lower-case hexadecimal digits.
pub fingerprint_pattern-fingerprint :
    (check_id subject : Str) → fingerprint_pattern (fingerprint check_id subject) ≡ true
unfolding fingerprint
fingerprint_pattern-fingerprint check_id subject =
    let m = check_id ++ (0 ∷ trim_space subject) in
    fingerprint_pattern-encode (sum256 m) (sum256-length m) (sum256-IsByte m)
