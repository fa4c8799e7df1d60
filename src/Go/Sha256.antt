-- ===== src/Go/Sha256.antt =====
-- `crypto/sha256.Sum256`, as FIPS 180-4 defines it.
mod Tests
use Prim.Native.Nat.{bit_and, bit_xor}
use plumbline.Base.{
  Str, codes, ℕ, zero, suc, ◌+◌, ◌-◌, ◌*◌, ◌/◌, ◌%◌, ◌^◌, ◌<◌, ◌≡◌, refl, List, [], ◌∷◌, ◌++◌,
  arith, length, take, drop, All,
}

word : ℕ → ℕ
word x = x % 2 ^ 32

rotr : ℕ → ℕ → ℕ
rotr n x = x / 2 ^ n + x % 2 ^ n * 2 ^ (32 - n)

xor3 : ℕ → ℕ → ℕ → ℕ
xor3 a b c = bit_xor (bit_xor a b) c

round_constants : List ℕ
round_constants =
    0x428a2f98 ∷ 0x71374491 ∷ 0xb5c0fbcf ∷ 0xe9b5dba5 ∷ 0x3956c25b ∷ 0x59f111f1 ∷ 0x923f82a4
    ∷ 0xab1c5ed5 ∷ 0xd807aa98 ∷ 0x12835b01 ∷ 0x243185be ∷ 0x550c7dc3 ∷ 0x72be5d74 ∷ 0x80deb1fe
    ∷ 0x9bdc06a7 ∷ 0xc19bf174 ∷ 0xe49b69c1 ∷ 0xefbe4786 ∷ 0x0fc19dc6 ∷ 0x240ca1cc ∷ 0x2de92c6f
    ∷ 0x4a7484aa ∷ 0x5cb0a9dc ∷ 0x76f988da ∷ 0x983e5152 ∷ 0xa831c66d ∷ 0xb00327c8 ∷ 0xbf597fc7
    ∷ 0xc6e00bf3 ∷ 0xd5a79147 ∷ 0x06ca6351 ∷ 0x14292967 ∷ 0x27b70a85 ∷ 0x2e1b2138 ∷ 0x4d2c6dfc
    ∷ 0x53380d13 ∷ 0x650a7354 ∷ 0x766a0abb ∷ 0x81c2c92e ∷ 0x92722c85 ∷ 0xa2bfe8a1 ∷ 0xa81a664b
    ∷ 0xc24b8b70 ∷ 0xc76c51a3 ∷ 0xd192e819 ∷ 0xd6990624 ∷ 0xf40e3585 ∷ 0x106aa070 ∷ 0x19a4c116
    ∷ 0x1e376c08 ∷ 0x2748774c ∷ 0x34b0bcb5 ∷ 0x391c0cb3 ∷ 0x4ed8aa4a ∷ 0x5b9cca4f ∷ 0x682e6ff3
    ∷ 0x748f82ee ∷ 0x78a5636f ∷ 0x84c87814 ∷ 0x8cc70208 ∷ 0x90befffa ∷ 0xa4506ceb ∷ 0xbef9a3f7
    ∷ 0xc67178f2 ∷ []

-- The eight working variables.
record Regs : Type 0 where
  a : ℕ
  b : ℕ
  c : ℕ
  d : ℕ
  e : ℕ
  f : ℕ
  g : ℕ
  h : ℕ

initial : Regs
initial = record {
  a = 0x6a09e667;
  b = 0xbb67ae85;
  c = 0x3c6ef372;
  d = 0xa54ff53a;
  e = 0x510e527f;
  f = 0x9b05688c;
  g = 0x1f83d9ab;
  h = 0x5be0cd19;
}

nth : List ℕ → ℕ → ℕ
nth [] i = 0
nth (x ∷ xs) zero = x
nth (x ∷ xs) (suc i) = nth xs i

-- The word of the message schedule that follows a window of sixteen.
next_word : List ℕ → ℕ
unfolding word rotr xor3 nth
next_word w =
    let s0 = xor3 (rotr 7 (nth w 1)) (rotr 18 (nth w 1)) (nth w 1 / 2 ^ 3) in
    let s1 = xor3 (rotr 17 (nth w 14)) (rotr 19 (nth w 14)) (nth w 14 / 2 ^ 10) in
    word (nth w 0 + s0 + nth w 9 + s1)

slide : List ℕ → List ℕ
unfolding next_word
slide [] = []
slide (x ∷ xs) = xs ++ next_word (x ∷ xs) ∷ []

round : ℕ → ℕ → Regs → Regs
unfolding word rotr xor3
round k w r =
    let s1 = xor3 (rotr 6 r.e) (rotr 11 r.e) (rotr 25 r.e) in
    let choice = bit_xor (bit_and r.e r.f) (bit_and (2 ^ 32 - 1 - r.e) r.g) in
    let t1 = r.h + s1 + choice + k + w in
    let s0 = xor3 (rotr 2 r.a) (rotr 13 r.a) (rotr 22 r.a) in
    let majority = xor3 (bit_and r.a r.b) (bit_and r.a r.c) (bit_and r.b r.c) in
    record {
      a = word (t1 + s0 + majority);
      b = r.a;
      c = r.b;
      d = r.c;
      e = word (r.d + t1);
      f = r.e;
      g = r.f;
      h = r.g;
    }

rounds : List ℕ → List ℕ → Regs → Regs
unfolding round slide nth
rounds [] w r = r
rounds (k ∷ ks) w r = rounds ks (slide w) (round k (nth w 0) r)

add_regs : Regs → Regs → Regs
unfolding word
add_regs x y = record {
  a = word (x.a + y.a);
  b = word (x.b + y.b);
  c = word (x.c + y.c);
  d = word (x.d + y.d);
  e = word (x.e + y.e);
  f = word (x.f + y.f);
  g = word (x.g + y.g);
  h = word (x.h + y.h);
}

words : Str → List ℕ
words (a ∷ b ∷ c ∷ d ∷ rest) = (((a * 256 + b) * 256 + c) * 256 + d) ∷ words rest
words _ = []

big_endian : ℕ → Str
big_endian x = (x / 2 ^ 24 % 256) ∷ (x / 2 ^ 16 % 256) ∷ (x / 2 ^ 8 % 256) ∷ (x % 256) ∷ []

replicate : ℕ → ℕ → Str
replicate zero x = []
replicate (suc n) x = x ∷ replicate n x

pad : Str → Str
unfolding big_endian replicate
pad s =
    let n = length s in
    s
    ++ (0x80 ∷ replicate ((119 - n % 64) % 64) 0
        ++ (big_endian (n * 8 / 2 ^ 32) ++ big_endian (n * 8)))

-- One block of sixteen words at a time, on fuel; a block takes one unit.
blocks : ℕ → List ℕ → Regs → Regs
unfolding rounds add_regs round_constants
blocks zero ws r = r
blocks (suc n) ws r = blocks n (drop 16 ws) (add_regs r (rounds round_constants (take 16 ws) r))

digest : Regs → Str
unfolding big_endian
digest r =
    big_endian r.a
    ++ (big_endian r.b
        ++ (big_endian r.c
            ++ (big_endian r.d
                ++ (big_endian r.e ++ (big_endian r.f ++ (big_endian r.g ++ big_endian r.h))))))

-- The sixteen-byte prefix `h[:16]` of `h := sha256.Sum256(data)`, and the whole.
unfoldable pub sum256 : Str → Str
unfolding digest blocks words pad initial
sum256 s = let ws = words (pad s) in digest (blocks (length ws / 16) ws initial)

pub sum256-length : (s : Str) → length (sum256 s) ≡ 32
unfolding sum256
sum256-length s = refl

abbrev pub IsByte : ℕ → Type 0
IsByte x = x < 256

-- Every element of the digest is a byte.
pub sum256-IsByte : (s : Str) → All IsByte (sum256 s)
unfolding sum256
sum256-IsByte s = omega arith

abc_digest : take 4 (sum256 (codes "abc")) ≡ 0xba ∷ 0x78 ∷ 0x16 ∷ 0xbf ∷ []
unfolding sum256
abc_digest = refl
