-- ===== src/Go/Float.antt =====
-- `float64`, as an interface: the operations that the program uses, and what IEEE 754 says of them.
-- A number of the program reaches them only as a count or a sum of weights.
pub mod Milli
use plumbline.Base.{ℕ, ◌+◌, ◌^◌, ◌≤◌, ◌<◌, ◌≡◌, Bool, false, ltb}

pub record Float64 : Type 1 where
  pub Carrier : Type 0
  pub of_ℕ : ℕ → Carrier
  pub add : Carrier → Carrier → Carrier
  pub mul : Carrier → Carrier → Carrier
  pub div : Carrier → Carrier → Carrier
  pub less : Carrier → Carrier → Bool

-- Whole numbers up to 2 ^ 53 are exact, in sums, in comparisons and multiplied by 1; a number divided
-- by itself is 1; division by a positive whole number and multiplication by a whole number round
-- monotonically.
pub record Float64Laws (F : Float64) : Type 0 where
  pub add_exact : (a b : ℕ) → a + b ≤ 2 ^ 53 → F.add (F.of_ℕ a) (F.of_ℕ b) ≡ F.of_ℕ (a + b)
  pub less_exact : (a b : ℕ) → a ≤ 2 ^ 53 → b ≤ 2 ^ 53 → F.less (F.of_ℕ a) (F.of_ℕ b) ≡ ltb a b
  pub div_self : (a : ℕ) → 0 < a → a ≤ 2 ^ 53 → F.div (F.of_ℕ a) (F.of_ℕ a) ≡ F.of_ℕ 1
  pub one_mul : (a : ℕ) → a ≤ 2 ^ 53 → F.mul (F.of_ℕ 1) (F.of_ℕ a) ≡ F.of_ℕ a
  pub div_mono :
      (x y : F.Carrier) (c : ℕ)
      → 0 < c
      → c ≤ 2 ^ 53
      → F.less y x ≡ false
      → F.less (F.div y (F.of_ℕ c)) (F.div x (F.of_ℕ c)) ≡ false
  pub mul_mono :
      (x y : F.Carrier) (c : ℕ)
      → c ≤ 2 ^ 53
      → F.less y x ≡ false
      → F.less (F.mul y (F.of_ℕ c)) (F.mul x (F.of_ℕ c)) ≡ false
