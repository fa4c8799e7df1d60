-- ===== src/Go/Float/Milli.antt =====
-- Thousandths, a model of the interface of float64 for the runs of the other modules.
use plumbline.Go.Float.{Float64, Float64Laws}
use native.Mathlib.Nat.{div-eq_of_eq-mul_left, le-div_iff_mul-le, div-mul-le_self, mul-le-mul_right}
use plumbline.Base.{ℕ, ◌+◌, ◌*◌, ◌/◌, ◌≤◌, ◌<◌, ◌≡◌, ◌↔◌, false, arith, ltb}

abbrev pub milli : Float64
milli = record {
  Carrier = ℕ;
  of_ℕ = λ n. 1000 * n;
  add = λ a b. a + b;
  mul = λ a b. a * b / 1000;
  div = λ a b. a * 1000 / b;
  less = ltb;
}

div_mono_right : (a b k : ℕ) → 0 < k → a ≤ b → a / k ≤ b / k
div_mono_right a b k pos h = (le-div_iff_mul-le pos).1 (omega (arith, div-mul-le_self a k))

ltb-false_iff : (a b : ℕ) → (ltb b a ≡ false) ↔ (a ≤ b)
ltb-false_iff a b = (λ h. ground arith, λ h. ground arith)

milli-div_mono :
    (x y c : ℕ)
    → 0 < c
    → ltb y x ≡ false
    → ltb (y * 1000 / (1000 * c)) (x * 1000 / (1000 * c)) ≡ false
milli-div_mono x y c pos h = (ltb-false_iff _ _).1 (
    div_mono_right (x * 1000) (y * 1000) (1000 * c) (omega arith)
      (omega (arith, (ltb-false_iff x y).0 h)))

milli-mul_mono :
    (x y c : ℕ) → ltb y x ≡ false → ltb (y * (1000 * c) / 1000) (x * (1000 * c) / 1000) ≡ false
milli-mul_mono x y c h = (ltb-false_iff _ _).1 (
    div_mono_right (x * (1000 * c)) (y * (1000 * c)) 1000 (omega arith)
      (mul-le-mul_right (1000 * c) ((ltb-false_iff x y).0 h)))

milli-div_self : (a : ℕ) → 0 < a → 1000 * a * 1000 / (1000 * a) ≡ 1000
milli-div_self a h = div-eq_of_eq-mul_left (omega arith) (omega arith)

pub milli_laws : Float64Laws milli
milli_laws = record {
  add_exact = λ a b h. omega arith;
  less_exact = λ a b h k. ground arith;
  div_self = λ a h k. milli-div_self a h;
  one_mul = λ a h. omega arith;
  div_mono = λ x y c pos k h. milli-div_mono x y c pos h;
  mul_mono = λ x y c k h. milli-mul_mono x y c h;
}
