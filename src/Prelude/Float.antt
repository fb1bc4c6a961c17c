-- ===== src/Prelude/Float.antt =====
-- What the program does with a `float`, as an interface: literals of two decimals, comparison,
-- arithmetic, and the built-in `sum`, `round(x, 4)` and percent formatting. NaN is left out: each
-- law is one of the finite floats.
use Prim.Native.Nat.{ℕ, ◌+◌, ◌-◌, ◌*◌, ◌/◌, ◌≤◌}
use Prim.Native.String.{String}
use mathlib.Core.Path.{◌≡◌}
use mathlib.Core.Logic.{◌⊎◌}
use mathlib.Core.Bool.{Bool, true, not}
use mathlib.Core.List.{List, [], ◌∷◌}
use native.Mathlib.Omega.{arith}
use site_proof.Prelude.Tests.{leb, if◌then◌else◌}

pub record Float (F : Type 0) : Type 0 where
  -- the literal n / 100
  pub hundredths : ℕ → F
  -- the literal 1e-6
  pub millionth : F
  -- a <= b
  pub le : F → F → Bool
  pub add : F → F → F
  pub sub : F → F → F
  pub mul : F → F → F
  pub div : F → F → F
  pub abs : F → F
  pub sum : List F → F
  pub round4 : F → F
  -- f"{x:.0%}"
  pub percent : F → String

module _ {F : Type 0} ⦃f : Float F⦄ where
  infix 50 ◌<=◌ ◌<<◌
  abbrev pub ◌<=◌ : F → F → Bool
  ◌<=◌ = f.le

  -- a < b: without NaN it is the negation of b <= a.
  abbrev pub ◌<<◌ : F → F → Bool
  a << b = not (f.le b a)

  abbrev pub whole : ℕ → F
  whole n = f.hundredths (n * 100)

  -- Python's `min` and `max` of two return the first unless the second is strictly beyond it.
  abbrev pub fmin : F → F → F
  fmin a b = if b << a then b else a

  abbrev pub fmax : F → F → F
  fmax a b = if a << b then b else a

  -- max(lo, min(hi, x))
  abbrev pub clamp : F → F → F → F
  clamp lo hi x = fmax lo (fmin hi x)

-- What Python documents of finite floats, as far as the theorems use it.
pub record IsFloat (F : Type 0) ⦃f : Float F⦄ : Type 0 where
  pub le_refl : (a : F) → f.le a a ≡ true
  pub le_total : (a b : F) → (f.le a b ≡ true) ⊎ (f.le b a ≡ true)
  pub hundredths_mono : (m n : ℕ) → m ≤ n → f.le (f.hundredths m) (f.hundredths n) ≡ true
  pub round4_mono : (a b : F) → f.le a b ≡ true → f.le (f.round4 a) (f.round4 b) ≡ true
  pub round4_hundredths : (n : ℕ) → f.round4 (f.hundredths n) ≡ f.hundredths n

-- The laws can be met: multiples of 10 ** -6 from zero on.
abbrev pub Micro : Type 0
Micro = ℕ

abbrev sum_micro : List Micro → Micro
sum_micro [] = 0
sum_micro (n ∷ ns) = n + sum_micro ns

abbrev pub micro_float : Float Micro
micro_float = record {
  hundredths = λ n. n * 10_000;
  millionth = 1;
  le = leb;
  add = λ a b. a + b;
  sub = λ a b. a - b;
  mul = λ a b. a * b / 1_000_000;
  div = λ a b. a * 1_000_000 / b;
  abs = λ a. a;
  sum = sum_micro;
  round4 = λ a. a / 100 * 100;
  percent = λ a. "%";
}

pub Micro-IsFloat : IsFloat Micro ⦃f = micro_float⦄
Micro-IsFloat = record {
  le_refl = λ a. ground arith;
  le_total = λ a b. ground arith;
  hundredths_mono = λ m n h. ground arith;
  round4_mono = λ a b h. ground arith;
  round4_hundredths = λ n. omega arith;
}
