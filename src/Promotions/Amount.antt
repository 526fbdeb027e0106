-- ===== src/Promotions/Amount.antt =====
-- The numbers that the promotion engine computes with: finite doubles.
use Prim.Native.Nat.{◌/◌}
use smart_light.Prelude.{
  ℕ, ◌+◌, ◌-◌, ◌*◌, Bool, true, false, not, ◌&&◌, ◌≡◌, arith, leb, if◌then◌else◌,
}

pub record Amount (W : Type 0) : Type 0 where
  pub zero : W
  pub hundred : W
  pub add : W → W → W
  pub sub : W → W → W
  pub mul : W → W → W
  pub div : W → W → W
  pub le : W → W → Bool

module _ {W : Type 0} ⦃w : Amount W⦄ where
  infix 50 ◌≤?◌ ◌<?◌
  abbrev pub ◌≤?◌ : W → W → Bool
  a ≤? b = w.le a b

  abbrev pub ◌<?◌ : W → W → Bool
  a <? b = not (w.le b a)

  -- `a === b`
  abbrev pub is_equal : W → W → Bool
  is_equal a b = w.le a b && w.le b a

  -- Math.min and Math.max
  abbrev pub least : W → W → W
  least a b = if w.le a b then a else b

  abbrev pub greatest : W → W → W
  greatest a b = if w.le a b then b else a

-- What holds of finite doubles, rounding included: the order is total, a difference with something
-- that is not negative is not above, and a sum of two numbers that are not negative is not negative.
pub record IsOrdered (W : Type 0) ⦃w : Amount W⦄ : Type 0 where
  pub le_total : (a b : W) → w.le a b ≡ false → w.le b a ≡ true
  pub le_refl : (a : W) → w.le a a ≡ true
  pub le_trans : (a b c : W) → w.le a b ≡ true → w.le b c ≡ true → w.le a c ≡ true
  pub sub_le : (a b : W) → w.le w.zero b ≡ true → w.le (w.sub a b) a ≡ true
  pub add_nonneg :
      (a b : W) → w.le w.zero a ≡ true → w.le w.zero b ≡ true → w.le w.zero (w.add a b) ≡ true

-- The laws can be met: whole numbers.
instance abbrev pub whole : Amount ℕ
whole = record {
  zero = 0;
  hundred = 100;
  add = λ a b. a + b;
  sub = λ a b. a - b;
  mul = λ a b. a * b;
  div = λ a b. a / b;
  le = leb;
}

pub ℕ-IsOrdered : IsOrdered ℕ
ℕ-IsOrdered = record {
  le_total = λ a b h. ground arith;
  le_refl = λ a. ground arith;
  le_trans = λ a b c h k. ground (arith, h, k);
  sub_le = λ a b h. ground arith;
  add_nonneg = λ a b h k. ground arith;
}
