-- ===== src/Prelude/Floats.antt =====
-- Python's finite floats: a type with the operations that the source uses, and the laws of
-- IEEE 754 arithmetic that the proofs rely on. Neither is code of the repository.
use Prim.Native.Nat.{ℕ, ◌<◌}
use mathlib.Core.Path.{◌≡◌}
use mathlib.Core.Bool.{Bool, true, false, not}

pub record Floats : Type 1 where
  pub Float : Type 0
  pub float_zero : Float
  pub float_half : Float
  pub float_one : Float
  -- `float(n)`
  pub of_ℕ : ℕ → Float
  -- `a / b` on two ints, rounded once
  pub ratio : ℕ → ℕ → Float
  pub add : Float → Float → Float
  pub sub : Float → Float → Float
  pub mul : Float → Float → Float
  pub div : Float → Float → Float
  pub lt : Float → Float → Bool
  pub le : Float → Float → Bool

-- Laws of the comparisons, and of adding and dividing what is not negative.
pub record FloatLaws (fl : Floats) : Type 0 where
  pub le-not_lt : (a b : fl.Float) → fl.le a b ≡ not (fl.lt b a)
  pub zero-lt-half : fl.lt fl.float_zero fl.float_half ≡ true
  pub zero-lt-one : fl.lt fl.float_zero fl.float_one ≡ true
  pub add-zero : (a : fl.Float) → fl.add a fl.float_zero ≡ a
  -- a sum with a positive term is positive, if no term is negative
  pub add_pos_left :
      (a b : fl.Float)
      → fl.lt fl.float_zero a ≡ true
      → fl.lt b fl.float_zero ≡ false
      → fl.lt fl.float_zero (fl.add a b) ≡ true
  pub add_pos_right :
      (a b : fl.Float)
      → fl.lt a fl.float_zero ≡ false
      → fl.lt fl.float_zero b ≡ true
      → fl.lt fl.float_zero (fl.add a b) ≡ true
  pub lt_asymm : (a b : fl.Float) → fl.lt a b ≡ true → fl.lt b a ≡ false
  pub zero-div :
      (t : fl.Float) → fl.lt fl.float_zero t ≡ true → fl.div fl.float_zero t ≡ fl.float_zero
  -- the quotients of 1.0 and 0.5 by a finite float do not underflow to zero
  pub one-div_pos :
      (t : fl.Float)
      → fl.lt fl.float_zero t ≡ true
      → fl.lt fl.float_zero (fl.div fl.float_one t) ≡ true
  pub half-div_pos :
      (t : fl.Float)
      → fl.lt fl.float_zero t ≡ true
      → fl.lt fl.float_zero (fl.div fl.float_half t) ≡ true
  -- the quotient of two ints is not negative
  pub quotient-nonneg :
      (a b : ℕ) → 0 < b → fl.lt (fl.div (fl.of_ℕ a) (fl.of_ℕ b)) fl.float_zero ≡ false
