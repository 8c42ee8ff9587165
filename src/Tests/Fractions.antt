-- ===== src/Tests/Fractions.antt =====
-- Fractions that are not negative, as an instance of the float interface.
use srv6_ai_fabric.Prelude.Floats.{Floats, FloatLaws}
use srv6_ai_fabric.Prelude.{Bool, arith, if◌then◌else◌, ltb, not, refl, ℕ, ◌*◌, ◌+◌, ◌-◌, ◌==◌, ◌≡◌}

-- n / (d + 1)
pub record Fraction : Type 0 where
  pub num : ℕ
  pub den : ℕ

abbrev pub frac : ℕ → ℕ → Fraction
frac n d = record { num = n; den = d }

abbrev lt_frac : Fraction → Fraction → Bool
lt_frac a b = ltb (a.num * (b.den + 1)) (b.num * (a.den + 1))

abbrev add_frac : Fraction → Fraction → Fraction
add_frac a b = frac (a.num * (b.den + 1) + b.num * (a.den + 1)) ((a.den + 1) * (b.den + 1) - 1)

abbrev sub_frac : Fraction → Fraction → Fraction
sub_frac a b = frac (a.num * (b.den + 1) - b.num * (a.den + 1)) ((a.den + 1) * (b.den + 1) - 1)

abbrev div_frac : Fraction → Fraction → Fraction
div_frac a b = if a.num == 0 then frac 0 0 else frac (a.num * (b.den + 1)) ((a.den + 1) * b.num - 1)

abbrev pub fractions : Floats
fractions = record {
  Float = Fraction;
  float_zero = frac 0 0;
  float_half = frac 1 1;
  float_one = frac 1 0;
  of_ℕ = λ n. frac n 0;
  ratio = λ a b. frac a (b - 1);
  add = add_frac;
  sub = sub_frac;
  mul = λ a b. frac (a.num * b.num) ((a.den + 1) * (b.den + 1) - 1);
  div = div_frac;
  lt = lt_frac;
  le = λ a b. not (lt_frac b a);
}

eq_frac : (a b : Fraction) → a.num ≡ b.num → a.den ≡ b.den → a ≡ b
eq_frac a b p q = λ i. record { num = p i; den = q i }

pub fraction_laws : FloatLaws fractions
fraction_laws = record {
  le-not_lt = λ a b. refl;
  zero-lt-half = refl;
  zero-lt-one = refl;
  add-zero = λ a. eq_frac _ _ (omega arith) (omega arith);
  add_pos_left = λ a b h k. ground arith;
  add_pos_right = λ a b h k. ground arith;
  lt_asymm = λ a b h. ground arith;
  zero-div = λ t h. refl;
  one-div_pos = λ t h. ground arith;
  half-div_pos = λ t h. ground arith;
  quotient-nonneg = λ a b h. ground arith;
}
