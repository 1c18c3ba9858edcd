-- ===== src/Fpu.antt =====
-- The floating-point unit: `double` (W) and `float` (F) with the operations that the driver uses.
-- Their arithmetic is the platform's, so it is a parameter of the model.
pub mod Laws
pub mod Exact
use odrive_ros2_control.Prelude.{ℕ, Bool}
use odrive_ros2_control.Prelude.Int.{ℤ}

pub record Fpu (W F : Type 0) : Type 0 where
  -- `static_cast<double>` of an int, of an unsigned int, and `static_cast<uint64_t>` of a double
  pub of_int : ℤ → W
  pub of_uint : ℕ → W
  pub to_u64 : W → ℕ
  -- the conversions between `float` and `double`
  pub to_float : W → F
  pub to_double : F → W
  -- `NaN`, and decimal literals, as a number of thousandths
  pub quiet_nan : W
  pub thousandths : ℕ → W
  -- `std::numeric_limits<float>::max()` and `lowest()`, as doubles
  pub float_max : W
  pub float_lowest : W
  -- `kRadiansToTurns`, and `kTurnsToRadians` as a `float`
  pub radians_to_turns : W
  pub turns_to_radians : F
  pub is_finite : W → Bool
  -- `<`; `a > b` is `lt b a`
  pub lt : W → W → Bool
  -- `<=`; `a >= b` is `le b a`
  pub le : W → W → Bool
  -- `==` of doubles
  pub eq : W → W → Bool
  pub add : W → W → W
  pub sub : W → W → W
  pub mul : W → W → W
  pub abs : W → W
  pub copysign : W → W → W
  -- `float` multiplication
  pub mul_float : F → F → F
  -- the seconds in a number of nanoseconds of the steady clock
  pub seconds : ℕ → W

module _ {W F : Type 0} (u : Fpu W F) where
  open u use {of_int}

  -- the literals 0.0, 1.0 and -1.0
  abbrev pub zero_of : W
  zero_of = of_int (ℤ.pos 0)

  abbrev pub one_of : W
  one_of = of_int (ℤ.pos 1)

  abbrev pub minus_one_of : W
  minus_one_of = of_int (ℤ.negsuc 0)
