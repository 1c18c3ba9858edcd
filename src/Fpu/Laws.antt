-- ===== src/Fpu/Laws.antt =====
-- What the proofs rely on of IEEE 754 arithmetic, each law by its name.
use odrive_ros2_control.Prelude.{ℕ, ◌<◌, ◌≡◌, true, false}
use odrive_ros2_control.Prelude.Int.{ℤ, pos, negsuc}
use odrive_ros2_control.Fpu.{Fpu}

pub record IsIeee {W F : Type 0} (u : Fpu W F) : Type 0 where
  -- an int converts to a finite double, and NaN is not finite
  pub of_int_finite : (n : ℤ) → u.is_finite (u.of_int n) ≡ true
  pub nan_not_finite : u.is_finite u.quiet_nan ≡ false
  -- a product with 1.0 or -1.0 is exact
  pub mul_one_finite :
      (x : W) → u.is_finite x ≡ true → u.is_finite (u.mul x (u.of_int (pos 1))) ≡ true
  pub mul_minus_one_finite :
      (x : W) → u.is_finite x ≡ true → u.is_finite (u.mul x (u.of_int (negsuc 0))) ≡ true
  -- finite numbers are ordered, the order is consistent, and a finite number equals itself
  pub le_of_not_lt :
      (x y : W) → u.is_finite x ≡ true → u.is_finite y ≡ true → u.lt x y ≡ false → u.le y x ≡ true
  pub not_lt_of_le : (x y : W) → u.le y x ≡ true → u.lt x y ≡ false
  pub eq_refl : (x : W) → u.is_finite x ≡ true → u.eq x x ≡ true
  -- an int32_t converts without loss: it comes back the same if it is not negative, and is compared
  -- with 0.0 as it was with 0
  pub to_u64-of_int : (n : ℕ) → n < 2147483648 → u.to_u64 (u.of_int (pos n)) ≡ n
  pub lt_zero-of_int : (n : ℕ) → n < 2147483648 → u.lt (u.of_int (pos n)) (u.of_int (pos 0)) ≡ false
  pub lt_zero-of_negative :
      (n : ℕ) → n < 2147483648 → u.lt (u.of_int (negsuc n)) (u.of_int (pos 0)) ≡ true
