-- ===== src/ErrorMonitoring/Registers.antt =====
-- What an error register that telemetry reads as an `int32_t` counts as.
use odrive_ros2_control.Prelude.{ℕ, ◌<◌, ◌≡◌, refl, Option, none, some, ◌==◌, if◌then◌else◌}
use odrive_ros2_control.Prelude.Int.{ℤ, pos, negsuc}
use odrive_ros2_control.Fpu.{Fpu}
use odrive_ros2_control.Fpu.Laws.{IsIeee}
use odrive_ros2_control.ErrorMonitoring.{extract_error_value}

-- The range of `int32_t`.
abbrev pub IsInt32 : ℤ → Type 0
IsInt32 (pos n) = n < 2147483648
IsInt32 (negsuc n) = n < 2147483648

-- The bits of a positive register.
abbrev pub positive_bits : ℤ → Option ℕ
positive_bits (pos n) = if n == 0 then none else some n
positive_bits (negsuc n) = none

module _ {W F : Type 0} (u : Fpu W F) where
  -- A register counts as an error, with its bits, exactly if it is positive as an `int32_t`. A
  -- register whose bit 31 is set, which is negative as an `int32_t`, counts as no error.
  pub extract_error_value-of_int :
      (raw : ℤ) → IsIeee u → IsInt32 raw → extract_error_value u (u.of_int raw) ≡ positive_bits raw
  unfolding extract_error_value
  extract_error_value-of_int (pos n) laws h =
      rw (laws.of_int_finite (pos n), laws.lt_zero-of_int n h, laws.to_u64-of_int n h) refl
  extract_error_value-of_int (negsuc n) laws h =
      rw (laws.of_int_finite (negsuc n), laws.lt_zero-of_negative n h) refl
