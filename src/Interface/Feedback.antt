-- ===== src/Interface/Feedback.antt =====
-- What `read` does with one joint's feedback: the checks, the hold and the error registers.
use odrive_ros2_control.Prelude.{ℕ, Bool, false, not, ◌&&◌, Option, none, some, if◌then◌else◌}
use odrive_ros2_control.Prelude.Int.{ℤ, negsuc}
use odrive_ros2_control.Fpu.{Fpu, zero_of, one_of, minus_one_of}
use odrive_ros2_control.Configuration.{FeedbackLimits}
use odrive_ros2_control.AxisTelemetry.{AxisTelemetrySample}
use odrive_ros2_control.ErrorMonitoring.{
  ErrorTable, extract_error_value, log_error_transition, axis_error_table, motor_error_table,
  encoder_error_table, controller_error_table,
}
use odrive_ros2_control.Interface.{JointContext}
use odrive_ros2_control.Interface.Reset.{hold_joint_state}

module _ {W F : Type 0} (u : Fpu W F) where
  open u use {of_int, is_finite, lt, eq, sub, mul, abs}

  -- The joint's part of `mark_all_unhealthy_and_hold`.
  unfoldable pub mark_joint_unhealthy : ℤ → JointContext W F → JointContext W F
  unfolding hold_joint_state
  mark_joint_unhealthy status j =
      hold_joint_state u
        (record j { read_error = of_int status; healthy = zero_of u; telemetry_valid = zero_of u })

  -- `limit && value > *limit`
  abbrev pub exceeds : W → Option W → Bool
  exceeds value none = false
  exceeds value (some limit) = lt limit value

  -- The sanity checks: `feedback_valid` at their end.
  unfoldable pub feedback_valid : FeedbackLimits W → W → AxisTelemetrySample W → Bool
  feedback_valid l last_valid_position x =
      is_finite x.position
      && is_finite x.velocity
      && is_finite x.effort
      && not (exceeds (abs x.velocity) l.max_believable_velocity)
      && not (exceeds (abs x.effort) l.max_believable_effort)
      && not (
          is_finite last_valid_position
          && exceeds (abs (sub x.position last_valid_position)) l.max_position_discontinuity)

  unfoldable pub is_clear : W → Bool
  is_clear error = is_finite error && eq error (zero_of u)

  unfoldable pub errors_clear : AxisTelemetrySample W → Bool
  unfolding is_clear
  errors_clear x =
      is_clear x.axis_error
      && is_clear x.motor_error
      && is_clear x.encoder_error
      && is_clear x.controller_error

  -- `if (const auto v = extract_error_value(error)) log_..._error_transition(name, *v, last);`
  unfoldable pub track_error : ErrorTable → W → ℕ → ℕ
  unfolding log_error_transition
  track_error table error last = elim (extract_error_value u error) [
    | none ↦ last
    | some value ↦ (log_error_transition table value last).1
  ]

  -- The kinematic state of a sample that passed the checks: taken over with the sign of the axis if
  -- no error register is set, and else held.
  unfoldable pub take_state : JointContext W F → AxisTelemetrySample W → JointContext W F
  unfolding hold_joint_state
  take_state j x =
      let sign = if j.invert_axis then minus_one_of u else one_of u in
      if errors_clear x
      then record j {
        healthy = one_of u;
        effort = mul x.effort sign;
        velocity = mul x.velocity sign;
        position = mul x.position sign;
        last_valid_position = mul x.position sign;
        last_valid_velocity = mul x.velocity sign;
      }
      else hold_joint_state u (record j { healthy = zero_of u })

  -- The rest of the assignments from an accepted sample, and the log of the error transitions.
  unfoldable pub accept_sample : JointContext W F → AxisTelemetrySample W → JointContext W F
  unfolding take_state
  accept_sample j x = record (take_state j x) {
    axis_error = x.axis_error;
    motor_error = x.motor_error;
    encoder_error = x.encoder_error;
    controller_error = x.controller_error;
    fet_temperature = x.fet_temperature;
    motor_temperature = x.motor_temperature;
    read_error = zero_of u;
    telemetry_valid = one_of u;
    last_axis_error = track_error axis_error_table x.axis_error j.last_axis_error;
    last_motor_error = track_error motor_error_table x.motor_error j.last_motor_error;
    last_encoder_error = track_error encoder_error_table x.encoder_error j.last_encoder_error;
    last_controller_error =
        track_error controller_error_table x.controller_error j.last_controller_error;
  }

  -- A sample that fails the checks.
  unfoldable pub refuse_sample : JointContext W F → JointContext W F
  unfolding mark_joint_unhealthy
  refuse_sample j = mark_joint_unhealthy (negsuc 0) j
