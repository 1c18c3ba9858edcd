-- ===== src/AxisTelemetry.antt =====
-- odrive_hardware_interface/src/axis_telemetry.cpp and axis_telemetry.hpp.
pub mod Reading
use odrive_ros2_control.Prelude.{ℕ, String, List, [], ◌∷◌, if◌then◌else◌}
use odrive_ros2_control.Prelude.Int.{ℤ, pos, eq_ℤ}
use odrive_ros2_control.Fpu.{Fpu, zero_of}
use odrive_ros2_control.Endpoints.{
  axis_endpoint, axis__motor__current_control__iq_measured, axis__encoder__vel_estimate,
  axis__encoder__pos_estimate, axis__error, axis__motor__error, axis__encoder__error,
  axis__controller__error, axis__fet_thermistor__temperature, axis__motor_thermistor__temperature,
}
use odrive_ros2_control.Transport.{Log, Transport, read_float, read_int32}
use odrive_ros2_control.AxisControl.{Outcome, success}

pub record AxisTelemetrySample (W : Type 0) : Type 0 where
  pub effort : W
  pub velocity : W
  pub position : W
  pub axis_error : W
  pub motor_error : W
  pub encoder_error : W
  pub controller_error : W
  pub fet_temperature : W
  pub motor_temperature : W

-- One block of the function: the stage, the endpoint, and what the value read does to the sample.
pub data Block (W F : Type 0) : Type 0 where
  float : String → ℕ → (AxisTelemetrySample W → F → AxisTelemetrySample W) → Block W F
  int32 : String → ℕ → (AxisTelemetrySample W → ℤ → AxisTelemetrySample W) → Block W F

module _ {W F : Type 0} (u : Fpu W F) where
  open u use {of_int, to_double, mul_float, turns_to_radians}

  -- The sample as its declaration initialises it.
  unfoldable pub empty_sample : AxisTelemetrySample W
  empty_sample = record {
    effort = zero_of u;
    velocity = zero_of u;
    position = zero_of u;
    axis_error = zero_of u;
    motor_error = zero_of u;
    encoder_error = zero_of u;
    controller_error = zero_of u;
    fet_temperature = zero_of u;
    motor_temperature = zero_of u;
  }

  -- The nine blocks, in order.
  abbrev pub blocks : F → List (Block W F)
  blocks torque_constant =
      float "reading motor current" axis__motor__current_control__iq_measured
        (λ s x. record s { effort = to_double (mul_float x torque_constant) })
      ∷ float "reading velocity estimate" axis__encoder__vel_estimate
          (λ s x. record s { velocity = to_double (mul_float x turns_to_radians) })
      ∷ float "reading position estimate" axis__encoder__pos_estimate
          (λ s x. record s { position = to_double (mul_float x turns_to_radians) })
      ∷ int32 "reading axis error" axis__error (λ s n. record s { axis_error = of_int n })
      ∷ int32 "reading motor error" axis__motor__error (λ s n. record s { motor_error = of_int n })
      ∷ int32 "reading encoder error" axis__encoder__error
          (λ s n. record s { encoder_error = of_int n })
      ∷ int32 "reading controller error" axis__controller__error
          (λ s n. record s { controller_error = of_int n })
      ∷ float "reading fet temperature" axis__fet_thermistor__temperature
          (λ s x. record s { fet_temperature = to_double x })
      ∷ float "reading motor temperature" axis__motor_thermistor__temperature
          (λ s x. record s { motor_temperature = to_double x })
      ∷ []

  module _ (t : Transport F) (serial axis : ℤ) where
    -- The blocks run in turn: a value is stored if its read succeeds, and the first failure returns.
    unfoldable pub run_blocks :
        List (Block W F) → AxisTelemetrySample W → Log F → Outcome × AxisTelemetrySample W × Log F
    unfolding read_float read_int32
    run_blocks [] sample log = (success, sample, log)
    run_blocks (float stage endpoint store ∷ rest) sample log =
        let (status, x, log') = read_float t serial (axis_endpoint endpoint axis) log in
        let next = run_blocks rest (store sample x) log' in
        if eq_ℤ status (pos 0)
        then next
        else (record { status = status; failing_stage = stage }, sample, log')
    run_blocks (int32 stage endpoint store ∷ rest) sample log =
        let (status, n, log') = read_int32 t serial (axis_endpoint endpoint axis) log in
        let next = run_blocks rest (store sample n) log' in
        if eq_ℤ status (pos 0)
        then next
        else (record { status = status; failing_stage = stage }, sample, log')

    unfoldable pub read_axis_telemetry :
        F → AxisTelemetrySample W → Log F → Outcome × AxisTelemetrySample W × Log F
    unfolding run_blocks
    read_axis_telemetry torque_constant = run_blocks (blocks torque_constant)
