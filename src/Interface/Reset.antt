-- ===== src/Interface/Reset.antt =====
-- `hold_joint_state` and `reset_runtime_state`.
use odrive_ros2_control.Prelude.{false, none, map, length, replicate, if◌then◌else◌}
use odrive_ros2_control.Fpu.{Fpu, zero_of}
use odrive_ros2_control.AxisControl.{AxisControlLevel}
use odrive_ros2_control.Interface.{SensorContext, JointContext, Interface}

module _ {W F : Type 0} (u : Fpu W F) where
  open u use {is_finite, quiet_nan, to_float}

  -- `x` if it is finite, and else 0.0.
  abbrev pub finite_or_zero : W → W
  finite_or_zero x = if is_finite x then x else zero_of u

  unfoldable pub hold_joint_state : JointContext W F → JointContext W F
  hold_joint_state j = record j {
    last_valid_position = finite_or_zero j.last_valid_position;
    position = finite_or_zero j.last_valid_position;
    velocity = zero_of u;
    effort = zero_of u;
  }

  -- The rate-limiter flags and the configuration of the joint stay as they are.
  unfoldable pub reset_joint : JointContext W F → JointContext W F
  reset_joint j =
      let position = finite_or_zero j.position in
      record j {
        position = position;
        velocity = zero_of u;
        effort = zero_of u;
        command_position = position;
        command_velocity = zero_of u;
        command_effort = zero_of u;
        command_sequence = zero_of u;
        last_sent_command_sequence = quiet_nan;
        last_command_position = position;
        last_command_velocity = zero_of u;
        last_command_effort = zero_of u;
        last_valid_position = position;
        last_valid_velocity = zero_of u;
        axis_error = quiet_nan;
        motor_error = quiet_nan;
        encoder_error = quiet_nan;
        controller_error = quiet_nan;
        fet_temperature = quiet_nan;
        motor_temperature = quiet_nan;
        read_error = zero_of u;
        write_error = zero_of u;
        telemetry_valid = zero_of u;
        healthy = zero_of u;
        torque_constant = to_float quiet_nan;
        control_level = AxisControlLevel.undefined;
        last_axis_error = 0;
        last_motor_error = 0;
        last_encoder_error = 0;
        last_controller_error = 0;
      }

  unfoldable pub reset_sensor : SensorContext W → SensorContext W
  reset_sensor s = record s { vbus_voltage = quiet_nan; transport_error = quiet_nan }

  unfoldable pub reset_runtime_state : Interface W F → Interface W F
  unfolding reset_joint reset_sensor
  reset_runtime_state s = record s {
    outputs_enabled = false;
    sensors = map reset_sensor s.sensors;
    joints = map reset_joint s.joints;
    diagnostics = record (s.diagnostics) { last_update = none };
    axis_faulted = replicate (length s.joints) false;
    idle_requested_on_fault = replicate (length s.joints) false;
    joint_claimed = replicate (length s.joints) false;
  }
