-- ===== src/Interface/Command.antt =====
-- The commands of a joint in `write`, before they are sent: limited, validated, inverted. The command
-- state of the source refers to the joint's own command fields, so limiting, fallback and inversion
-- change the command interfaces themselves.
pub mod Prepared
use odrive_ros2_control.Prelude.{
  Bool, true, false, not, ◌&&◌, ◌||◌, Option, if◌then◌else◌, has_value,
}
use odrive_ros2_control.Fpu.{Fpu, zero_of, one_of, minus_one_of}
use odrive_ros2_control.Retry.{add_size}
use odrive_ros2_control.AxisControl.{AxisControlLevel, AxisCommandState, is_undefined}
use odrive_ros2_control.CommandValidation.{validate_joint_command, apply_rate_limiting}
use odrive_ros2_control.ErrorMonitoring.{extract_error_value}
use odrive_ros2_control.Interface.{SafetyConfig, JointContext, CycleStats}
use odrive_ros2_control.Interface.Reset.{finite_or_zero}

abbrev pub is_position : AxisControlLevel → Bool
is_position AxisControlLevel.position = true
is_position _ = false

abbrev pub is_velocity : AxisControlLevel → Bool
is_velocity AxisControlLevel.velocity = true
is_velocity _ = false

module _ {W F : Type 0} (u : Fpu W F) where
  open u use {is_finite, le, eq, mul, thousandths}

  -- The period for the rate limits: 1 ms if it is not positive and finite.
  unfoldable pub limiting_period : W → W
  limiting_period dt = if le dt (zero_of u) || not (is_finite dt) then thousandths 1 else dt

  abbrev pub command_state : JointContext W F → AxisCommandState W
  command_state j = record {
    command_position = j.command_position;
    command_velocity = j.command_velocity;
    command_effort = j.command_effort;
    state_position = j.position;
    state_velocity = j.velocity;
    state_effort = j.effort;
  }

  unfoldable pub has_fault : SafetyConfig → JointContext W F → Bool
  has_fault c j =
      c.mask_faulted_axes
      && (has_value (extract_error_value u j.axis_error)
          || has_value (extract_error_value u j.motor_error)
          || has_value (extract_error_value u j.encoder_error)
          || has_value (extract_error_value u j.controller_error))

  abbrev pub flag_of : Bool → W
  flag_of free = if free then zero_of u else one_of u

  abbrev pub count_event : Bool → CycleStats W → CycleStats W
  count_event free s =
      if free then s else record s { rate_limit_events = add_size s.rate_limit_events 1 }

  -- The position command is limited in position mode, the velocity command in position and velocity
  -- mode, and the effort command in every mode; `true` and the same command where none is due.
  unfoldable pub limit_if : Bool → W → W → Option W → W → Bool × W
  unfolding apply_rate_limiting
  limit_if due command last rate dt =
      if due then apply_rate_limiting u command last rate dt else (true, command)

  unfoldable pub limit_rates : W → JointContext W F → CycleStats W → JointContext W F × CycleStats W
  unfolding limit_if
  limit_rates dt j stats =
      let l = j.command_limits in
      let in_position = is_position j.control_level in
      let (free1, p) =
        limit_if in_position j.command_position j.last_command_position l.max_position_rate dt in
      let (free2, v) =
        limit_if (in_position || is_velocity j.control_level) j.command_velocity
          j.last_command_velocity l.max_velocity_rate dt in
      let (free3, e) = limit_if true j.command_effort j.last_command_effort l.max_effort_rate dt in
      (
        record j {
          command_position = p;
          command_velocity = v;
          command_effort = e;
          position_rate_limited = flag_of free1;
          velocity_rate_limited = flag_of free2;
          effort_rate_limited = flag_of free3;
        },
        count_event free3 (count_event free2 (count_event free1 stats)),
      )

  -- The fallback for a command that is rejected.
  unfoldable pub validate_or_hold :
      JointContext W F → CycleStats W → JointContext W F × CycleStats W
  validate_or_hold j stats =
      if has_value (validate_joint_command u j.command_limits j.control_level (command_state j))
        && not (is_undefined j.control_level)
      then (
        record j {
          command_position = finite_or_zero u j.position;
          command_velocity = finite_or_zero u j.velocity;
          command_effort = zero_of u;
        },
        record stats { command_validation_failures = add_size stats.command_validation_failures 1 },
      )
      else (j, stats)

  -- The inversion of the three commands.
  unfoldable pub invert_commands : JointContext W F → JointContext W F
  invert_commands j =
      if j.invert_axis
      then record j {
        command_position = mul j.command_position (minus_one_of u);
        command_velocity = mul j.command_velocity (minus_one_of u);
        command_effort = mul j.command_effort (minus_one_of u);
      }
      else j

  -- A sequence number that is not finite, or the one that was sent last.
  unfoldable pub is_stale : JointContext W F → Bool
  is_stale j =
      not (is_finite j.command_sequence) || eq j.command_sequence j.last_sent_command_sequence

  -- The commands as limited and validated, before the joint's branch is chosen.
  unfoldable pub prepare_command :
      W → JointContext W F → CycleStats W → JointContext W F × CycleStats W
  unfolding limit_rates validate_or_hold
  prepare_command dt j stats =
      let (limited, stats') = limit_rates dt j stats in validate_or_hold limited stats'
