-- ===== src/Async/Drafting.antt =====
-- The command of a joint before the worker sends it: limited and validated on local copies.
use odrive_ros2_control.Prelude.{
  Bool, true, not, ◌&&◌, ◌||◌, Option, none, some, if◌then◌else◌, has_value,
}
use odrive_ros2_control.Fpu.{Fpu, zero_of, one_of, minus_one_of}
use odrive_ros2_control.Retry.{add_size}
use odrive_ros2_control.AxisControl.{AxisControlLevel, AxisCommandState, is_undefined}
use odrive_ros2_control.CommandValidation.{validate_joint_command}
use odrive_ros2_control.ErrorMonitoring.{extract_error_value}
use odrive_ros2_control.Interface.{SafetyConfig, CycleStats}
use odrive_ros2_control.Interface.Reset.{finite_or_zero}
use odrive_ros2_control.Interface.Command.{is_position, is_velocity, count_event, limit_if}
use odrive_ros2_control.Async.{JointCommand, JointTelemetry, Slot}

-- A command while it is prepared, with the joint and the statistics.
pub record Draft (W F : Type 0) : Type 0 where
  pub command : AxisCommandState W
  pub slot : Slot W F
  pub stats : CycleStats W

module _ {W F : Type 0} where
  abbrev pub with_write_error : W → Slot W F → Slot W F
  with_write_error error x = record x { telemetry = record (x.telemetry) { write_error = error } }

  abbrev pub with_faulted : Bool → Slot W F → Slot W F
  with_faulted b x = record x { memory = record (x.memory) { axis_faulted = b } }

  abbrev pub with_idle_requested : Bool → Slot W F → Slot W F
  with_idle_requested b x = record x { memory = record (x.memory) { idle_requested_on_fault = b } }

module _ {W F : Type 0} (u : Fpu W F) where
  open u use {of_int, is_finite, eq, lt, mul, quiet_nan, seconds}

  -- The command at an index, and its default beyond the end of the vectors.
  abbrev pub command_at : Option (JointCommand W) → JointCommand W
  command_at (some c) = c
  command_at none = record {
    command_position = zero_of u;
    command_velocity = zero_of u;
    command_effort = zero_of u;
    control_level = AxisControlLevel.undefined;
    command_sequence = quiet_nan;
  }

  abbrev pub async_has_fault : SafetyConfig → JointTelemetry W → Bool
  async_has_fault c x =
      c.mask_faulted_axes
      && (has_value (extract_error_value u x.axis_error)
          || has_value (extract_error_value u x.motor_error)
          || has_value (extract_error_value u x.encoder_error)
          || has_value (extract_error_value u x.controller_error))

  -- A flag is set where a command is limited, and else left.
  abbrev pub set_limited : Bool → W → W
  set_limited free old = if free then old else one_of u

  unfoldable pub draft_command : W → JointCommand W → Slot W F → CycleStats W → Draft W F
  unfolding limit_if
  draft_command dt c x stats =
      let l = x.static.command_limits in
      let m = x.memory in
      let in_position = is_position c.control_level in
      let (free1, p) =
        limit_if u in_position c.command_position m.last_command_position l.max_position_rate dt in
      let (free2, v) =
        limit_if u (in_position || is_velocity c.control_level) c.command_velocity
          m.last_command_velocity l.max_velocity_rate dt in
      let (free3, e) =
        limit_if u true c.command_effort m.last_command_effort l.max_effort_rate dt in
      record {
        command = record {
          command_position = p;
          command_velocity = v;
          command_effort = e;
          state_position = x.telemetry.position;
          state_velocity = x.telemetry.velocity;
          state_effort = x.telemetry.effort;
        };
        slot = record x {
          telemetry = record (x.telemetry) {
            position_rate_limited = set_limited free1 x.telemetry.position_rate_limited;
            velocity_rate_limited = set_limited free2 x.telemetry.velocity_rate_limited;
            effort_rate_limited = set_limited free3 x.telemetry.effort_rate_limited;
          };
        };
        stats = count_event u free3 (count_event u free2 (count_event u free1 stats));
      }

  -- The fallback for a command that is rejected.
  unfoldable pub check_draft : AxisControlLevel → Draft W F → Draft W F
  check_draft level d =
      if has_value (validate_joint_command u d.slot.static.command_limits level d.command)
        && not (is_undefined level)
      then record d {
        command = record (d.command) {
          command_position = finite_or_zero u d.command.state_position;
          command_velocity = finite_or_zero u d.command.state_velocity;
          command_effort = zero_of u;
        };
        stats = record (d.stats) {
          command_validation_failures = add_size d.stats.command_validation_failures 1;
        };
      }
      else d

  -- The inversion, which is on the local copy of the command here.
  unfoldable pub invert_command : Bool → AxisCommandState W → AxisCommandState W
  invert_command invert_axis c =
      if invert_axis
      then record c {
        command_position = mul c.command_position (minus_one_of u);
        command_velocity = mul c.command_velocity (minus_one_of u);
        command_effort = mul c.command_effort (minus_one_of u);
      }
      else c
