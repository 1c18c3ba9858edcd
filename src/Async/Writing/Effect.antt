-- ===== src/Async/Writing/Effect.antt =====
-- The joint of the synchronous path that the worker's slot corresponds to, and what a round does.
use odrive_ros2_control.Prelude.{Bool, ◌≡◌, Option, none, some}
use odrive_ros2_control.Prelude.Int.{ℤ}
use odrive_ros2_control.Fpu.{Fpu, zero_of}
use odrive_ros2_control.Transport.{Log}
use odrive_ros2_control.Interface.{JointContext, CycleStats}
use odrive_ros2_control.Interface.Write.{Round}
use odrive_ros2_control.Async.{JointCommand, Slot}
use odrive_ros2_control.Async.Writing.{SlotRound}

module _ {W F : Type 0} (u : Fpu W F) where
  -- The joint of the synchronous path that a slot corresponds to, with these three commands, and the
  -- mode and the sequence number of `k`.
  abbrev pub joint_with : W → W → W → JointCommand W → Slot W F → JointContext W F
  joint_with p v e k x = record {
    serial_number = x.static.serial_number;
    axis = x.static.axis;
    invert_axis = x.static.invert_axis;
    torque_constant = x.static.torque_constant;
    last_command_position = x.memory.last_command_position;
    last_command_velocity = x.memory.last_command_velocity;
    last_command_effort = x.memory.last_command_effort;
    last_valid_position = x.memory.last_valid_position;
    last_valid_velocity = x.memory.last_valid_velocity;
    enable_watchdog = x.static.enable_watchdog;
    command_position = p;
    command_velocity = v;
    command_effort = e;
    command_sequence = k.command_sequence;
    last_sent_command_sequence = x.memory.last_sent_command_sequence;
    position = x.telemetry.position;
    velocity = x.telemetry.velocity;
    effort = x.telemetry.effort;
    axis_error = x.telemetry.axis_error;
    motor_error = x.telemetry.motor_error;
    encoder_error = x.telemetry.encoder_error;
    controller_error = x.telemetry.controller_error;
    fet_temperature = x.telemetry.fet_temperature;
    motor_temperature = x.telemetry.motor_temperature;
    read_error = x.telemetry.read_error;
    write_error = x.telemetry.write_error;
    telemetry_valid = x.telemetry.telemetry_valid;
    healthy = x.telemetry.healthy;
    position_rate_limited = x.telemetry.position_rate_limited;
    velocity_rate_limited = x.telemetry.velocity_rate_limited;
    effort_rate_limited = x.telemetry.effort_rate_limited;
    control_level = k.control_level;
    command_limits = x.static.command_limits;
    last_axis_error = 0;
    last_motor_error = 0;
    last_encoder_error = 0;
    last_controller_error = 0;
    feedback_limits = x.static.feedback_limits;
  }

  -- The joint that a slot and its command correspond to.
  abbrev pub joint_of : JointCommand W → Slot W F → JointContext W F
  joint_of k x = joint_with k.command_position k.command_velocity k.command_effort k x

  -- The rate-limiter flags are clear, as at the start of a cycle.
  pub record IsCleared (x : Slot W F) : Type 0 where
    pub position_clear : x.telemetry.position_rate_limited ≡ zero_of u
    pub velocity_clear : x.telemetry.velocity_rate_limited ≡ zero_of u
    pub effort_clear : x.telemetry.effort_rate_limited ≡ zero_of u

  -- What a round does, seen from outside: the fault flags, what it reports and remembers of the
  -- command, the statistics, the status that ends the cycle, and what was sent.
  pub record Effect : Type 0 where
    pub faulted : Option Bool
    pub idle_requested : Option Bool
    pub write_error : W
    pub last_command_position : W
    pub last_command_velocity : W
    pub last_command_effort : W
    pub last_sent_command_sequence : W
    pub position_rate_limited : W
    pub velocity_rate_limited : W
    pub effort_rate_limited : W
    pub stats : CycleStats W
    pub lost : Option ℤ
    pub log : Log F

  abbrev pub status_of {ℓ} : {B : Type ℓ} → Option (ℤ × B) → Option ℤ
  status_of none = none
  status_of (some (status, b)) = some status

  abbrev pub sync_effect : Round W F → Effect
  sync_effect r = record {
    faulted = r.faulted;
    idle_requested = r.idle_requested;
    write_error = r.joint.write_error;
    last_command_position = r.joint.last_command_position;
    last_command_velocity = r.joint.last_command_velocity;
    last_command_effort = r.joint.last_command_effort;
    last_sent_command_sequence = r.joint.last_sent_command_sequence;
    position_rate_limited = r.joint.position_rate_limited;
    velocity_rate_limited = r.joint.velocity_rate_limited;
    effort_rate_limited = r.joint.effort_rate_limited;
    stats = r.stats;
    lost = status_of r.lost;
    log = r.log;
  }

  abbrev pub slot_effect : SlotRound W F → Effect
  slot_effect r = record {
    faulted = some r.slot.memory.axis_faulted;
    idle_requested = some r.slot.memory.idle_requested_on_fault;
    write_error = r.slot.telemetry.write_error;
    last_command_position = r.slot.memory.last_command_position;
    last_command_velocity = r.slot.memory.last_command_velocity;
    last_command_effort = r.slot.memory.last_command_effort;
    last_sent_command_sequence = r.slot.memory.last_sent_command_sequence;
    position_rate_limited = r.slot.telemetry.position_rate_limited;
    velocity_rate_limited = r.slot.telemetry.velocity_rate_limited;
    effort_rate_limited = r.slot.telemetry.effort_rate_limited;
    stats = r.stats;
    lost = status_of r.lost;
    log = r.log;
  }
