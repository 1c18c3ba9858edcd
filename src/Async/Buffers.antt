-- ===== src/Async/Buffers.antt =====
-- `async_io_init_buffers`, `async_io_publish_snapshot`, `async_io_should_report_deadline_miss`, and
-- the start and the end of a cycle in `async_io_thread_main`.
use odrive_ros2_control.Prelude.{ℕ, ◌-◌, Bool, false, not, List, [], ◌∷◌, map, if◌then◌else◌}
use odrive_ros2_control.Prelude.Int.{pos}
use odrive_ros2_control.Fpu.{Fpu, zero_of}
use odrive_ros2_control.AxisControl.{AxisControlLevel}
use odrive_ros2_control.Interface.{RuntimeConfig, JointContext, Interface}
use odrive_ros2_control.Async.{
  AsyncJointStatic, JointCommand, JointTelemetry, AsyncMemory, AsyncIo, Slot, Work,
}

module _ {W F : Type 0} (u : Fpu W F) where
  open u use {lt, quiet_nan, seconds}

  unfoldable pub static_of : JointContext W F → AsyncJointStatic W F
  static_of j = record {
    serial_number = j.serial_number;
    axis = j.axis;
    invert_axis = j.invert_axis;
    enable_watchdog = j.enable_watchdog;
    torque_constant = j.torque_constant;
    command_limits = j.command_limits;
    feedback_limits = j.feedback_limits;
  }

  abbrev pub initial_command : JointCommand W
  initial_command = record {
    command_position = zero_of u;
    command_velocity = zero_of u;
    command_effort = zero_of u;
    control_level = AxisControlLevel.undefined;
    command_sequence = zero_of u;
  }

  abbrev pub initial_telemetry : JointTelemetry W
  initial_telemetry = record {
    position = zero_of u;
    velocity = zero_of u;
    effort = zero_of u;
    axis_error = quiet_nan;
    motor_error = quiet_nan;
    encoder_error = quiet_nan;
    controller_error = quiet_nan;
    fet_temperature = quiet_nan;
    motor_temperature = quiet_nan;
    read_error = zero_of u;
    write_error = zero_of u;
    telemetry_valid = zero_of u;
    healthy = zero_of u;
    position_rate_limited = zero_of u;
    velocity_rate_limited = zero_of u;
    effort_rate_limited = zero_of u;
  }

  abbrev pub initial_memory : AsyncMemory W
  initial_memory = record {
    last_command_position = quiet_nan;
    last_command_velocity = quiet_nan;
    last_command_effort = quiet_nan;
    last_sent_command_sequence = quiet_nan;
    last_valid_position = zero_of u;
    last_valid_velocity = zero_of u;
    axis_faulted = false;
    idle_requested_on_fault = false;
  }

  -- The statistics of the last snapshot and the start of the last cycle are left as they are.
  unfoldable pub async_io_init_buffers : Interface W F → AsyncIo W F → AsyncIo W F
  unfolding static_of
  async_io_init_buffers s io = record {
    stop = false;
    request_pending = false;
    in_flight = false;
    cycle_start = io.cycle_start;
    joint_static = map static_of s.joints;
    latest_command = record {
      dt_s = zero_of u;
      joints = map (λ (j : JointContext W F). initial_command) s.joints;
    };
    latest_telemetry = record {
      stamp = 0;
      transport_ok = s.connected;
      transport_error = pos 0;
      sensors =
          map (λ n. record { vbus_voltage = quiet_nan; transport_error = quiet_nan }) s.sensors;
      drives = map (λ d. record { can_error = 0; can_error_read_error = zero_of u }) s.drives;
      joints = map (λ (j : JointContext W F). initial_telemetry) s.joints;
      cycle_stats = io.latest_telemetry.cycle_stats;
    };
    memory = map (λ (j : JointContext W F). initial_memory) s.joints;
  }

  -- The test on the age of a cycle, for `async_io_should_report_deadline_miss` and for `read`.
  unfoldable pub async_io_should_report_deadline_miss : RuntimeConfig W → ℕ → AsyncIo W F → Bool
  async_io_should_report_deadline_miss c now io =
      if not io.in_flight
      then false
      else lt c.async_cycle_deadline_sec (seconds (now - io.cycle_start))

  -- The rate-limiter flags are cleared at the start of a cycle.
  unfoldable pub clear_limited : JointTelemetry W → JointTelemetry W
  clear_limited x = record x {
    position_rate_limited = zero_of u;
    velocity_rate_limited = zero_of u;
    effort_rate_limited = zero_of u;
  }

  -- The vectors side by side; they have as many elements.
  abbrev pub slots_of :
      List (AsyncJointStatic W F) → List (AsyncMemory W) → List (JointTelemetry W) → List (Slot W F)
  slots_of (s ∷ statics) (m ∷ memories) (x ∷ telemetries) =
      record { static = s; memory = m; telemetry = x } ∷ slots_of statics memories telemetries
  slots_of _ _ _ = []

  -- The snapshot that a cycle starts from: the last one, with the flags cleared.
  unfoldable pub begin_cycle : (connected : Bool) → (start : ℕ) → AsyncIo W F → Work W F
  unfolding clear_limited
  begin_cycle connected start io = record {
    ended = false;
    stamp = start;
    transport_ok = connected;
    transport_error = pos 0;
    sensors = io.latest_telemetry.sensors;
    drives = io.latest_telemetry.drives;
    slots = slots_of io.joint_static io.memory (map clear_limited io.latest_telemetry.joints);
    cycle_stats = io.latest_telemetry.cycle_stats;
  }

abbrev pub telemetry_of : {W F : Type 0} → Slot W F → JointTelemetry W
telemetry_of x = x.telemetry

abbrev pub memory_of : {W F : Type 0} → Slot W F → AsyncMemory W
memory_of x = x.memory

-- `publish_cycle`: the snapshot replaces the last one, and no cycle is in flight.
unfoldable pub publish_cycle : {W F : Type 0} → Work W F → AsyncIo W F → AsyncIo W F
publish_cycle w io = record io {
  in_flight = false;
  latest_telemetry = record {
    stamp = w.stamp;
    transport_ok = w.transport_ok;
    transport_error = w.transport_error;
    sensors = w.sensors;
    drives = w.drives;
    joints = map telemetry_of w.slots;
    cycle_stats = w.cycle_stats;
  };
  memory = map memory_of w.slots;
}
