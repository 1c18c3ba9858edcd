-- ===== src/Tests/Data.antt =====
-- A joint, an interface and three transports, for the examples.
use odrive_ros2_control.Prelude.{ℕ, refl, true, false, none, some, [], ◌∷◌}
use odrive_ros2_control.Prelude.Int.{pos, negsuc}
use odrive_ros2_control.Fpu.Exact.{Exact, exact}
use odrive_ros2_control.Transport.{Transport}
use odrive_ros2_control.AxisControl.{AxisControlLevel}
use odrive_ros2_control.Configuration.{CommandLimits, JointConfig}
use odrive_ros2_control.CommandValidation.Bounds.{FiniteLimits}
use odrive_ros2_control.Interface.{
  SafetyConfig, TransportLogState, JointContext, CycleStats, Interface, Instants,
}

abbrev pub number : ℕ → Exact
number n = some (pos n)

-- Every operation is accepted, every float is 3 and every register 0.
abbrev pub accepting : Transport Exact
accepting = record {
  status = λ log o. pos 0;
  float_at = λ log o. number 3;
  int32_at = λ log o. pos 0;
  uint32_at = λ log o. 0;
}

-- The device is gone.
abbrev pub gone : Transport Exact
gone = record accepting { status = λ log o. negsuc 3 }

abbrev pub limits : CommandLimits Exact
limits = record {
  position_min = some (some (negsuc 9));
  position_max = some (number 10);
  velocity_min = none;
  velocity_max = some (number 5);
  effort_min = none;
  effort_max = some (number 2);
  max_position_rate = some (number 1000);
  max_velocity_rate = none;
  max_effort_rate = none;
}

pub limits-FiniteLimits : FiniteLimits exact limits
limits-FiniteLimits = record {
  position_min_finite = refl;
  position_max_finite = refl;
  velocity_min_finite = tt;
  velocity_max_finite = refl;
  effort_min_finite = tt;
  effort_max_finite = refl;
}

-- An axis in position mode with its watchdog enabled.
abbrev pub elbow : JointContext Exact Exact
elbow = record {
  serial_number = pos 7;
  axis = pos 1;
  invert_axis = true;
  torque_constant = number 1;
  last_command_position = number 0;
  last_command_velocity = number 0;
  last_command_effort = number 0;
  last_valid_position = number 0;
  last_valid_velocity = number 0;
  enable_watchdog = true;
  command_position = number 4;
  command_velocity = number 1;
  command_effort = number 1;
  command_sequence = number 5;
  last_sent_command_sequence = none;
  position = number 3;
  velocity = number 0;
  effort = number 0;
  axis_error = number 0;
  motor_error = number 0;
  encoder_error = number 0;
  controller_error = number 0;
  fet_temperature = number 40;
  motor_temperature = number 40;
  read_error = number 0;
  write_error = number 0;
  telemetry_valid = number 0;
  healthy = number 0;
  position_rate_limited = number 0;
  velocity_rate_limited = number 0;
  effort_rate_limited = number 0;
  control_level = AxisControlLevel.position;
  command_limits = limits;
  last_axis_error = 0;
  last_motor_error = 0;
  last_encoder_error = 0;
  last_controller_error = 0;
  feedback_limits = record {
    max_believable_velocity = some (number 50);
    max_believable_effort = none;
    max_position_discontinuity = some (number 20);
  };
}

-- The same axis with its watchdog expired.
abbrev pub faulty : JointContext Exact Exact
faulty = record elbow { axis_error = number 2048 }

abbrev pub safety : SafetyConfig
safety = record {
  gate_outputs_with_lifecycle = true;
  mask_faulted_axes = true;
  request_idle_on_axis_fault = true;
  gate_stale_commands_with_command_sequence = true;
}

abbrev pub stats : CycleStats Exact
stats = record {
  read_cycles = 0;
  write_cycles = 0;
  read_deadline_misses = 0;
  write_deadline_misses = 0;
  max_read_cycle_time_sec = number 0;
  max_write_cycle_time_sec = number 0;
  usb_read_retries_total = 0;
  usb_write_retries_total = 0;
  command_validation_failures = 0;
  rate_limit_events = 0;
}

abbrev pub health : TransportLogState
health = record {
  known = true;
  ok = true;
  last_error_code = pos 0;
  last_context = "";
  offline_since = 0;
  last_transition = 0;
  last_summary = 0;
}

abbrev pub at : Instants
at = record { start = 100; event = 200; diagnosis = 300; finish = 400 }

-- One drive with both joints, active.
abbrev pub active : Interface Exact Exact
active = record {
  connected = true;
  outputs_enabled = true;
  safety_config = safety;
  runtime_config = record {
    usb_timeout_ms = 100;
    log_throttle_ms = 1000;
    transport_summary_period_sec = number 5;
    usb_read_retries = 3;
    usb_write_retries = 3;
    usb_retry_delay_ms = 1;
    max_read_cycle_time_sec = number 1;
    max_write_cycle_time_sec = number 1;
    enable_deadline_warnings = true;
    enable_async_io = false;
    async_cycle_deadline_sec = number 1;
  };
  axis_faulted = false ∷ false ∷ [];
  idle_requested_on_fault = false ∷ false ∷ [];
  joint_claimed = true ∷ true ∷ [];
  cycle_stats = stats;
  transport_log_state = health;
  diagnostics = record { present = false; period = 0; last_update = none; updates = 0 };
  joint_names = "elbow" ∷ "wrist" ∷ [];
  hardware_config = record { sensors = []; joints = [] };
  sensors =
      record { serial_number = pos 7; vbus_voltage = number 24; transport_error = number 0 } ∷ [];
  drives =
      record {
        serial_number = pos 7;
        label = "arm";
        can_error = 0;
        can_error_read_error = number 0;
      }
      ∷ [];
  joints = elbow ∷ faulty ∷ [];
}

-- The same before activation.
abbrev pub inactive : Interface Exact Exact
inactive = record active { connected = false; outputs_enabled = false }

abbrev elbow_config : JointConfig Exact
elbow_config = record {
  name = "elbow";
  serial_number = pos 7;
  axis = pos 1;
  enable_watchdog = true;
  watchdog_timeout = number 1;
  invert_axis = true;
  command_limits = limits;
  feedback_limits = elbow.feedback_limits;
}

-- The same with its configuration, so that activation can succeed.
abbrev pub configured : Interface Exact Exact
configured = record inactive {
  hardware_config = record {
    sensors = record { name = "bus"; serial_number = pos 7 } ∷ [];
    joints = elbow_config ∷ elbow_config ∷ [];
  };
}
