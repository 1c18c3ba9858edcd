-- ===== src/Interface.antt =====
-- The state of `ODriveHardwareInterface`, odrive_hardware_interface/include/
-- odrive_hardware_interface/odrive_hardware_interface.hpp. Its methods are the modules below.
pub mod Health
pub mod Reset
pub mod Feedback
pub mod Read
pub mod Command
pub mod Write
pub mod Modes
pub mod ModeSwitch
pub mod Lifecycle
pub mod Session
use odrive_ros2_control.Prelude.{ℕ, Bool, String, List, Option}
use odrive_ros2_control.Prelude.Int.{ℤ}
use odrive_ros2_control.AxisControl.{AxisControlLevel}
use odrive_ros2_control.Configuration.{CommandLimits, FeedbackLimits, HardwareConfiguration}

pub record SafetyConfig : Type 0 where
  pub gate_outputs_with_lifecycle : Bool
  pub mask_faulted_axes : Bool
  pub request_idle_on_axis_fault : Bool
  pub gate_stale_commands_with_command_sequence : Bool

pub record RuntimeConfig (W : Type 0) : Type 0 where
  pub usb_timeout_ms : ℕ
  pub log_throttle_ms : ℕ
  pub transport_summary_period_sec : W
  pub usb_read_retries : ℕ
  pub usb_write_retries : ℕ
  pub usb_retry_delay_ms : ℕ
  pub max_read_cycle_time_sec : W
  pub max_write_cycle_time_sec : W
  pub enable_deadline_warnings : Bool
  pub enable_async_io : Bool
  pub async_cycle_deadline_sec : W

-- The time points are nanoseconds of the steady clock.
pub record TransportLogState : Type 0 where
  pub known : Bool
  pub ok : Bool
  pub last_error_code : ℤ
  pub last_context : String
  pub offline_since : ℕ
  pub last_transition : ℕ
  pub last_summary : ℕ

pub record SensorContext (W : Type 0) : Type 0 where
  pub serial_number : ℤ
  pub vbus_voltage : W
  pub transport_error : W

pub record DriveContext (W : Type 0) : Type 0 where
  pub serial_number : ℤ
  pub label : String
  pub can_error : ℕ
  pub can_error_read_error : W

pub record JointContext (W F : Type 0) : Type 0 where
  pub serial_number : ℤ
  pub axis : ℤ
  pub invert_axis : Bool
  pub torque_constant : F
  pub last_command_position : W
  pub last_command_velocity : W
  pub last_command_effort : W
  pub last_valid_position : W
  pub last_valid_velocity : W
  pub enable_watchdog : Bool
  pub command_position : W
  pub command_velocity : W
  pub command_effort : W
  pub command_sequence : W
  pub last_sent_command_sequence : W
  pub position : W
  pub velocity : W
  pub effort : W
  pub axis_error : W
  pub motor_error : W
  pub encoder_error : W
  pub controller_error : W
  pub fet_temperature : W
  pub motor_temperature : W
  pub read_error : W
  pub write_error : W
  pub telemetry_valid : W
  pub healthy : W
  pub position_rate_limited : W
  pub velocity_rate_limited : W
  pub effort_rate_limited : W
  pub control_level : AxisControlLevel
  pub command_limits : CommandLimits W
  pub last_axis_error : ℕ
  pub last_motor_error : ℕ
  pub last_encoder_error : ℕ
  pub last_controller_error : ℕ
  pub feedback_limits : FeedbackLimits W

pub record CycleStats (W : Type 0) : Type 0 where
  pub read_cycles : ℕ
  pub write_cycles : ℕ
  pub read_deadline_misses : ℕ
  pub write_deadline_misses : ℕ
  pub max_read_cycle_time_sec : W
  pub max_write_cycle_time_sec : W
  pub usb_read_retries_total : ℕ
  pub usb_write_retries_total : ℕ
  pub command_validation_failures : ℕ
  pub rate_limit_events : ℕ

-- The diagnostics object, if there is one: the period in nanoseconds, the time of the last update,
-- and how often `force_update` was called.
pub record Diagnostics : Type 0 where
  pub present : Bool
  pub period : ℕ
  pub last_update : Option ℕ
  pub updates : ℕ

-- `transport_` is null unless `connected`. The transport itself is known by its history, which the
-- methods take and return beside this record.
pub record Interface (W F : Type 0) : Type 0 where
  pub connected : Bool
  pub outputs_enabled : Bool
  pub safety_config : SafetyConfig
  pub runtime_config : RuntimeConfig W
  pub axis_faulted : List Bool
  pub idle_requested_on_fault : List Bool
  pub joint_claimed : List Bool
  pub cycle_stats : CycleStats W
  pub transport_log_state : TransportLogState
  pub diagnostics : Diagnostics
  pub joint_names : List String
  pub hardware_config : HardwareConfiguration W
  pub sensors : List (SensorContext W)
  pub drives : List (DriveContext W)
  pub joints : List (JointContext W F)

-- The clock at the points where a method reads it: at its start, where it reports the transport's
-- health, where it updates the diagnostics, and at its end.
pub record Instants : Type 0 where
  pub start : ℕ
  pub event : ℕ
  pub diagnosis : ℕ
  pub finish : ℕ
