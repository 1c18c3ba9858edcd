-- ===== src/Async.antt =====
-- The worker thread of the asynchronous mode, from odrive_hardware_interface.hpp and
-- odrive_hardware_interface.cpp: its buffers. The parallel vectors of the source, which
-- `async_io_init_buffers` makes as long as there are joints, are lists of one record for each joint.
pub mod Buffers
pub mod Reading
pub mod Drafting
pub mod Writing
pub mod Exchange
pub mod Worker
use odrive_ros2_control.Prelude.{ℕ, Bool, List}
use odrive_ros2_control.Prelude.Int.{ℤ}
use odrive_ros2_control.AxisControl.{AxisControlLevel}
use odrive_ros2_control.Configuration.{CommandLimits, FeedbackLimits}
use odrive_ros2_control.Interface.{CycleStats, TransportLogState}

pub record AsyncJointStatic (W F : Type 0) : Type 0 where
  pub serial_number : ℤ
  pub axis : ℤ
  pub invert_axis : Bool
  pub enable_watchdog : Bool
  pub torque_constant : F
  pub command_limits : CommandLimits W
  pub feedback_limits : FeedbackLimits W

-- A joint's element of the vectors in `AsyncCommandSnapshot`.
pub record JointCommand (W : Type 0) : Type 0 where
  pub command_position : W
  pub command_velocity : W
  pub command_effort : W
  pub control_level : AxisControlLevel
  pub command_sequence : W

pub record AsyncCommandSnapshot (W : Type 0) : Type 0 where
  pub dt_s : W
  pub joints : List (JointCommand W)

-- The elements of the vectors in `AsyncTelemetrySnapshot`, for a sensor, a drive and a joint.
pub record SensorTelemetry (W : Type 0) : Type 0 where
  pub vbus_voltage : W
  pub transport_error : W

pub record DriveTelemetry (W : Type 0) : Type 0 where
  pub can_error : ℕ
  pub can_error_read_error : W

pub record JointTelemetry (W : Type 0) : Type 0 where
  pub position : W
  pub velocity : W
  pub effort : W
  pub axis_error : W
  pub motor_error : W
  pub encoder_error : W
  pub controller_error : W
  pub fet_temperature : W
  pub motor_temperature : W
  pub read_error : W
  pub write_error : W
  pub telemetry_valid : W
  pub healthy : W
  pub position_rate_limited : W
  pub velocity_rate_limited : W
  pub effort_rate_limited : W

-- The stamp is nanoseconds of the steady clock.
pub record AsyncTelemetrySnapshot (W : Type 0) : Type 0 where
  pub stamp : ℕ
  pub transport_ok : Bool
  pub transport_error : ℤ
  pub sensors : List (SensorTelemetry W)
  pub drives : List (DriveTelemetry W)
  pub joints : List (JointTelemetry W)
  pub cycle_stats : CycleStats W

-- A joint's elements of the vectors that only the worker uses: `async_last_...`,
-- `async_axis_faulted_` and `async_idle_requested_on_fault_`.
pub record AsyncMemory (W : Type 0) : Type 0 where
  pub last_command_position : W
  pub last_command_velocity : W
  pub last_command_effort : W
  pub last_sent_command_sequence : W
  pub last_valid_position : W
  pub last_valid_velocity : W
  pub axis_faulted : Bool
  pub idle_requested_on_fault : Bool

-- The members of the class that the controller's thread and the worker share.
pub record AsyncIo (W F : Type 0) : Type 0 where
  pub stop : Bool
  pub request_pending : Bool
  pub in_flight : Bool
  pub cycle_start : ℕ
  pub joint_static : List (AsyncJointStatic W F)
  pub latest_command : AsyncCommandSnapshot W
  pub latest_telemetry : AsyncTelemetrySnapshot W
  pub memory : List (AsyncMemory W)

-- One joint in a cycle of the worker: index `i` of the vectors.
pub record Slot (W F : Type 0) : Type 0 where
  pub static : AsyncJointStatic W F
  pub memory : AsyncMemory W
  pub telemetry : JointTelemetry W

-- The local variables of a cycle: the snapshot in the making, and whether the cycle was cut short by
-- `goto publish_cycle`.
pub record Work (W F : Type 0) : Type 0 where
  pub ended : Bool
  pub stamp : ℕ
  pub transport_ok : Bool
  pub transport_error : ℤ
  pub sensors : List (SensorTelemetry W)
  pub drives : List (DriveTelemetry W)
  pub slots : List (Slot W F)
  pub cycle_stats : CycleStats W

-- The clock in a cycle: at its start, where it loses the transport, and after each of its phases.
pub record CycleInstants : Type 0 where
  pub start : ℕ
  pub event : ℕ
  pub read_done : ℕ
  pub write_done : ℕ
