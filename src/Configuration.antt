-- ===== src/Configuration.antt =====
-- odrive_hardware_interface/include/odrive_hardware_interface/hardware_configuration.hpp.
pub mod Conversions
pub mod Parsing
use odrive_ros2_control.Prelude.{Bool, String, List, Option}
use odrive_ros2_control.Prelude.Int.{ℤ}

pub record SensorConfig : Type 0 where
  pub name : String
  pub serial_number : ℤ

pub record CommandLimits (W : Type 0) : Type 0 where
  pub position_min : Option W
  pub position_max : Option W
  pub velocity_min : Option W
  pub velocity_max : Option W
  pub effort_min : Option W
  pub effort_max : Option W
  pub max_position_rate : Option W
  pub max_velocity_rate : Option W
  pub max_effort_rate : Option W

pub record FeedbackLimits (W : Type 0) : Type 0 where
  pub max_believable_velocity : Option W
  pub max_believable_effort : Option W
  pub max_position_discontinuity : Option W

pub record JointConfig (W : Type 0) : Type 0 where
  pub name : String
  pub serial_number : ℤ
  pub axis : ℤ
  pub enable_watchdog : Bool
  pub watchdog_timeout : W
  pub invert_axis : Bool
  pub command_limits : CommandLimits W
  pub feedback_limits : FeedbackLimits W

pub record HardwareConfiguration (W : Type 0) : Type 0 where
  pub sensors : List SensorConfig
  pub joints : List (JointConfig W)
