-- ===== src/CommandValidation.antt =====
-- odrive_hardware_interface/src/command_validation.cpp. A message is the reason and the values that
-- it prints; `none` is the result `true`, with the reason cleared.
pub mod Bounds
use odrive_ros2_control.Prelude.{
  Bool, true, false, not, ◌||◌, String, Option, none, some, if◌then◌else◌,
}
use odrive_ros2_control.Fpu.{Fpu, zero_of}
use odrive_ros2_control.AxisControl.{AxisControlLevel, AxisCommandState}
use odrive_ros2_control.Configuration.{CommandLimits}

pub data Rejection (W : Type 0) : Type 0 where
  not_finite : String → Rejection W
  below_minimum : String → W → W → Rejection W
  exceeds_maximum : String → W → W → Rejection W

-- `&&` of two validations: the second is not made if the first fails.
infixr 35 ◌and_then◌
abbrev pub ◌and_then◌ :
    {W : Type 0} → Option (Rejection W) → Option (Rejection W) → Option (Rejection W)
none and_then v = v
some r and_then v = some r

module _ {W F : Type 0} (u : Fpu W F) where
  open u use {is_finite, lt, le, add, sub, mul, abs, copysign}

  -- `limit && value < *limit`
  abbrev pub below : W → Option W → Bool
  below value none = false
  below value (some limit) = lt value limit

  abbrev pub above : W → Option W → Bool
  above value none = false
  above value (some limit) = lt limit value

  abbrev check_maximum : String → W → Option W → Option (Rejection W)
  check_maximum label value none = none
  check_maximum label value (some limit) =
      if lt limit value then some (exceeds_maximum label value limit) else none

  abbrev check_minimum : String → W → Option W → Option (Rejection W) → Option (Rejection W)
  check_minimum label value none next = next
  check_minimum label value (some limit) next =
      if lt value limit then some (below_minimum label value limit) else next

  unfoldable pub validate_component : String → W → Option W → Option W → Option (Rejection W)
  validate_component label value min_limit max_limit =
      if not (is_finite value)
      then some (not_finite label)
      else check_minimum label value min_limit (check_maximum label value max_limit)

  unfoldable pub validate_joint_command :
      CommandLimits W → AxisControlLevel → AxisCommandState W → Option (Rejection W)
  validate_joint_command l AxisControlLevel.position c =
      validate_component "Position" c.command_position l.position_min l.position_max
      and_then validate_component "Velocity" c.command_velocity l.velocity_min l.velocity_max
      and_then validate_component "Effort" c.command_effort l.effort_min l.effort_max
  validate_joint_command l AxisControlLevel.velocity c =
      validate_component "Velocity" c.command_velocity l.velocity_min l.velocity_max
      and_then validate_component "Effort" c.command_effort l.effort_min l.effort_max
  validate_joint_command l AxisControlLevel.effort c =
      validate_component "Effort" c.command_effort l.effort_min l.effort_max
  validate_joint_command l AxisControlLevel.undefined c = none

  -- The command as it is left, and the result: `true` if it was not limited.
  unfoldable pub apply_rate_limiting : W → W → Option W → W → Bool × W
  apply_rate_limiting command last_command none dt = (true, command)
  apply_rate_limiting command last_command (some max_rate) dt =
      if not (is_finite last_command) || le dt (zero_of u)
      then (true, command)
      else let delta = sub command last_command in
        let max_delta = mul max_rate dt in
        if lt max_delta (abs delta)
        then (false, add last_command (copysign max_delta delta))
        else (true, command)
