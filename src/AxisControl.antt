-- ===== src/AxisControl.antt =====
-- odrive_hardware_interface/src/axis_control.cpp and axis_control.hpp: the operations that switch an
-- axis to a control mode and that send it a command.
pub mod Script
pub mod Feeding
use odrive_ros2_control.Prelude.{ℕ, Bool, true, false, String, List, [], ◌∷◌, if◌then◌else◌}
use odrive_ros2_control.Prelude.Int.{ℤ, pos, eq_ℤ}
use odrive_ros2_control.Fpu.{Fpu, zero_of}
use odrive_ros2_control.Endpoints.{
  axis_endpoint, axis__requested_state, axis__controller__input_pos, axis__controller__input_vel,
  axis__controller__input_torque, axis__controller__config__control_mode, axis__watchdog_feed,
}
use odrive_ros2_control.Transport.{Op, Payload, Log, Transport, write, call, float, int32, perform}

abbrev pub axis_state_idle : ℤ
axis_state_idle = pos 1

abbrev pub axis_state_closed_loop_control : ℤ
axis_state_closed_loop_control = pos 8

pub data AxisControlLevel : Type 0 where
  undefined effort velocity position : AxisControlLevel

-- `static_cast<std::int32_t>(level)`
pub level_value : AxisControlLevel → ℤ
level_value AxisControlLevel.undefined = pos 0
level_value AxisControlLevel.effort = pos 1
level_value AxisControlLevel.velocity = pos 2
level_value AxisControlLevel.position = pos 3

-- `==` of control levels, by their values
abbrev pub is_undefined : AxisControlLevel → Bool
is_undefined AxisControlLevel.undefined = true
is_undefined _ = false

-- The three commands, which the source holds by reference, and the measured state.
pub record AxisCommandState (W : Type 0) : Type 0 where
  pub command_position : W
  pub command_velocity : W
  pub command_effort : W
  pub state_position : W
  pub state_velocity : W
  pub state_effort : W

-- The status that a function returns, and its `failing_stage`, cleared on success.
pub record Outcome : Type 0 where
  pub status : ℤ
  pub failing_stage : String

abbrev pub success : Outcome
success = record { status = pos 0; failing_stage = "" }

abbrev pub Action : Type 0 → Type 0
Action F = Log F → Outcome × Log F

-- `if (status != 0) return status;` between two operations.
infixl 5 ◌>>◌
abbrev pub ◌>>◌ : {F : Type 0} → Action F → Action F → Action F
◌>>◌ m k log = let (o, log') = m log in if eq_ℤ o.status (pos 0) then k log' else (o, log')

abbrev pub finish : {F : Type 0} → Action F
finish log = (success, log)

module _ {W F : Type 0} (u : Fpu W F) where
  open u use {lt, mul, to_float, float_max, float_lowest, radians_to_turns}

  abbrev zero : W
  zero = zero_of u

  -- `static_cast<float>(std::clamp(value, min_val, max_val))`
  unfoldable pub saturate_to_float : W → F
  saturate_to_float value = to_float (
      if lt value float_lowest
      then float_lowest
      else if lt float_max value
      then float_max
      else value)

  -- `radians_to_turns(double)`, then the saturating conversion
  unfoldable pub turns : W → F
  unfolding saturate_to_float
  turns value = saturate_to_float (mul value radians_to_turns)

  -- The assignments to the commands with which each case of the mode switch begins.
  unfoldable pub prime_command : AxisControlLevel → AxisCommandState W → AxisCommandState W
  prime_command AxisControlLevel.undefined c = c
  prime_command AxisControlLevel.effort c = record c { command_effort = c.state_effort }
  prime_command AxisControlLevel.velocity c = record c {
    command_velocity = c.state_velocity;
    command_effort = zero;
  }
  prime_command AxisControlLevel.position c = record c {
    command_position = c.state_position;
    command_velocity = zero;
    command_effort = zero;
  }

  module _ (t : Transport F) (serial axis : ℤ) where
    -- The lambdas `write_axis_value` and `call_axis`.
    unfoldable pub write_axis_value : String → ℕ → Payload F → Action F
    unfolding perform
    write_axis_value stage endpoint value log =
        let (status, log') = perform t (write serial (axis_endpoint endpoint axis) value) log in
        (record { status = status; failing_stage = stage }, log')

    unfoldable pub call_axis : String → ℕ → Action F
    unfolding perform
    call_axis stage endpoint log =
        let (status, log') = perform t (call serial (axis_endpoint endpoint axis)) log in
        (record { status = status; failing_stage = stage }, log')

    -- The writes of each case of the mode switch, for the commands as already primed.
    unfoldable pub switch_mode : AxisControlLevel → AxisCommandState W → Action F
    unfolding write_axis_value level_value turns
    switch_mode AxisControlLevel.undefined c = do
      write_axis_value "requesting idle state" axis__requested_state (int32 axis_state_idle)
      finish
    switch_mode AxisControlLevel.effort c = do
      write_axis_value "setting controller to torque mode" axis__controller__config__control_mode
          (int32 (level_value AxisControlLevel.effort))
      write_axis_value "priming torque setpoint" axis__controller__input_torque
          (float (saturate_to_float c.command_effort))
      write_axis_value "entering closed loop (torque)" axis__requested_state
          (int32 axis_state_closed_loop_control)
      finish
    switch_mode AxisControlLevel.velocity c = do
      write_axis_value "setting controller to velocity mode" axis__controller__config__control_mode
          (int32 (level_value AxisControlLevel.velocity))
      write_axis_value "priming velocity setpoint" axis__controller__input_vel
          (float (turns c.command_velocity))
      write_axis_value "priming torque feed-forward" axis__controller__input_torque
          (float (saturate_to_float c.command_effort))
      write_axis_value "entering closed loop (velocity)" axis__requested_state
          (int32 axis_state_closed_loop_control)
      finish
    switch_mode AxisControlLevel.position c = do
      write_axis_value "setting controller to position mode" axis__controller__config__control_mode
          (int32 (level_value AxisControlLevel.position))
      write_axis_value "priming position setpoint" axis__controller__input_pos
          (float (turns c.command_position))
      write_axis_value "priming velocity limit" axis__controller__input_vel
          (float (turns c.command_velocity))
      write_axis_value "priming torque limit" axis__controller__input_torque
          (float (saturate_to_float c.command_effort))
      write_axis_value "entering closed loop (position)" axis__requested_state
          (int32 axis_state_closed_loop_control)
      finish

    -- The commands are assigned before the first write, so they are primed even if it fails.
    unfoldable pub perform_axis_mode_switch :
        AxisControlLevel → AxisCommandState W → Log F → Outcome × AxisCommandState W × Log F
    unfolding prime_command switch_mode
    perform_axis_mode_switch level c log =
        let primed = prime_command level c in
        let (o, log') = switch_mode level primed log in (o, primed, log')

    -- The feed at the end of a command, if the watchdog is enabled.
    unfoldable pub feed_watchdog : Bool → Action F
    unfolding call_axis
    feed_watchdog enable_watchdog =
        if enable_watchdog
        then call_axis "feeding watchdog" axis__watchdog_feed >> finish
        else finish

    unfoldable pub write_axis_command : AxisControlLevel → AxisCommandState W → Bool → Action F
    unfolding write_axis_value feed_watchdog turns
    write_axis_command AxisControlLevel.position c enable_watchdog = do
      write_axis_value "writing position command" axis__controller__input_pos
          (float (turns c.command_position))
      write_axis_value "writing velocity command" axis__controller__input_vel
          (float (turns c.command_velocity))
      write_axis_value "writing torque command" axis__controller__input_torque
          (float (saturate_to_float c.command_effort))
      feed_watchdog enable_watchdog
    write_axis_command AxisControlLevel.velocity c enable_watchdog = do
      write_axis_value "writing velocity command" axis__controller__input_vel
          (float (turns c.command_velocity))
      write_axis_value "writing torque command" axis__controller__input_torque
          (float (saturate_to_float c.command_effort))
      feed_watchdog enable_watchdog
    write_axis_command AxisControlLevel.effort c enable_watchdog = do
      write_axis_value "writing torque command" axis__controller__input_torque
          (float (saturate_to_float c.command_effort))
      feed_watchdog enable_watchdog
    write_axis_command AxisControlLevel.undefined c enable_watchdog = finish
