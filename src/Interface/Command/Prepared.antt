-- ===== src/Interface/Command/Prepared.antt =====
-- What preparing a command keeps of a joint, and what the prepared command satisfies.
use odrive_ros2_control.Prelude.{
  Bool, true, not, ◌&&◌, ◌≡◌, refl, ◌⊎◌, inl, inr, none, arith, Bool-cases, Option-cases, has_value,
}
use odrive_ros2_control.Prelude.Int.{ℤ}
use odrive_ros2_control.Fpu.{Fpu, zero_of}
use odrive_ros2_control.Fpu.Laws.{IsIeee}
use odrive_ros2_control.AxisControl.{AxisControlLevel, AxisCommandState, is_undefined}
use odrive_ros2_control.Configuration.{CommandLimits}
use odrive_ros2_control.CommandValidation.{validate_joint_command}
use odrive_ros2_control.CommandValidation.Bounds.{
  FiniteLimits, Permitted, validate_joint_command-Permitted,
}
use odrive_ros2_control.Interface.{JointContext, CycleStats}
use odrive_ros2_control.Interface.Reset.{finite_or_zero}
use odrive_ros2_control.Interface.Command.{
  command_state, limit_rates, validate_or_hold, prepare_command,
}

module _ {W F : Type 0} (u : Fpu W F) where
  -- What a cycle's commands leave alone in a joint: where it is, its mode, and its error registers.
  pub record Identity : Type 0 where
    pub serial_number : ℤ
    pub axis : ℤ
    pub control_level : AxisControlLevel
    pub enable_watchdog : Bool
    pub invert_axis : Bool
    pub axis_error : W
    pub motor_error : W
    pub encoder_error : W
    pub controller_error : W

  abbrev pub identity : JointContext W F → Identity
  identity j = record {
    serial_number = j.serial_number;
    axis = j.axis;
    control_level = j.control_level;
    enable_watchdog = j.enable_watchdog;
    invert_axis = j.invert_axis;
    axis_error = j.axis_error;
    motor_error = j.motor_error;
    encoder_error = j.encoder_error;
    controller_error = j.controller_error;
  }

  -- The commands are the measured position and velocity, with no effort.
  pub record IsHeld (j j' : JointContext W F) : Type 0 where
    pub holds_position : j'.command_position ≡ finite_or_zero u j.position
    pub holds_velocity : j'.command_velocity ≡ finite_or_zero u j.velocity
    pub no_effort : j'.command_effort ≡ zero_of u

  abbrev pub IsSafe : JointContext W F → JointContext W F → Type 0
  IsSafe j j' = Permitted u j.command_limits j.control_level (command_state u j') ⊎ IsHeld j j'

  undefined_accepted :
      (l : CommandLimits W) (level : AxisControlLevel) (c : AxisCommandState W)
      → is_undefined level ≡ true
      → validate_joint_command u l level c ≡ none
  unfolding validate_joint_command
  undefined_accepted l AxisControlLevel.undefined c h = refl
  undefined_accepted l AxisControlLevel.effort c h = absurd (ground (arith, h))
  undefined_accepted l AxisControlLevel.velocity c h = absurd (ground (arith, h))
  undefined_accepted l AxisControlLevel.position c h = absurd (ground (arith, h))

  module _ (dt : W) (j : JointContext W F) (stats : CycleStats W) where
    pub prepare_command-identity : identity (prepare_command u dt j stats).0 ≡ identity j
    unfolding prepare_command validate_or_hold limit_rates
    prepare_command-identity =
        let limited = (limit_rates u dt j stats).0 in
        elim (Bool-cases (
          has_value
            (validate_joint_command u j.command_limits j.control_level (command_state u limited))
          && not (is_undefined j.control_level))) [ inl e ↦ rw e | inr e ↦ rw e ]

    -- With finite limits, the commands that `write` prepares are within the limits of the mode, or
    -- they hold the measured position and velocity with no effort.
    pub prepare_command-IsSafe :
        IsIeee u → FiniteLimits u j.command_limits → IsSafe j (prepare_command u dt j stats).0
    unfolding prepare_command validate_or_hold limit_rates
    prepare_command-IsSafe laws fin =
        let limited = (limit_rates u dt j stats).0 in
        let checked =
          validate_joint_command u j.command_limits j.control_level (command_state u limited) in
        let valid =
          validate_joint_command-Permitted u laws j.command_limits j.control_level
            (command_state u limited) fin in
        elim (Option-cases checked) [
          | inl ok ↦ rw ok (inl (valid.0 ok))
          | inr (r, bad) ↦ elim (Bool-cases (is_undefined j.control_level)) [
            | inl undefined ↦
                absurd
                  (ground (arith, bad, undefined_accepted _ _ (command_state u limited) undefined))
            | inr defined ↦
                rw (bad, defined)
                  (inr (record { holds_position = refl; holds_velocity = refl; no_effort = refl }))
          ]
        ]
