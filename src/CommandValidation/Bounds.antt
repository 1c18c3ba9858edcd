-- ===== src/CommandValidation/Bounds.antt =====
-- What a command that passes the validation satisfies.
use odrive_ros2_control.Prelude.{true, ◌≡◌, ◌↔◌, refl, String, Option, none, some, arith}
use odrive_ros2_control.Fpu.{Fpu}
use odrive_ros2_control.Fpu.Laws.{IsIeee}
use odrive_ros2_control.AxisControl.{AxisControlLevel, AxisCommandState}
use odrive_ros2_control.Configuration.{CommandLimits}
use odrive_ros2_control.CommandValidation.{
  Rejection, ◌and_then◌, validate_component, validate_joint_command,
}

and_then_iff :
    {W P Q : Type 0} (a b : Option (Rejection W))
    → (a ≡ none) ↔ P
    → (b ≡ none) ↔ Q
    → ((a and_then b) ≡ none) ↔ (P × Q)
and_then_iff none b p q = (λ e. (p.0 refl, q.0 e), λ h. q.1 h.1)
and_then_iff (some r) b p q = (λ e. (p.0 e, q.0 (absurd (cc))), λ h. p.1 h.0)

module _ {W F : Type 0} (u : Fpu W F) where
  abbrev pub AtLeast : W → Option W → Type 0
  AtLeast v none = Unit
  AtLeast v (some m) = u.le m v ≡ true

  abbrev pub AtMost : W → Option W → Type 0
  AtMost v none = Unit
  AtMost v (some m) = u.le v m ≡ true

  -- Finite, and within the limits that are set.
  abbrev pub Within : W → Option W → Option W → Type 0
  Within v low high = (u.is_finite v ≡ true) × AtLeast v low × AtMost v high

  abbrev pub IsFiniteLimit : Option W → Type 0
  IsFiniteLimit none = Unit
  IsFiniteLimit (some m) = u.is_finite m ≡ true

  pub record FiniteLimits (l : CommandLimits W) : Type 0 where
    pub position_min_finite : IsFiniteLimit l.position_min
    pub position_max_finite : IsFiniteLimit l.position_max
    pub velocity_min_finite : IsFiniteLimit l.velocity_min
    pub velocity_max_finite : IsFiniteLimit l.velocity_max
    pub effort_min_finite : IsFiniteLimit l.effort_min
    pub effort_max_finite : IsFiniteLimit l.effort_max

  -- The commands that the mode uses are within their limits.
  abbrev pub Permitted : CommandLimits W → AxisControlLevel → AxisCommandState W → Type 0
  Permitted l AxisControlLevel.position c =
      Within c.command_position l.position_min l.position_max
      × (Within c.command_velocity l.velocity_min l.velocity_max
          × Within c.command_effort l.effort_min l.effort_max)
  Permitted l AxisControlLevel.velocity c =
      Within c.command_velocity l.velocity_min l.velocity_max
      × Within c.command_effort l.effort_min l.effort_max
  Permitted l AxisControlLevel.effort c = Within c.command_effort l.effort_min l.effort_max
  Permitted l AxisControlLevel.undefined c = Unit

  module _ (laws : IsIeee u) where
    validate_component-Within :
        (label : String) (v : W) (low high : Option W)
        → IsFiniteLimit low
        → IsFiniteLimit high
        → (validate_component u label v low high ≡ none) ↔ Within v low high
    unfolding validate_component
    validate_component-Within label v none none fl fh = (ground arith, ground arith)
    validate_component-Within label v (some m) none fl fh =
        (ground (arith, laws.le_of_not_lt v m), ground (arith, laws.not_lt_of_le v m))
    validate_component-Within label v none (some n) fl fh =
        (ground (arith, laws.le_of_not_lt n v), ground (arith, laws.not_lt_of_le n v))
    validate_component-Within label v (some m) (some n) fl fh = (
      ground (arith, laws.le_of_not_lt v m, laws.le_of_not_lt n v),
      ground (arith, laws.not_lt_of_le v m, laws.not_lt_of_le n v),
    )

    -- With finite limits a command passes exactly when every command that the mode uses is finite and
    -- within its limits.
    pub validate_joint_command-Permitted :
        (l : CommandLimits W) (level : AxisControlLevel) (c : AxisCommandState W)
        → FiniteLimits l
        → (validate_joint_command u l level c ≡ none) ↔ Permitted l level c
    unfolding validate_joint_command
    validate_joint_command-Permitted l AxisControlLevel.undefined c f = (λ e. tt, λ h. refl)
    validate_joint_command-Permitted l AxisControlLevel.effort c f =
        validate_component-Within "Effort" c.command_effort l.effort_min l.effort_max
          f.effort_min_finite f.effort_max_finite
    validate_joint_command-Permitted l AxisControlLevel.velocity c f =
        and_then_iff _ _
          (validate_component-Within "Velocity" c.command_velocity l.velocity_min l.velocity_max
            f.velocity_min_finite f.velocity_max_finite)
          (validate_component-Within "Effort" c.command_effort l.effort_min l.effort_max
            f.effort_min_finite f.effort_max_finite)
    validate_joint_command-Permitted l AxisControlLevel.position c f =
        and_then_iff _ _
          (validate_component-Within "Position" c.command_position l.position_min l.position_max
            f.position_min_finite f.position_max_finite)
          (and_then_iff _ _
            (validate_component-Within "Velocity" c.command_velocity l.velocity_min l.velocity_max
              f.velocity_min_finite f.velocity_max_finite)
            (validate_component-Within "Effort" c.command_effort l.effort_min l.effort_max
              f.effort_min_finite f.effort_max_finite))
