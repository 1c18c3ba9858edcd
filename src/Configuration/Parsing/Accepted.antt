-- ===== src/Configuration/Parsing/Accepted.antt =====
-- The configurations that `parse_hardware_configuration` accepts, read off the parameters.
pub mod Sound
pub mod Complete
use odrive_ros2_control.Prelude.{
  Each, ◌≡◌, refl, sym, ap, ◌≢◌, ◌⊎◌, inl, inr, Bool, true, false, String, Option, none, some, List,
  [], ◌∷◌, Option-cases,
}
use mathlib.Core.Path.{subst}
use odrive_ros2_control.Fpu.{Fpu, zero_of}
use odrive_ros2_control.Configuration.{
  SensorConfig, CommandLimits, FeedbackLimits, JointConfig, HardwareConfiguration,
}
use odrive_ros2_control.Configuration.Conversions.{
  Conversions, parse_hex_serial, parse_bool, parse_int, parse_double,
}
use odrive_ros2_control.Configuration.Parsing.{
  ComponentInfo, HardwareInfo, ConfigError, Parsed, done, refused, ◌>>=◌, ◌>>◌, refuse_if, or_error,
  find, parse_or, value_or, optional_double, parse_optional_double, find_parameter, parse_sensor,
  parse_command_limits, parse_feedback_limits, crossed, check_watchdog, check_limits, parse_joint,
  parse_each, require_joints, parse_all, parse_hardware_configuration,
}

-- The parameter `key` is given, and its text means the value.
abbrev pub Given {ℓ} : {A : Type ℓ} → (String → Option A) → ComponentInfo → String → A → Type ℓ
Given parse info key a =
    (text : String) × (find info.parameters key ≡ some text) × (parse text ≡ some a)

-- The same, or the parameter is absent and the value is the default.
abbrev pub GivenOr {ℓ} :
    {A : Type ℓ} → A → (String → Option A) → ComponentInfo → String → A → Type ℓ
GivenOr absent parse info key a =
    ((find info.parameters key ≡ none) × (a ≡ absent)) ⊎ Given parse info key a

module _ {W F : Type 0} (u : Fpu W F) (lib : Conversions W) where
  open u use {lt, le, thousandths}

  -- The limit `key` of the joint is the number given for it, or there is none.
  abbrev pub IsLimit : ComponentInfo → String → Option W → Type 0
  IsLimit info key none = find info.parameters key ≡ none
  IsLimit info key (some value) = Given (parse_double lib) info key value

  pub record IsSensorOf (sensor : ComponentInfo) (c : SensorConfig) : Type 0 where
    pub same_name : c.name ≡ sensor.name
    pub serial_number_given : Given (parse_hex_serial lib) sensor "serial_number" c.serial_number

  pub record AreCommandLimits (joint : ComponentInfo) (l : CommandLimits W) : Type 0 where
    pub position_min_given : IsLimit joint "command_position_min" l.position_min
    pub position_max_given : IsLimit joint "command_position_max" l.position_max
    pub velocity_min_given : IsLimit joint "command_velocity_min" l.velocity_min
    pub velocity_max_given : IsLimit joint "command_velocity_max" l.velocity_max
    pub effort_min_given : IsLimit joint "command_effort_min" l.effort_min
    pub effort_max_given : IsLimit joint "command_effort_max" l.effort_max
    pub position_rate_given : IsLimit joint "max_position_rate" l.max_position_rate
    pub velocity_rate_given : IsLimit joint "max_velocity_rate" l.max_velocity_rate
    pub effort_rate_given : IsLimit joint "max_effort_rate" l.max_effort_rate

  pub record AreFeedbackLimits (joint : ComponentInfo) (l : FeedbackLimits W) : Type 0 where
    pub velocity_given : IsLimit joint "max_believable_velocity" l.max_believable_velocity
    pub effort_given : IsLimit joint "max_believable_effort" l.max_believable_effort
    pub discontinuity_given :
        IsLimit joint "max_position_discontinuity" l.max_position_discontinuity

  -- A watchdog that is enabled has a time-out that is not below 10 ms.
  abbrev pub IsTimeout : Bool → W → Type 0
  IsTimeout false timeout = Unit
  IsTimeout true timeout = (le timeout (zero_of u) ≡ false) × (lt timeout (thousandths 10) ≡ false)

  abbrev pub Uncrossed : CommandLimits W → Type 0
  Uncrossed l =
      (crossed u lib l.position_min l.position_max ≡ false)
      × (crossed u lib l.velocity_min l.velocity_max ≡ false)
      × (crossed u lib l.effort_min l.effort_max ≡ false)

  pub record IsJointOf (joint : ComponentInfo) (c : JointConfig W) : Type 0 where
    pub same_name : c.name ≡ joint.name
    pub serial_number_given : Given (parse_hex_serial lib) joint "serial_number" c.serial_number
    pub axis_given : Given (parse_int lib) joint "axis" c.axis
    pub timeout_given : Given (parse_double lib) joint "watchdog_timeout" c.watchdog_timeout
    pub enable_given : Given (parse_bool lib) joint "enable_watchdog" c.enable_watchdog
    pub invert_given : GivenOr false (parse_bool lib) joint "invert_axis" c.invert_axis
    pub timeout_permitted : IsTimeout c.enable_watchdog c.watchdog_timeout
    pub command_limits_given : AreCommandLimits joint c.command_limits
    pub feedback_limits_given : AreFeedbackLimits joint c.feedback_limits
    pub limits_uncrossed : Uncrossed c.command_limits

  pub record IsConfigurationOf (info : HardwareInfo) (c : HardwareConfiguration W) : Type 0 where
    pub some_joint : info.joints ≢ []
    pub sensors_given : Each IsSensorOf info.sensors c.sensors
    pub joints_given : Each IsJointOf info.joints c.joints
