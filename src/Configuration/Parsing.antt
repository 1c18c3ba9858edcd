-- ===== src/Configuration/Parsing.antt =====
-- `parse_optional_double` and `parse_hardware_configuration` of
-- odrive_hardware_interface/src/odrive_configuration.cpp.
pub mod Accepted
use odrive_ros2_control.Prelude.{
  Bool, true, false, String, Option, none, some, List, [], ◌∷◌, if◌then◌else◌,
}
use odrive_ros2_control.Prelude.Int.{ℤ}
use text.Mathlib.Text.{◌==◌}
use odrive_ros2_control.Fpu.{Fpu, zero_of}
use odrive_ros2_control.Configuration.{
  SensorConfig, CommandLimits, FeedbackLimits, JointConfig, HardwareConfiguration,
}
use odrive_ros2_control.Configuration.Conversions.{
  Conversions, parse_hex_serial, parse_bool, parse_int, parse_double,
}

-- `ComponentInfo` and `HardwareInfo` of ros2_control, as far as the parser reads them.
pub record ComponentInfo : Type 0 where
  pub name : String
  pub parameters : List (String × String)

pub record HardwareInfo : Type 0 where
  pub sensors : List ComponentInfo
  pub joints : List ComponentInfo

-- The messages, with the component and the key that they name.
pub data ConfigError : Type 0 where
  no_joints : ConfigError
  missing_parameter : (component key : String) → ConfigError
  invalid_value : (component key : String) → ConfigError
  timeout_not_positive : (component : String) → ConfigError
  timeout_too_short : (component : String) → ConfigError
  min_greater_than_max : (component key_min key_max : String) → ConfigError

-- What a step of the parser makes of the parameters.
pub data Parsed {ℓ} (V : Type ℓ) : Type ℓ where
  refused : ConfigError → Parsed V
  done : V → Parsed V

-- An early return passes its message on.
infixl 5 ◌>>=◌ ◌>>◌
abbrev pub ◌>>=◌ {ℓ κ} : {U : Type ℓ} {V : Type κ} → Parsed U → (U → Parsed V) → Parsed V
refused message >>= next = refused message
done value >>= next = next value

abbrev pub ◌>>◌ {ℓ} : {V : Type ℓ} → Parsed (Unit {0}) → Parsed V → Parsed V
check >> next = check >>= λ passed. next

-- The error, unless the test holds.
abbrev pub refuse_if : Bool → ConfigError → Parsed (Unit {0})
refuse_if true e = refused e
refuse_if false e = done tt

abbrev pub or_error {ℓ} : {A : Type ℓ} → Option A → ConfigError → Parsed A
or_error none e = refused e
or_error (some a) e = done a

-- `unordered_map::find`
abbrev pub find : List (String × String) → String → Option String
find [] key = none
find ((k, value) ∷ parameters) key = if k == key then some value else find parameters key

module _ {W F : Type 0} (u : Fpu W F) (lib : Conversions W) where
  open u use {lt, le, thousandths}

  -- The value of what was found for a key that may be absent, with the value it then has.
  abbrev pub value_or {ℓ} :
      {A : Type ℓ} → A → (String → Option A) → ComponentInfo → String → Option String → Parsed A
  value_or absent parse info key none = done absent
  value_or absent parse info key (some text) =
      or_error (parse text) (ConfigError.invalid_value info.name key)

  abbrev pub parse_or {ℓ} :
      {A : Type ℓ} → A → (String → Option A) → ComponentInfo → String → Parsed A
  parse_or absent parse info key = value_or absent parse info key (find info.parameters key)

  abbrev pub optional_double : ComponentInfo → String → Option String → Parsed (Option W)
  optional_double info key none = done none
  optional_double info key (some text) = do
    value ← or_error (parse_double lib text) (ConfigError.invalid_value info.name key)
    done (some value)

  unfoldable pub parse_optional_double : ComponentInfo → String → Parsed (Option W)
  parse_optional_double info key = optional_double info key (find info.parameters key)

  abbrev pub find_parameter : ComponentInfo → String → Parsed String
  find_parameter info key =
      or_error (find info.parameters key) (ConfigError.missing_parameter info.name key)

  unfoldable pub parse_sensor : ComponentInfo → Parsed SensorConfig
  parse_sensor sensor = do
    serial ← find_parameter sensor "serial_number"
    serial_number ←
        or_error (parse_hex_serial lib serial)
          (ConfigError.invalid_value sensor.name "serial_number")
    done (record { name = sensor.name; serial_number = serial_number })

  unfoldable pub parse_command_limits : ComponentInfo → Parsed (CommandLimits W)
  parse_command_limits joint = do
    position_min ← parse_optional_double joint "command_position_min"
    position_max ← parse_optional_double joint "command_position_max"
    velocity_min ← parse_optional_double joint "command_velocity_min"
    velocity_max ← parse_optional_double joint "command_velocity_max"
    effort_min ← parse_optional_double joint "command_effort_min"
    effort_max ← parse_optional_double joint "command_effort_max"
    max_position_rate ← parse_optional_double joint "max_position_rate"
    max_velocity_rate ← parse_optional_double joint "max_velocity_rate"
    max_effort_rate ← parse_optional_double joint "max_effort_rate"
    done (record {
      position_min = position_min;
      position_max = position_max;
      velocity_min = velocity_min;
      velocity_max = velocity_max;
      effort_min = effort_min;
      effort_max = effort_max;
      max_position_rate = max_position_rate;
      max_velocity_rate = max_velocity_rate;
      max_effort_rate = max_effort_rate;
    })

  unfoldable pub parse_feedback_limits : ComponentInfo → Parsed (FeedbackLimits W)
  parse_feedback_limits joint = do
    max_believable_velocity ← parse_optional_double joint "max_believable_velocity"
    max_believable_effort ← parse_optional_double joint "max_believable_effort"
    max_position_discontinuity ← parse_optional_double joint "max_position_discontinuity"
    done (record {
      max_believable_velocity = max_believable_velocity;
      max_believable_effort = max_believable_effort;
      max_position_discontinuity = max_position_discontinuity;
    })

  -- Both limits are given, and the lower one is greater.
  abbrev pub crossed : Option W → Option W → Bool
  crossed (some low) (some high) = lt high low
  crossed _ _ = false

  unfoldable pub check_watchdog : String → Bool → W → Parsed (Unit {0})
  check_watchdog name false timeout = done tt
  check_watchdog name true timeout = do
    refuse_if (le timeout (zero_of u)) (ConfigError.timeout_not_positive name)
    refuse_if (lt timeout (thousandths 10)) (ConfigError.timeout_too_short name)

  unfoldable pub check_limits : String → CommandLimits W → Parsed (Unit {0})
  check_limits name l = do
    refuse_if (crossed l.position_min l.position_max)
        (ConfigError.min_greater_than_max name "command_position_min" "command_position_max")
    refuse_if (crossed l.velocity_min l.velocity_max)
        (ConfigError.min_greater_than_max name "command_velocity_min" "command_velocity_max")
    refuse_if (crossed l.effort_min l.effort_max)
        (ConfigError.min_greater_than_max name "command_effort_min" "command_effort_max")

  unfoldable pub parse_joint : ComponentInfo → Parsed (JointConfig W)
  parse_joint joint = do
    serial ← find_parameter joint "serial_number"
    axis_text ← find_parameter joint "axis"
    timeout_text ← find_parameter joint "watchdog_timeout"
    enable_text ← find_parameter joint "enable_watchdog"
    invert_axis ← parse_or false (parse_bool lib) joint "invert_axis"
    serial_number ←
        or_error (parse_hex_serial lib serial)
          (ConfigError.invalid_value joint.name "serial_number")
    axis ← or_error (parse_int lib axis_text) (ConfigError.invalid_value joint.name "axis")
    timeout ←
        or_error (parse_double lib timeout_text)
          (ConfigError.invalid_value joint.name "watchdog_timeout")
    enable ←
        or_error (parse_bool lib enable_text)
          (ConfigError.invalid_value joint.name "enable_watchdog")
    check_watchdog joint.name enable timeout
    command_limits ← parse_command_limits joint
    feedback_limits ← parse_feedback_limits joint
    check_limits joint.name command_limits
    done (record {
      name = joint.name;
      serial_number = serial_number;
      axis = axis;
      enable_watchdog = enable;
      watchdog_timeout = timeout;
      invert_axis = invert_axis;
      command_limits = command_limits;
      feedback_limits = feedback_limits;
    })

  -- The loop over the sensors, or over the joints.
  unfoldable pub parse_each {ℓ} :
      {A : Type ℓ} → (ComponentInfo → Parsed A) → List ComponentInfo → Parsed (List A)
  parse_each parse [] = done []
  parse_each parse (info ∷ infos) = do
    config ← parse info
    rest ← parse_each parse infos
    done (config ∷ rest)

  abbrev pub require_joints : List ComponentInfo → Parsed (Unit {0})
  require_joints [] = refused ConfigError.no_joints
  require_joints (_ ∷ _) = done tt

  unfoldable pub parse_all : HardwareInfo → Parsed (HardwareConfiguration W)
  parse_all info = do
    require_joints info.joints
    sensors ← parse_each parse_sensor info.sensors
    joints ← parse_each parse_joint info.joints
    done (record { sensors = sensors; joints = joints })

  -- The configuration and the message are assigned: the message is `none` when it is cleared.
  abbrev pub store_parsed :
      HardwareConfiguration W
      → Parsed (HardwareConfiguration W)
      → Bool × HardwareConfiguration W × Option ConfigError
  store_parsed config (done parsed) = (true, parsed, none)
  store_parsed config (refused message) = (false, config, some message)

  unfoldable pub parse_hardware_configuration :
      HardwareInfo → HardwareConfiguration W → Bool × HardwareConfiguration W × Option ConfigError
  parse_hardware_configuration info config = store_parsed config (parse_all info)
