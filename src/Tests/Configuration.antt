-- ===== src/Tests/Configuration.antt =====
-- The theorem on the parser, applied.
use odrive_ros2_control.Prelude.{◌≡◌, refl, true, some, [], ◌∷◌}
use odrive_ros2_control.Prelude.Int.{pos}
use odrive_ros2_control.Fpu.Exact.{Exact, exact}
use odrive_ros2_control.Configuration.{HardwareConfiguration}
use odrive_ros2_control.Configuration.Conversions.{
  Conversions, size, parse_hex_serial, parse_bool, parse_int, parse_double,
}
use odrive_ros2_control.Configuration.Parsing.{
  ComponentInfo, HardwareInfo, parse_optional_double, parse_command_limits, parse_feedback_limits,
  check_watchdog, check_limits, parse_joint, parse_each, parse_all, parse_hardware_configuration,
}
use odrive_ros2_control.Configuration.Parsing.Accepted.Complete.{
  Decides, parse_hardware_configuration-Decides,
}
use odrive_ros2_control.Tests.Data.{number}

-- Every text is a number.
abbrev conversions : Conversions Exact
conversions = record {
  stoull = λ s. some (7, size s);
  stoi = λ s. some (pos 1, size s);
  stod = λ s. some (number 3, size s);
  to_lower = λ c. c;
}

abbrev joint_info : ComponentInfo
joint_info = record {
  name = "elbow";
  parameters =
      ("serial_number", "7")
      ∷ ("axis", "1")
      ∷ ("watchdog_timeout", "3")
      ∷ ("enable_watchdog", "yes")
      ∷ ("max_velocity_rate", "3.0")
      ∷ [];
}

abbrev info : HardwareInfo
info = record { sensors = []; joints = joint_info ∷ [] }

abbrev no_configuration : HardwareConfiguration Exact
no_configuration = record { sensors = []; joints = [] }

the_joint_is_accepted :
    (parse_hardware_configuration exact conversions info no_configuration).0 ≡ true
unfolding parse_hardware_configuration parse_all parse_each parse_joint parse_hex_serial parse_int
    parse_bool parse_double check_watchdog check_limits parse_command_limits parse_feedback_limits
    parse_optional_double
the_joint_is_accepted = refl

parse_hardware_configuration-Decides_example :
    Decides exact conversions info no_configuration
      (parse_hardware_configuration exact conversions info no_configuration)
parse_hardware_configuration-Decides_example =
    parse_hardware_configuration-Decides exact conversions info no_configuration
