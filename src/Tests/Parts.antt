-- ===== src/Tests/Parts.antt =====
-- The theorems on the parts below the interface, applied.
use odrive_ros2_control.Prelude.{
  refl, ℕ, ◌≡◌, ◌↔◌, ◌⊎◌, Bool, true, false, none, some, [], ◌∷◌, ◌++◌, arith,
}
use odrive_ros2_control.Prelude.Int.{pos, negsuc}
use odrive_ros2_control.Fpu.Exact.{Exact, exact, exact-IsIeee}
use odrive_ros2_control.Endpoints.{axis_endpoint, axis__watchdog_feed}
use odrive_ros2_control.Transport.{read, call, float}
use odrive_ros2_control.TransportError.{TransportError, errno_to_transport_error, to_error_code}
use odrive_ros2_control.TransportError.Classes.{errno_to_transport_error-to_error_code}
use odrive_ros2_control.Retry.{read_with_retry, write_with_retry}
use odrive_ros2_control.Retry.Attempts.{
  Attempts, TransferFault, read_with_retry-Attempts, write_with_retry-Attempts,
  read_with_retry_libusb_fault,
}
use odrive_ros2_control.AxisControl.{
  AxisControlLevel, AxisCommandState, is_undefined, write_axis_command,
}
use odrive_ros2_control.AxisControl.Script.{Accepted, Ran, ops, command_script}
use odrive_ros2_control.AxisControl.Feeding.{
  calls, write_axis_command-Ran, write_axis_command_feeds_last,
}
use odrive_ros2_control.CommandValidation.{validate_joint_command}
use odrive_ros2_control.CommandValidation.Bounds.{Permitted, validate_joint_command-Permitted}
use odrive_ros2_control.AxisTelemetry.{empty_sample, read_axis_telemetry, run_blocks}
use odrive_ros2_control.AxisTelemetry.Reading.{
  telemetry_script, read_axis_telemetry-Ran, measured, read_axis_telemetry-measured,
}
use odrive_ros2_control.ErrorMonitoring.{axis_error_table, describe_error_bits, extract_error_value}
use odrive_ros2_control.ErrorMonitoring.Flags.{describe_error_bits_nil}
use odrive_ros2_control.ErrorMonitoring.Registers.{positive_bits, extract_error_value-of_int}
use odrive_ros2_control.Interface.Command.{command_state}
use odrive_ros2_control.Interface.Health.{HealthEvent, update_transport_health}
use odrive_ros2_control.Interface.Health.Transitions.{update_transport_health_transitions}
use odrive_ros2_control.Tests.Data.{
  number, accepting, gone, elbow, health, limits, limits-FiniteLimits,
}

abbrev command : AxisCommandState Exact
command = command_state exact elbow

write_axis_command-Ran_example :
    let (o, log') =
      write_axis_command exact gone (pos 7) (pos 1) AxisControlLevel.velocity command true [] in
    Ran gone (command_script exact (pos 7) (pos 1) AxisControlLevel.velocity command true) [] o log'
write_axis_command-Ran_example =
    write_axis_command-Ran exact gone (pos 7) (pos 1) AxisControlLevel.velocity command true []

write_axis_command_feeds_last_example :
    let log' =
      (write_axis_command exact accepting
        (pos 7)
        (pos 1)
        AxisControlLevel.effort
        command
        true
        []).1 in
    let setpoints =
      ops (command_script exact (pos 7) (pos 1) AxisControlLevel.effort command false) in
    (calls log' ≡ 0)
    ⊎ ((◌≡◌ {A = Bool} true true)
        × (is_undefined AxisControlLevel.effort ≡ false)
        × Accepted accepting [] setpoints
        × (log' ≡ setpoints ++ (call (pos 7) (axis_endpoint axis__watchdog_feed (pos 1)) ∷ [])))
write_axis_command_feeds_last_example =
    write_axis_command_feeds_last exact accepting (pos 7) (pos 1) AxisControlLevel.effort command
      true []

read_with_retry-Attempts_example :
    (n : ℕ) × Attempts 3 n 0 [] (read_with_retry accepting (pos 7) (pos 1) (number 0) 3 0 [])
read_with_retry-Attempts_example =
    read_with_retry-Attempts accepting (pos 7) (pos 1) 3 (number 0) 0 [] (omega arith)

write_with_retry-Attempts_example :
    (n : ℕ) × Attempts 3 n 0 [] (write_with_retry gone (pos 7) (pos 1) (float (number 0)) 3 0 [])
write_with_retry-Attempts_example =
    write_with_retry-Attempts gone (pos 7) (pos 1) 3 (float (number 0)) 0 [] (omega arith)

read_with_retry_libusb_fault_example :
    read_with_retry gone (pos 7) (pos 1) (number 0) 3 0 []
    ≡ (negsuc 3, number 0, 0, read (pos 7) (pos 1) ∷ [])
read_with_retry_libusb_fault_example =
    read_with_retry_libusb_fault gone (pos 7) (pos 1) 3 (number 0) 0 [] (omega arith)
      TransferFault.no_device

validate_joint_command-Permitted_example :
    (validate_joint_command exact limits AxisControlLevel.position command ≡ none)
    ↔ Permitted exact limits AxisControlLevel.position command
validate_joint_command-Permitted_example =
    validate_joint_command-Permitted exact exact-IsIeee limits AxisControlLevel.position command
      limits-FiniteLimits

read_axis_telemetry-Ran_example :
    let (o, _, log') =
      read_axis_telemetry exact accepting (pos 7) (pos 1) (number 2) (empty_sample exact) [] in
    Ran accepting (telemetry_script Exact (pos 7) (pos 1)) [] o log'
read_axis_telemetry-Ran_example =
    read_axis_telemetry-Ran exact accepting (pos 7) (pos 1) (number 2) (empty_sample exact) []

telemetry_succeeds :
    (read_axis_telemetry exact accepting
      (pos 7)
      (pos 1)
      (number 2)
      (empty_sample exact)
      []).0.status
    ≡ pos 0
unfolding read_axis_telemetry run_blocks
telemetry_succeeds = refl

read_axis_telemetry-measured_example :
    (read_axis_telemetry exact accepting (pos 7) (pos 1) (number 2) (empty_sample exact) []).1
    ≡ measured exact accepting (pos 7) (pos 1) (number 2) []
read_axis_telemetry-measured_example =
    read_axis_telemetry-measured exact accepting (pos 7) (pos 1) (number 2) (empty_sample exact) []
      telemetry_succeeds

update_transport_health_transitions_example :
    let (event, s') =
      update_transport_health exact (number 5) false (negsuc 3) "writing axis command" 900 health in
    (s'.known ≡ true)
    × (s'.ok ≡ false)
    × ((event ≡ some HealthEvent.offline) ↔ (
        (◌≡◌ {A = Bool} false false) × ((◌≡◌ {A = Bool} true false) ⊎ (◌≡◌ {A = Bool} true true))))
    × ((event ≡ some HealthEvent.recovered)
        ↔ ((◌≡◌ {A = Bool} false true) × (◌≡◌ {A = Bool} true true) × (◌≡◌ {A = Bool} true false)))
    × (s'.last_transition ≡ 900)
    × (s'.offline_since ≡ 900)
update_transport_health_transitions_example =
    update_transport_health_transitions exact (number 5) false (negsuc 3) "writing axis command" 900
      health

describe_error_bits_nil_example :
    (describe_error_bits 2064 axis_error_table ≡ []) ↔ (◌≡◌ {A = ℕ} 2064 0)
describe_error_bits_nil_example = describe_error_bits_nil 2064 axis_error_table

extract_error_value-of_int_example :
    extract_error_value exact (exact.of_int (negsuc 4)) ≡ positive_bits (negsuc 4)
extract_error_value-of_int_example =
    extract_error_value-of_int exact (negsuc 4) exact-IsIeee (omega arith)

errno_to_transport_error-to_error_code_example :
    errno_to_transport_error (to_error_code TransportError.timeout) ≡ TransportError.timeout
errno_to_transport_error-to_error_code_example =
    errno_to_transport_error-to_error_code TransportError.timeout
