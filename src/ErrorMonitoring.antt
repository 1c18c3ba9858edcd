-- ===== src/ErrorMonitoring.antt =====
-- odrive_hardware_interface/src/error_monitoring.cpp. A description is the list of the flags that
-- the source joins by ", "; what is written to the log is not modelled.
pub mod Flags
pub mod Registers
use Prim.Native.Nat.{bit_and}
use odrive_ros2_control.Prelude.{
  ℕ, ◌-◌, ◌^◌, Bool, true, false, not, String, Option, none, some, List, [], ◌∷◌, ◌++◌, ◌==◌,
  if◌then◌else◌,
}
use odrive_ros2_control.Fpu.{Fpu, zero_of}

abbrev pub ErrorTable : Type 0
ErrorTable = List (ℕ × String)

unfoldable pub axis_error_table : ErrorTable
axis_error_table =
    (0x00000001, "invalid_state")
    ∷ (0x00000040, "motor_failed")
    ∷ (0x00000080, "sensorless_estimator_failed")
    ∷ (0x00000100, "encoder_failed")
    ∷ (0x00000200, "controller_failed")
    ∷ (0x00000800, "watchdog_timer_expired")
    ∷ (0x00001000, "min_endstop_pressed")
    ∷ (0x00002000, "max_endstop_pressed")
    ∷ (0x00004000, "estop_requested")
    ∷ (0x00020000, "homing_without_endstop")
    ∷ (0x00040000, "over_temp")
    ∷ (0x00080000, "unknown_position")
    ∷ []

unfoldable pub motor_error_table : ErrorTable
motor_error_table =
    (0x00000001, "phase_resistance_out_of_range")
    ∷ (0x00000002, "phase_inductance_out_of_range")
    ∷ (0x00000008, "drv_fault")
    ∷ (0x00000010, "control_deadline_missed")
    ∷ (0x00000080, "modulation_magnitude")
    ∷ (0x00000400, "current_sense_saturation")
    ∷ (0x00001000, "current_limit_violation")
    ∷ (0x00010000, "modulation_is_nan")
    ∷ (0x00020000, "motor_thermistor_over_temp")
    ∷ (0x00040000, "fet_thermistor_over_temp")
    ∷ (0x00080000, "timer_update_missed")
    ∷ (0x00100000, "current_measurement_unavailable")
    ∷ (0x00200000, "controller_failed")
    ∷ (0x00400000, "i_bus_out_of_range")
    ∷ (0x00800000, "brake_resistor_disarmed")
    ∷ (0x01000000, "system_level")
    ∷ (0x02000000, "bad_timing")
    ∷ (0x04000000, "unknown_phase_estimate")
    ∷ (0x08000000, "unknown_phase_vel")
    ∷ (0x10000000, "unknown_torque")
    ∷ (0x20000000, "unknown_current_command")
    ∷ (0x40000000, "unknown_current_measurement")
    ∷ (0x80000000, "unknown_vbus_voltage")
    ∷ (0x100000000, "unknown_voltage_command")
    ∷ (0x200000000, "unknown_gains")
    ∷ (0x400000000, "controller_initializing")
    ∷ (0x800000000, "unbalanced_phases")
    ∷ []

unfoldable pub encoder_error_table : ErrorTable
encoder_error_table =
    (0x00000001, "unstable_gain")
    ∷ (0x00000002, "cpr_polepairs_mismatch")
    ∷ (0x00000004, "no_response")
    ∷ (0x00000008, "unsupported_encoder_mode")
    ∷ (0x00000010, "illegal_hall_state")
    ∷ (0x00000020, "index_not_found_yet")
    ∷ (0x00000040, "abs_spi_timeout")
    ∷ (0x00000080, "abs_spi_com_fail")
    ∷ (0x00000100, "abs_spi_not_ready")
    ∷ (0x00000200, "hall_not_calibrated_yet")
    ∷ []

unfoldable pub controller_error_table : ErrorTable
controller_error_table =
    (0x00000001, "overspeed")
    ∷ (0x00000002, "invalid_input_mode")
    ∷ (0x00000004, "unstable_gain")
    ∷ (0x00000008, "invalid_mirror_axis")
    ∷ (0x00000010, "invalid_load_encoder")
    ∷ (0x00000020, "invalid_estimate")
    ∷ (0x00000040, "invalid_circular_range")
    ∷ (0x00000080, "spinout_detected")
    ∷ []

-- `unknown_bits=0x` stands for the number in hexadecimal.
pub data Flag : Type 0 where
  named : String → Flag
  unknown_bits : ℕ → Flag

-- `remaining &= ~bits` on 64 bits.
abbrev pub clear_bits : ℕ → ℕ → ℕ
clear_bits remaining bits = bit_and remaining (2 ^ 64 - 1 - bits)

-- The loop over the table: the flags found, and the bits that are left.
unfoldable pub decode : ℕ → ErrorTable → ℕ → List Flag × ℕ
decode value [] remaining = ([], remaining)
decode value ((bits, name) ∷ table) remaining =
    let absent = bit_and value bits == 0 in
    let (flags, left) =
      decode value table (if absent then remaining else clear_bits remaining bits) in
    ((if absent then flags else named name ∷ flags), left)

unfoldable pub describe_error_bits : ℕ → ErrorTable → List Flag
unfolding decode
describe_error_bits value table =
    if value == 0
    then []
    else let (flags, remaining) = decode value table value in
      if remaining == 0 then flags else flags ++ (unknown_bits remaining ∷ [])

pub describe_axis_error : ℕ → List Flag
unfolding describe_error_bits axis_error_table
describe_axis_error value = describe_error_bits value axis_error_table

pub describe_motor_error : ℕ → List Flag
unfolding describe_error_bits motor_error_table
describe_motor_error value = describe_error_bits value motor_error_table

pub describe_encoder_error : ℕ → List Flag
unfolding describe_error_bits encoder_error_table
describe_encoder_error value = describe_error_bits value encoder_error_table

pub describe_controller_error : ℕ → List Flag
unfolding describe_error_bits controller_error_table
describe_controller_error value = describe_error_bits value controller_error_table

-- The warning that is logged, if any, and the new `last`.
unfoldable pub log_error_transition : ErrorTable → ℕ → ℕ → Option (ℕ × ℕ × List Flag) × ℕ
unfolding describe_error_bits
log_error_transition table current last =
    if current == last
    then (none, last)
    else (some (last, current, describe_error_bits current table), current)

module _ {W F : Type 0} (u : Fpu W F) where
  open u use {is_finite, lt, to_u64}

  unfoldable pub extract_error_value : W → Option ℕ
  extract_error_value value =
      if not (is_finite value)
      then none
      else if lt value (zero_of u)
      then none
      else let cast_value = to_u64 value in if cast_value == 0 then none else some cast_value
